-- ===== src/Hydra/Incoming.antt =====
-- The side of a Hydra batch that receives files: `rxstate` in `hydra_batch` of
-- source/bforce/prot_hydra.c.
pub mod Announced
pub mod Front
pub mod Written
pub mod Whole
pub mod Skipped
pub mod Offsets
mod Tests
use binkleyforce.Base.{
  ℕ, suc, ◌+◌, ◌-◌, ◌/◌, ◌^◌, Bool, true, false, not, ◌&&◌, ◌||◌, Option, none, some, List, [], ◌∷◌,
  ◌++◌, ◌==◌, ltb, leb, if◌then◌else◌, Bytes, get_or, length, take, drop,
}
use binkleyforce.Base.Int.{ℤ, pos, negsuc, ◌==ℤ◌, ltb_ℤ}
use binkleyforce.Binkp.{
  FileInfo, Fstat, fstat_success, fstat_skipped, fstat_refused, Opened, rx_accept, rx_skip,
  rx_refuse, rx_error,
}
use binkleyforce.Hydra.{hydra_putlong, hydra_putword, hydra_getlong, hydra_align_block_size}
use binkleyforce.Hydra.Reception.{
  Disk, Incoming, Outcome, RxState, Wrote, ask_again, crashed, failed, give_up, going, hpkt_dataack,
  hpkt_eofack, hpkt_finfoack, hpkt_rpos, hrx_data, hrx_done, hrx_finfo, hrx_init, hrx_rpos,
  hrx_rpos_ack, hrx_skip, hrx_skip_ack, is_rpos_ack, is_skip, on_file, p_rx_fclose, p_rx_writefile,
  put_offset, queue_packet, read_long, set_file, smaller_blocks, write_later, write_never, wrote,
}

module _ (now : ℕ) where
  -- The timer of this side has expired.
  unfoldable pub recv_timer : Incoming → Incoming
  unfolding hydra_align_block_size
  recv_timer st =
      let stopped = record st { recvtimer = 0 } in
      if ltb 0 st.recvtimer && ltb st.recvtimer now
      then elim st.rxstate [
        | hrx_rpos_ack ↦ record (smaller_blocks stopped) { rxstate = hrx_rpos }
        | hrx_skip_ack ↦ record stopped { rxstate = hrx_skip }
        | hrx_data ↦ record stopped { rxstate = hrx_rpos }
        | other ↦ stopped
      ]
      else st

  -- The RPOS packet.
  unfoldable pub rpos_packet : ℤ → Incoming → Bytes
  unfolding put_offset hydra_putword hydra_putlong
  rpos_packet offset st =
      put_offset offset ++ (hydra_putword st.recv_block_size ++ hydra_putlong st.recv_rpos_id)

  -- -1 and -2 for a file that is skipped, the position for one that is wanted.
  unfoldable pub asked_offset : Incoming → FileInfo → ℤ
  asked_offset st f =
      if is_skip st.rxstate
      then elim f.status [ fstat_skipped ↦ negsuc 0 | other ↦ negsuc 1 ]
      else pos f.bytes_received

  unfoldable pub send_rpos : Incoming → Incoming × Outcome
  unfolding rpos_packet asked_offset
  send_rpos st =
      let tried = record st { rxtries = st.rxtries + 1 } in
      let timed = record tried { recvtimer = now + st.timeout_recv } in
      if ltb tried.rxtries 10
      then on_file timed (λ f.
        record (queue_packet hpkt_rpos (rpos_packet (asked_offset st f) st) timed) {
          rxstate = if is_skip st.rxstate then hrx_skip_ack else hrx_rpos_ack;
        })
      else (tried, failed)

  -- The second `switch` of a round.
  unfoldable pub rx_round : Incoming → Incoming × Outcome
  unfolding send_rpos
  rx_round st = elim st.rxstate [
    | hrx_rpos ↦ send_rpos st
    | hrx_skip ↦ send_rpos st
    | other ↦ (st, going)
  ]

-- HPKT_JUNK.
unfoldable pub recv_junk : Incoming → Incoming
unfolding hydra_align_block_size
recv_junk st = elim st.rxstate [ hrx_data ↦ ask_again st | other ↦ st ]

module _ (long32 : Bool) (now : ℕ) (disk : Disk) (ibuf : Bytes) (isize : ℕ) where
  -- Data that is not at the position of the file.
  unfoldable pub data_elsewhere : ℤ → Incoming → Incoming
  unfolding hydra_align_block_size
  data_elsewhere offset st =
      let asked =
        if is_rpos_ack st.rxstate
        then (if ltb_ℤ offset st.last_datapos then record st { rxstate = hrx_rpos } else st)
        else ask_again st in
      record asked { last_datapos = offset }

  -- Data that is: what was written is acknowledged and counted.
  unfoldable pub finish_write : Incoming → (FileInfo × Bytes) × Wrote → Incoming
  unfolding hydra_putlong
  finish_write timed ((f, written), result) =
      let after = record timed { recv = some f; written = written } in
      let acknowledged =
        if ltb 0 timed.rxwindow
        then record (queue_packet hpkt_dataack (hydra_putlong f.bytes_received) after) {
          rxlastack = f.bytes_received;
        }
        else after in
      elim result [
        | wrote ↦ record acknowledged {
          recv = some (record f { bytes_received = f.bytes_received + (isize - 4) });
        }
        | write_later ↦ give_up fstat_refused after
        | write_never ↦ give_up fstat_skipped after
      ]

  unfoldable pub data_in_place : FileInfo → Incoming → Incoming
  unfolding p_rx_writefile finish_write
  data_in_place f st =
      let timed = record st {
        recv_block_size = isize - 4;
        last_datapos = read_long long32 ibuf;
        deadtimer = now + st.timeout_dead;
        recvtimer = now + st.timeout_recv;
        rxstate = hrx_data;
      } in
      finish_write timed (p_rx_writefile disk f st.written (drop 4 (take isize ibuf)))

  unfoldable pub data_for : FileInfo → Incoming → Incoming
  unfolding read_long data_elsewhere data_in_place
  data_for f st =
      if not (read_long long32 ibuf ==ℤ pos f.bytes_received)
      then data_elsewhere (read_long long32 ibuf) st
      else data_in_place f st

  unfoldable pub data_taken : Incoming → Incoming × Outcome
  unfolding data_for
  data_taken st = if ltb isize 4 then (st, going) else on_file st (λ f. data_for f st)

  -- HPKT_DATA.
  unfoldable pub recv_data : Incoming → Incoming × Outcome
  unfolding data_taken
  recv_data st = elim st.rxstate [
    | hrx_data ↦ data_taken st
    | hrx_rpos_ack ↦ data_taken st
    | other ↦ (st, going)
  ]

  -- HPKT_EOF while a file is received, while it is skipped, and else.
  unfoldable pub eof_of_file : FileInfo → Incoming → Incoming
  unfolding p_rx_fclose
  eof_of_file f st =
      let finished = record f { status = fstat_success } in
      let (shut, unclosed) = p_rx_fclose disk finished st in
      if not (read_long long32 ibuf ==ℤ pos f.bytes_received)
      then record (ask_again st) { last_datapos = read_long long32 ibuf }
      else if unclosed
      then record (set_file (λ g. record g { status = fstat_refused }) shut) {
        rxtries = 0;
        rxstate = hrx_skip;
      }
      else record (queue_packet hpkt_eofack [] shut) { rxtries = 0; rxstate = hrx_finfo }

  unfoldable pub eof_of_skipped : FileInfo → Incoming → Incoming
  unfolding p_rx_fclose
  eof_of_skipped f st = record (p_rx_fclose disk f (queue_packet hpkt_eofack [] st)).0 {
    recvtimer = 0;
    rxtries = 0;
    rxstate = hrx_finfo;
  }

  unfoldable pub eof_in_file : Incoming → Incoming × Outcome
  unfolding eof_of_file
  eof_in_file st = if ltb isize 4 then (st, going) else on_file st (λ f. eof_of_file f st)

  unfoldable pub eof_in_skipped : Incoming → Incoming × Outcome
  unfolding read_long eof_of_skipped
  eof_in_skipped st =
      if ltb isize 4
      then (st, going)
      else if not (ltb_ℤ (read_long long32 ibuf) (pos 0))
      then (record st { rxstate = hrx_skip }, going)
      else on_file st (λ f. eof_of_skipped f st)

  unfoldable pub eof_unexpected : Incoming → Incoming × Outcome
  unfolding read_long
  eof_unexpected st = (
    if isize == 4 && read_long long32 ibuf ==ℤ negsuc 1 then queue_packet hpkt_eofack [] st else st,
    going,
  )

  unfoldable pub recv_eof : Incoming → Incoming × Outcome
  unfolding eof_in_file eof_in_skipped eof_unexpected
  recv_eof st = elim st.rxstate [
    | hrx_data ↦ eof_in_file st
    | hrx_skip ↦ eof_in_skipped st
    | hrx_skip_ack ↦ eof_in_skipped st
    | other ↦ eof_unexpected st
  ]

-- HPKT_IDLE.
unfoldable pub recv_idle : ℕ → Incoming → Incoming
recv_idle now st = record st { recvtimer = now + st.timeout_recv }
