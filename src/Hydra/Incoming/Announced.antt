-- ===== src/Hydra/Incoming/Announced.antt =====
-- The announcement of a file (HPKT_FINFO in `hydra_batch` of source/bforce/prot_hydra.c).
use binkleyforce.Base.{
  ℕ, ◌+◌, ◌-◌, ◌&&◌, Option, none, some, [], ◌∷◌, ◌==◌, ltb, if◌then◌else◌, Bytes, get_or, length,
  take, drop,
}
use binkleyforce.Base.Int.{pos, negsuc}
use binkleyforce.Binkp.{FileInfo, Opened, rx_accept, rx_skip, rx_refuse, rx_error}
use binkleyforce.Hydra.Reception.{
  Incoming, hrx_finfo, hrx_done, hrx_data, Outcome, going, crashed, put_offset, queue_packet,
  hpkt_finfoack,
}

-- The bytes in front of a zero.
abbrev pub until_zero : Bytes → Bytes
until_zero [] = []
until_zero (c ∷ s) = if c == 0 then [] else c ∷ until_zero s

abbrev pub bad_name : Bytes
bad_name = b'b' ∷ b'a' ∷ b'd' ∷ b'_' ∷ b'n' ∷ b'a' ∷ b'm' ∷ b'e' ∷ []

-- The long name, if there is one that ends in a zero; else the short one.
unfoldable pub file_name : Bytes → ℕ → Bytes
file_name ibuf isize =
    let short = until_zero (take (isize - 40) (drop 40 ibuf)) in
    let start = 40 + length short + 1 in
    let long = until_zero (take (isize - start) (drop start ibuf)) in
    if length short == 0
    then bad_name
    else if ltb 0 (length long) && get_or (drop start ibuf) (length long) 1 == 0
    then long
    else short

-- `read_numbers` are the time and the size that `sscanf` reads, the time as UTC; `p_rx_fopen` opens
-- the file, and gives what `pi->recv` is then and what the file holds.
module _ (read_numbers : Bytes → ℕ × ℕ)
    (p_rx_fopen : Bytes → ℕ → ℕ → Opened × Option FileInfo × Bytes) (now : ℕ) (ibuf : Bytes)
    (isize : ℕ) where
  unfoldable pub open_announced : Incoming → Incoming × Outcome
  unfolding file_name put_offset
  open_announced st =
      let (mod_time, filesize) = read_numbers ibuf in
      let (code, recv, written) = p_rx_fopen (file_name ibuf isize) filesize mod_time in
      let st' = record st { recv = recv; written = written } in
      elim code [
        | rx_accept ↦ elim recv [
          | none ↦ (st', crashed)
          | some f ↦ (
            queue_packet hpkt_finfoack (put_offset (pos f.bytes_skipped)) (record st' {
              rxlastack = f.bytes_skipped;
              last_datapos = negsuc 0;
              recvtimer = now + st.timeout_recv;
              rxstate = hrx_data;
            }),
            going,
          )
        ]
        | rx_skip ↦ (queue_packet hpkt_finfoack (put_offset (negsuc 1)) st', going)
        | rx_refuse ↦ (queue_packet hpkt_finfoack (put_offset (negsuc 0)) st', going)
        | rx_error ↦ (st', crashed)
      ]

  unfoldable pub recv_finfo : Incoming → Incoming × Outcome
  unfolding open_announced put_offset
  recv_finfo st =
      let end_of_batch = record (queue_packet hpkt_finfoack (put_offset (pos 0)) st) {
        rxstate = hrx_done;
      } in
      let announced =
        if get_or ibuf 0 0 == 0
        then (end_of_batch, going)
        else if ltb 41 isize && get_or ibuf (isize - 1) 1 == 0
        then open_announced st
        else (st, going) in
      elim st.rxstate [
        | hrx_finfo ↦ announced
        | hrx_done ↦ (queue_packet hpkt_finfoack (put_offset (negsuc 1)) st, going)
        | other ↦ (st, going)
      ]
