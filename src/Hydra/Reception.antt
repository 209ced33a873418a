-- ===== src/Hydra/Reception.antt =====
-- The state of the side of a Hydra batch that receives files (source/bforce/prot_hydra.c), what its
-- packets hold, and `p_rx_writefile` of source/bforce/prot_common.c.
use binkleyforce.Base.{
  ℕ, ◌+◌, ◌-◌, ◌/◌, ◌^◌, Bool, true, false, not, ◌&&◌, Option, none, some, List, [], ◌∷◌, ◌++◌,
  ◌==◌, ltb, leb, if◌then◌else◌, Bytes, length,
}
use binkleyforce.Base.Int.{ℤ, pos, negsuc}
use binkleyforce.Binkp.{FileInfo, Fstat, fstat_skipped, fstat_refused, is_success}
use binkleyforce.Hydra.{hydra_putlong, hydra_getlong, hydra_align_block_size}

-- `e_hydra_rxstate`.
pub data RxState : Type 0 where
  hrx_done : RxState
  hrx_init : RxState
  hrx_finfo : RxState
  hrx_data : RxState
  hrx_rpos : RxState
  hrx_rpos_ack : RxState
  hrx_skip : RxState
  hrx_skip_ack : RxState

abbrev pub is_rpos_ack : RxState → Bool
is_rpos_ack hrx_rpos_ack = true
is_rpos_ack _ = false

abbrev pub is_skip : RxState → Bool
is_skip hrx_skip = true
is_skip _ = false

-- The types of the packets that this side queues.
abbrev pub hpkt_finfoack : ℕ
hpkt_finfoack = b'E'

abbrev pub hpkt_dataack : ℕ
hpkt_dataack = b'G'

abbrev pub hpkt_rpos : ℕ
hpkt_rpos = b'H'

abbrev pub hpkt_eofack : ℕ
hpkt_eofack = b'J'

-- The variables of `hydra_batch` and the fields of `s_hydrainfo` of this side. A timer that does not
-- run is 0. `written` is what the file received holds, up to its position; `closed` lists the files
-- that `p_rx_fclose` has closed, with the status that it left; `queued` the packets that were queued.
pub record Incoming : Type 0 where
  pub rxstate : RxState
  pub rxtries : ℕ
  pub recvtimer : ℕ
  pub deadtimer : ℕ
  pub last_datapos : ℤ
  pub rxlastack : ℕ
  pub rxwindow : ℕ
  pub recv_rpos_id : ℕ
  pub recv_block_size : ℕ
  pub timeout_recv : ℕ
  pub timeout_dead : ℕ
  pub recv : Option FileInfo
  pub written : Bytes
  pub closed : List (Fstat × Bytes)
  pub queued : List (ℕ × Bytes)

-- How a round goes on: it ends the batch with PRC_ERROR, or reads a null pointer.
pub data Outcome : Type 0 where
  going : Outcome
  failed : Outcome
  crashed : Outcome

-- What the disk answers: to `ftell` (not below zero), `stat` (the file is there) and `fwrite` of
-- `p_rx_writefile`; and to `file_close`, `stat` (the size, or none) and `p_move2inbound` of
-- `p_rx_fclose`. `is_request` is a file request that is answered at once, and not moved.
pub record Disk : Type 0 where
  pub ftell_ok : Bool
  pub is_there : Bool
  pub fwrite_ok : Bool
  pub close_ok : Bool
  pub closed_size : Option ℕ
  pub is_request : Bool
  pub move_ok : Bool

-- A number of a packet. On a platform whose `long` has 32 bits the upper half is below zero.
unfoldable pub read_long : Bool → Bytes → ℤ
read_long long32 buf =
    let n = hydra_getlong buf in if long32 && leb (2 ^ 31) n then negsuc (2 ^ 32 - 1 - n) else pos n

-- The four bytes of a `long`.
unfoldable pub put_offset : ℤ → Bytes
unfolding hydra_putlong
put_offset (pos n) = hydra_putlong n
put_offset (negsuc n) = hydra_putlong (2 ^ 32 - 1 - n)

abbrev pub queue_packet : ℕ → Bytes → Incoming → Incoming
queue_packet pkttype src st = record st { queued = st.queued ++ ((pkttype, src) ∷ []) }

abbrev pub set_file : (FileInfo → FileInfo) → Incoming → Incoming
set_file change st = record st { recv = elim st.recv [ none ↦ none | some f ↦ some (change f) ] }

-- `*pi->recv`.
abbrev pub on_file : Incoming → (FileInfo → Incoming) → Incoming × Outcome
on_file st go = elim st.recv [ none ↦ (st, crashed) | some f ↦ (go f, going) ]

-- The block size that is asked for is halved.
abbrev pub smaller_blocks : Incoming → Incoming
smaller_blocks st = record st { recv_block_size = hydra_align_block_size (st.recv_block_size / 2) }

-- A new RPOS packet is to be sent.
abbrev pub ask_again : Incoming → Incoming
ask_again st = record (smaller_blocks st) {
  recv_rpos_id = st.recv_rpos_id + 1;
  rxtries = 0;
  rxstate = hrx_rpos;
}

-- The file is not wanted any more.
abbrev pub give_up : Fstat → Incoming → Incoming
give_up status st = record (set_file (λ f. record f { status = status }) st) {
  recv_rpos_id = st.recv_rpos_id + 1;
  rxtries = 0;
  rxstate = hrx_skip;
}

-- What `p_rx_writefile` returns: 0, -1 and -2.
pub data Wrote : Type 0 where
  wrote : Wrote
  write_later : Wrote
  write_never : Wrote

-- The file is open at the end of what it holds. What a write that fails leaves of it is not followed.
unfoldable pub p_rx_writefile : Disk → FileInfo → Bytes → Bytes → (FileInfo × Bytes) × Wrote
p_rx_writefile disk f written buffer =
    if not disk.ftell_ok
    then ((record f { status = fstat_refused }, written), write_later)
    else if not (f.bytes_received == length written)
    then ((record f { bytes_received = length written }, written), write_later)
    else if not disk.is_there
    then ((record f { status = fstat_skipped }, written), write_never)
    else if ltb 0 (length buffer) && not disk.fwrite_ok
    then ((record f { status = fstat_refused }, written), write_later)
    else ((f, written ++ buffer), wrote)

-- The status that a file is left with, once it is closed: a success is looked at again.
unfoldable pub closing_status : Disk → FileInfo → Fstat
closing_status disk f = if not (is_success f.status) then f.status else elim disk.closed_size [
  | none ↦ fstat_refused
  | some size ↦
      if not (size == f.bytes_total)
      then fstat_refused
      else if disk.is_request
      then f.status
      else if disk.move_ok
      then f.status
      else fstat_refused
]

-- `p_rx_fclose`, without its times and logs and the rights of the file; the result is whether it
-- returns 1.
unfoldable pub p_rx_fclose : Disk → FileInfo → Incoming → Incoming × Bool
unfolding closing_status
p_rx_fclose disk f st =
    let shut = record f { opened = false } in
    let status = closing_status disk f in
    if f.opened && not disk.close_ok then (record st { recv = some shut }, true) else (
      record st {
        recv = some (record shut { status = status });
        closed = st.closed ++ ((status, st.written) ∷ []);
      },
      not (is_success status),
    )
