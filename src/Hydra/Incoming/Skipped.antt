-- ===== src/Hydra/Incoming/Skipped.antt =====
-- A file that is skipped (source/bforce/prot_hydra.c).
use binkleyforce.Base.{ℕ, ◌≡◌, arith, Bool, true, false, Bytes}
use binkleyforce.Hydra.Incoming.{recv_eof}
use binkleyforce.Hydra.Reception.{RxState, hrx_skip, hrx_skip_ack, Incoming, Disk}

abbrev pub is_skipping : RxState → Bool
is_skipping hrx_skip = true
is_skipping hrx_skip_ack = true
is_skipping _ = false

-- Where `long` has more than 32 bits, no EOF packet, whatever it says, is acknowledged while a file is
-- skipped, and the file is not closed: the receiver stays in HRX_Skip or HRX_SkipAck.
pub recv_eof-skipped :
    (now : ℕ) (disk : Disk) (ibuf : Bytes) (isize : ℕ) (st : Incoming)
    → is_skipping st.rxstate ≡ true
    → ((recv_eof false now disk ibuf isize st).0.queued ≡ st.queued)
      × ((recv_eof false now disk ibuf isize st).0.closed ≡ st.closed)
      × (is_skipping (recv_eof false now disk ibuf isize st).0.rxstate ≡ true)
unfolding recv_eof
recv_eof-skipped now disk ibuf isize st h = (ground arith, ground arith, ground arith)
