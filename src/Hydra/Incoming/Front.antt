-- ===== src/Hydra/Incoming/Front.antt =====
-- While a file is received, what it holds is a front of the file that is sent
-- (source/bforce/prot_hydra.c).
use mathlib.Core.Path.{subst}
use binkleyforce.Base.{
  ℕ, ◌-◌, ◌≤◌, ◌≡◌, sym, arith, Bool, true, false, Option, some, List, [], ◌∷◌, Bytes, length, take,
  drop,
}
use binkleyforce.Base.Int.{ℤ, pos}
use binkleyforce.Binkp.{FileInfo}
use binkleyforce.Hydra.Incoming.{
  recv_timer, send_rpos, rx_round, recv_junk, data_elsewhere, recv_data, recv_idle,
}
use binkleyforce.Hydra.Reception.{
  RxState, hrx_data, hrx_rpos, hrx_rpos_ack, Incoming, Disk, read_long,
}

-- Is the file still being received?
abbrev pub is_open : RxState → Bool
is_open hrx_data = true
is_open hrx_rpos = true
is_open hrx_rpos_ack = true
is_open _ = false

-- While it is, what it holds is the front of the file that is sent, and the position is its end.
abbrev pub Front : Bytes → Option FileInfo → Bytes → Type 0
Front source recv written =
    (f : FileInfo) × (recv ≡ some f)
    × (f.bytes_received ≡ length written)
    × (written ≡ take (length written) source)

abbrev pub IsFront : Bytes → Incoming → Type 0
IsFront source st = is_open st.rxstate ≡ true → Front source st.recv st.written

-- A DATA packet with bytes of the file that is sent, at the position that it names.
abbrev pub IsHonest : Bool → Bytes → Bytes → ℕ → Type 0
IsHonest long32 source ibuf isize =
    (isize ≤ length ibuf)
    × ((n : ℕ)
        → read_long long32 ibuf ≡ pos n
        → drop 4 (take isize ibuf) ≡ take (isize - 4) (drop n source))

-- What the other side and the clock may do.
pub data Event : Type 0 where
  data_packet : ℕ → Disk → Bytes → ℕ → Event
  junk_packet : Event
  idle_packet : ℕ → Event
  timer_round : ℕ → Event
  rx_turn : ℕ → Event

abbrev pub IsHonestEvent : Bool → Bytes → Event → Type 0
IsHonestEvent long32 source (data_packet now disk ibuf isize) = IsHonest long32 source ibuf isize
IsHonestEvent long32 source _ = Unit {0}

unfoldable pub after_event : Bool → Event → Incoming → Incoming
unfolding recv_data recv_junk recv_idle recv_timer rx_round
after_event long32 (data_packet now disk ibuf isize) st =
    (recv_data long32 now disk ibuf isize st).0
after_event long32 junk_packet st = recv_junk st
after_event long32 (idle_packet now) st = recv_idle now st
after_event long32 (timer_round now) st = recv_timer now st
after_event long32 (rx_turn now) st = (rx_round now st).0

-- A step that leaves the file alone, and takes no file up again.
pub unchanged :
    (source : Bytes) (st st' : Incoming)
    → IsFront source st
    → st'.recv ≡ st.recv
    → st'.written ≡ st.written
    → (is_open st'.rxstate ≡ true → is_open st.rxstate ≡ true)
    → IsFront source st'
unchanged source st st' h same held opened o =
    subst (λ t. Front source t st'.written) (sym same)
      (subst (Front source st.recv) (sym held) (h (opened o)))

pub junk-IsFront :
    (source : Bytes) (st : Incoming) → IsFront source st → IsFront source (recv_junk st)
unfolding recv_junk
junk-IsFront source st h =
    unchanged source st (recv_junk st) h (ground arith) (ground arith) (λ o. ground arith)

pub idle-IsFront :
    (now : ℕ) (source : Bytes) (st : Incoming)
    → IsFront source st
    → IsFront source (recv_idle now st)
unfolding recv_idle
idle-IsFront now source st h = h

pub timer-IsFront :
    (now : ℕ) (source : Bytes) (st : Incoming)
    → IsFront source st
    → IsFront source (recv_timer now st)
unfolding recv_timer
timer-IsFront now source st h =
    unchanged source st (recv_timer now st) h (ground arith) (ground arith) (λ o. ground arith)

pub turn-IsFront :
    (now : ℕ) (source : Bytes) (st : Incoming)
    → IsFront source st
    → IsFront source (rx_round now st).0
unfolding rx_round send_rpos
turn-IsFront now source st h =
    unchanged source st (rx_round now st).0 h (ground arith) (ground arith) (λ o. ground arith)

pub elsewhere-IsFront :
    (long32 : Bool) (now : ℕ) (disk : Disk) (ibuf : Bytes) (isize : ℕ) (offset : ℤ) (source : Bytes)
    (st : Incoming)
    → is_open st.rxstate ≡ true
    → IsFront source st
    → IsFront source (data_elsewhere long32 now disk ibuf isize offset st)
unfolding data_elsewhere
elsewhere-IsFront long32 now disk ibuf isize offset source st o h =
    unchanged source st (data_elsewhere long32 now disk ibuf isize offset st) h (ground arith)
      (ground arith) (λ o'. o)

unfoldable pub after_events : Bool → List Event → Incoming → Incoming
unfolding after_event
after_events long32 [] st = st
after_events long32 (event ∷ events) st = after_events long32 events (after_event long32 event st)
