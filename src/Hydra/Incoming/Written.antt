-- ===== src/Hydra/Incoming/Written.antt =====
-- The data of a packet continues the front of a file (source/bforce/prot_hydra.c and `p_rx_writefile`
-- of source/bforce/prot_common.c).
pub mod Grown
use mathlib.Core.Path.{subst, ap₂}
use binkleyforce.Base.{
  ℕ, zero, suc, ◌+◌, ◌-◌, ◌≤◌, ◌≡◌, refl, sym, ap, ◌∙◌, arith, Bool, true, not, ◌&&◌, ◌⊎◌, inl, inr,
  none, some, [], ◌∷◌, ◌++◌, ◌==◌, ltb, Bool-cases, Option-cases, Bytes, length, length-append,
  take, drop,
}
use binkleyforce.Base.Int.{pos, ◌==ℤ◌, ==ℤ_iff}
use binkleyforce.Binkp.{FileInfo}
use binkleyforce.Hydra.Incoming.{finish_write, data_in_place, data_for, data_taken, recv_data}
use binkleyforce.Hydra.Reception.{
  RxState, hrx_done, hrx_init, hrx_finfo, hrx_data, hrx_rpos, hrx_rpos_ack, hrx_skip, hrx_skip_ack,
  Incoming, Outcome, going, crashed, Disk, read_long, Wrote, wrote, write_later, write_never,
  p_rx_writefile, on_file,
}
use binkleyforce.Hydra.Incoming.Front.{is_open, Front, IsFront, IsHonest, elsewhere-IsFront}
use binkleyforce.Hydra.Incoming.Written.Grown.{
  write_cases, length_taken, length_dropped, grown, some_inj, no_file, on_file_some, data_states,
}

module _ (long32 : Bool) (now : ℕ) (disk : Disk) (ibuf : Bytes) (isize : ℕ) (source : Bytes) where
  shut_later :
      (timed : Incoming) (r : (FileInfo × Bytes) × Wrote)
      → r.1 ≡ write_later
      → is_open (finish_write long32 now disk ibuf isize timed r).rxstate ≡ true
      → ⊥
  unfolding finish_write
  shut_later timed r e o = ground arith

  shut_never :
      (timed : Incoming) (r : (FileInfo × Bytes) × Wrote)
      → r.1 ≡ write_never
      → is_open (finish_write long32 now disk ibuf isize timed r).rxstate ≡ true
      → ⊥
  unfolding finish_write
  shut_never timed r e o = ground arith

  holds_data :
      (f : FileInfo) (timed : Incoming) (buffer : Bytes)
      → (finish_write long32 now disk ibuf isize timed
          ((f, timed.written ++ buffer), wrote)).written
        ≡ timed.written ++ buffer
  unfolding finish_write
  holds_data f timed buffer = ground arith

  written-IsFront :
      (f : FileInfo) (timed : Incoming) (buffer : Bytes)
      → f.bytes_received ≡ length timed.written
      → length buffer ≡ isize - 4
      → timed.written ++ buffer ≡ take (length (timed.written ++ buffer)) source
      → IsFront source
          (finish_write long32 now disk ibuf isize timed ((f, timed.written ++ buffer), wrote))
  unfolding finish_write
  written-IsFront f timed buffer here size front o =
      subst (Front source (some (record f { bytes_received = f.bytes_received + (isize - 4) })))
        (sym (holds_data f timed buffer))
        (
          record f { bytes_received = f.bytes_received + (isize - 4) },
          refl,
          omega (arith, length-append {0} timed.written buffer),
          front,
        )

  in_place-IsFront :
      (f : FileInfo) (st : Incoming)
      → f.bytes_received ≡ length st.written
      → st.written ≡ take (length st.written) source
      → 4 ≤ isize
      → IsHonest long32 source ibuf isize
      → read_long long32 ibuf ≡ pos f.bytes_received
      → IsFront source (data_in_place long32 now disk ibuf isize f st)
  unfolding data_in_place
  in_place-IsFront f st here front room honest at o =
      let buffer = drop 4 (take isize ibuf) in
      let size : length buffer ≡ isize - 4 =
        omega (arith, length_dropped 4 (take isize ibuf), length_taken isize ibuf honest.0) in
      let next = honest.1 f.bytes_received at ∙ ap (λ t. take (isize - 4) (drop t source)) here in
      let timed : Incoming = record st {
        recv_block_size = isize - 4;
        last_datapos = read_long long32 ibuf;
        deadtimer = now + st.timeout_dead;
        recvtimer = now + st.timeout_recv;
        rxstate = hrx_data;
      } in
      let IsFrontAfter = λ (r : (FileInfo × Bytes) × Wrote).
        IsFront source (finish_write long32 now disk ibuf isize timed r) in
      elim (write_cases disk f st.written buffer) [
        | inl e ↦
            subst IsFrontAfter (sym e)
              (written-IsFront f timed buffer here size
                (grown source st.written buffer (isize - 4) front next size))
              o
        | inr (inl e) ↦ absurd (shut_later timed (p_rx_writefile disk f st.written buffer) e o)
        | inr (inr e) ↦ absurd (shut_never timed (p_rx_writefile disk f st.written buffer) e o)
      ]

  for-IsFront :
      (f : FileInfo) (st : Incoming)
      → st.recv ≡ some f
      → is_open st.rxstate ≡ true
      → 4 ≤ isize
      → IsHonest long32 source ibuf isize
      → IsFront source st
      → IsFront source (data_for long32 now disk ibuf isize f st)
  unfolding data_for
  for-IsFront f st e o room honest h =
      let front = h o in
      let same : front.0 ≡ f = some_inj (sym front.1 ∙ e) in
      let here : f.bytes_received ≡ length st.written =
        subst (λ (t : FileInfo). t.bytes_received ≡ length st.written) same front.2 in
      elim (Bool-cases (read_long long32 ibuf ==ℤ pos f.bytes_received)) [
        | inr far ↦
            rw far
              (elsewhere-IsFront long32 now disk ibuf isize (read_long long32 ibuf) source st o h)
        | inl at ↦ rw at (
            in_place-IsFront f st here front.3 room honest
              ((==ℤ_iff (read_long long32 ibuf) (pos f.bytes_received)).0 at))
      ]

  taken-IsFront :
      (st : Incoming)
      → is_open st.rxstate ≡ true
      → IsHonest long32 source ibuf isize
      → IsFront source st
      → IsFront source (data_taken long32 now disk ibuf isize st).0
  unfolding data_taken
  taken-IsFront st o honest h = elim (Bool-cases (ltb isize 4)) [
    | inl short ↦ rw short h
    | inr long ↦ elim (Option-cases st.recv) [
      | inl null ↦ absurd (no_file (h o).0 (sym (h o).1 ∙ null))
      | inr (f, e) ↦ rw long (
          subst (IsFront source)
            (sym
              (ap (λ r. r.0) (on_file_some st (λ g. data_for long32 now disk ibuf isize g st) f e)))
            (for-IsFront f st e o (ground arith) honest h))
    ]
  ]

  -- A DATA packet.
  pub data-IsFront :
      (st : Incoming)
      → IsHonest long32 source ibuf isize
      → IsFront source st
      → IsFront source (recv_data long32 now disk ibuf isize st).0
  unfolding recv_data
  data-IsFront st honest h =
      elim (data_states st.rxstate (data_taken long32 now disk ibuf isize st) (st, going)) [
        | inl e ↦ subst (λ (r : Incoming × Outcome). IsFront source r.0) (sym e) h
        | inr (e, o) ↦
            subst (λ (r : Incoming × Outcome). IsFront source r.0) (sym e)
              (taken-IsFront st o honest h)
      ]
