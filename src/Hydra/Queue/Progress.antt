-- ===== src/Hydra/Queue/Progress.antt =====
-- Every packet is written in the end (source/bforce/prot_hydra.c).
use mathlib.Core.Path.{subst}
use binkleyforce.Base.{
  ℕ, zero, suc, ◌+◌, ◌≤◌, ◌<◌, ◌≡◌, refl, sym, ap, ◌∙◌, arith, Bool, true, false, inl, inr, none,
  List, [], ◌∷◌, ◌++◌, if◌then◌else◌, Bool-cases, Option-cases, Bytes, length, length-append, take,
  All,
}
use binkleyforce.Hydra.{hydra_buflen}
use binkleyforce.Hydra.Queue.{
  HydraPkt, HydraWriter, hydra_buffer_packet, buffer_queue, filled_from, filled, write_out,
  hydra_send,
}
use binkleyforce.Hydra.Queue.Order.{
  bytes_of, waiting, outstanding, buffer_packet_bytes, round_sent, round_full, round_room,
  outstanding-hydra_send,
}

-- A packet that the buffer can hold.
abbrev pub Holds : HydraPkt → Type 0
Holds pkt = pkt.size ≤ hydra_buflen

never_full : (pkt : HydraPkt) → Holds pkt → hydra_buffer_packet [] pkt ≡ none → ⊥
unfolding hydra_buffer_packet
never_full pkt h e = ground arith

no_packets : (unsent : Bytes) → length unsent ≤ length (buffer_queue unsent []).0.0
unfolding buffer_queue
no_packets unsent = omega arith

length-waiting :
    (pkt : HydraPkt) (queue : List HydraPkt)
    → pkt.sent ≡ false
    → length (waiting (pkt ∷ queue)) ≡ length (bytes_of pkt) + length (waiting queue)
length-waiting pkt queue e =
    ap (λ (t : Bool). length ((if t then [] else bytes_of pkt) ++ waiting queue)) e
    ∙ length-append (bytes_of pkt) (waiting queue)

waiting_sent :
    (pkt : HydraPkt) (queue : List HydraPkt)
    → pkt.sent ≡ true
    → length (waiting (pkt ∷ queue)) ≡ length (waiting queue)
waiting_sent pkt queue e =
    ap (λ (t : Bool). length ((if t then [] else bytes_of pkt) ++ waiting queue)) e

bytes_moved :
    (unsent : Bytes) (queue : List HydraPkt)
    → length unsent ≤ length (buffer_queue unsent queue).0.0
bytes_moved unsent [] = no_packets unsent
bytes_moved unsent (pkt ∷ queue) = elim (Bool-cases pkt.sent) [
  | inl e ↦ rw (round_sent unsent pkt queue e) (bytes_moved unsent queue)
  | inr e ↦ elim (Option-cases (hydra_buffer_packet unsent pkt)) [
    | inl full ↦ rw (round_full unsent pkt queue e full) (omega arith)
    | inr (more, room) ↦ rw (round_room unsent pkt queue more e room) (
        omega (
          arith,
          bytes_moved more queue,
          length-append {0} unsent (bytes_of pkt),
          ap length (buffer_packet_bytes unsent pkt more room),
        ))
  ]
]

-- The loop fills an empty buffer, if a packet waits.
buffer_filled :
    (unsent : Bytes) (queue : List HydraPkt)
    → All Holds queue
    → 0 < length unsent + length (waiting queue)
    → 0 < length (buffer_queue unsent queue).0.0
buffer_filled (c ∷ s) queue h any = omega (arith, bytes_moved (c ∷ s) queue)
buffer_filled [] [] h any = absurd (omega arith)
buffer_filled [] (pkt ∷ queue) h any = elim (Bool-cases pkt.sent) [
  | inl e ↦
      rw (round_sent [] pkt queue e)
        (buffer_filled [] queue h.1 (omega (arith, waiting_sent pkt queue e)))
  | inr e ↦ elim (Option-cases (hydra_buffer_packet [] pkt)) [
    | inl full ↦ absurd (never_full pkt h.0 full)
    | inr (more, room) ↦ rw (round_room [] pkt queue more e room) (
        buffer_filled more queue h.1 (
          omega
            (arith, length-waiting pkt queue e, ap length (buffer_packet_bytes [] pkt more room))))
  ]
]

filled_some :
    (hi : HydraWriter) (unsent : Bytes)
    → hi.unsent ≡ unsent
    → All Holds hi.pktqueue
    → 0 < length unsent + length (waiting hi.pktqueue)
    → 0 < length (filled_from hi unsent).unsent
filled_some hi [] e h any = buffer_filled [] hi.pktqueue h any
filled_some hi (c ∷ rest) e h any = omega (arith, ap length e)

filled_pos :
    (hi : HydraWriter)
    → All Holds hi.pktqueue
    → 0 < length (outstanding hi)
    → 0 < length (filled hi).unsent
unfolding filled
filled_pos hi h any =
    filled_some hi hi.unsent refl h
      (omega (arith, length-append {0} hi.unsent (waiting hi.pktqueue)))

take_pos : (n : ℕ) (s : Bytes) → 0 < n → 0 < length s → 0 < length (take n s)
take_pos (suc n) (c ∷ s) h k = omega arith
take_pos zero s h k = absurd (omega arith)
take_pos (suc n) [] h k = absurd (omega arith)

write_out_pos :
    (n : ℕ) (hi : HydraWriter) → 0 < n → 0 < length hi.unsent → 0 < length (write_out n hi).0.1
unfolding write_out
write_out_pos n hi h k = ground (arith, take_pos n hi.unsent)

-- A call to which the line is open writes a byte at least, if there is any.
hydra_send_pos :
    (n : ℕ) (hi : HydraWriter)
    → 0 < n
    → All Holds hi.pktqueue
    → 0 < length (outstanding hi)
    → 0 < length (hydra_send n hi).0.1
unfolding hydra_send
hydra_send_pos n hi h holds any = write_out_pos n (filled hi) h (filled_pos hi holds any)

All-no_packets : (unsent : Bytes) → All Holds (buffer_queue unsent []).0.1
unfolding buffer_queue
All-no_packets unsent = tt

All-freed :
    (done : Bool) (queue : List HydraPkt) → All Holds queue → All Holds (if done then [] else queue)
All-freed true queue h = tt
All-freed false queue h = h

All-buffer_queue :
    (unsent : Bytes) (queue : List HydraPkt)
    → All Holds queue
    → All Holds (buffer_queue unsent queue).0.1
All-buffer_queue unsent [] h = All-no_packets unsent
All-buffer_queue unsent (pkt ∷ queue) h = elim (Bool-cases pkt.sent) [
  | inl e ↦ rw (round_sent unsent pkt queue e) (h.0, All-buffer_queue unsent queue h.1)
  | inr e ↦ elim (Option-cases (hydra_buffer_packet unsent pkt)) [
    | inl full ↦ rw (round_full unsent pkt queue e full) h
    | inr (more, room) ↦
        rw (round_room unsent pkt queue more e room) (h.0, All-buffer_queue more queue h.1)
  ]
]

All-filled_cases :
    (hi : HydraWriter) (unsent : Bytes)
    → All Holds hi.pktqueue
    → All Holds (filled_from hi unsent).pktqueue
All-filled_cases hi [] h =
    All-freed (buffer_queue [] hi.pktqueue).1 _ (All-buffer_queue [] hi.pktqueue h)
All-filled_cases hi (c ∷ rest) h = h

same_queue : (n : ℕ) (hi : HydraWriter) → (write_out n hi).0.0.pktqueue ≡ hi.pktqueue
unfolding write_out
same_queue n hi = ground arith

All-hydra_send :
    (n : ℕ) (hi : HydraWriter) → All Holds hi.pktqueue → All Holds (hydra_send n hi).0.0.pktqueue
unfolding hydra_send filled
All-hydra_send n hi h =
    subst (All Holds) (sym (same_queue n (filled hi))) (All-filled_cases hi hi.unsent h)

empty_bytes : (s : Bytes) → length s ≤ 0 → s ≡ []
empty_bytes [] h = refl
empty_bytes (c ∷ s) h = absurd (omega arith)

-- Calls of `hydra_send`, with what `tty_write` takes each time: the bytes written.
unfoldable pub send_all : List ℕ → HydraWriter → Bytes
send_all [] hi = []
send_all (n ∷ ns) hi = let ((hi', out), ok) = hydra_send n hi in out ++ send_all ns hi'

-- If each call writes a byte at least, then as many calls as there are bytes write the buffer and all
-- the packets of the queue, whole and in the order in which they were queued, however the bytes are
-- cut into writes. Packets that are too long for the buffer are excluded.
pub send_all-outstanding :
    (ns : List ℕ) (hi : HydraWriter)
    → All (λ n. 0 < n) ns
    → All Holds hi.pktqueue
    → length (outstanding hi) ≤ length ns
    → send_all ns hi ≡ outstanding hi
unfolding send_all
send_all-outstanding [] hi taken h enough = sym (empty_bytes (outstanding hi) enough)
send_all-outstanding (n ∷ ns) hi taken h enough =
    let hi' = (hydra_send n hi).0.0 in
    let out = (hydra_send n hi).0.1 in
    let split = outstanding-hydra_send n hi in
    let fewer : length (outstanding hi') ≤ length ns = ground (
      arith,
      hydra_send_pos n hi taken.0 h,
      ap length split,
      length-append {0} out (outstanding hi'),
    ) in
    ap (λ t. out ++ t) (send_all-outstanding ns hi' taken.1 (All-hydra_send n hi h) fewer) ∙ split
