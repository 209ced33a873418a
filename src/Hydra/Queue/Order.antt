-- ===== src/Hydra/Queue/Order.antt =====
-- Packets leave the queue whole and in order (source/bforce/prot_hydra.c).
use binkleyforce.Base.{
  ℕ, zero, suc, ◌≡◌, refl, sym, ap, ◌∙◌, arith, Bool, true, false, inl, inr, none, some, List, [],
  ◌∷◌, ◌++◌, if◌then◌else◌, Bool-cases, Option-cases, Bytes, drop, take,
}
use mathlib.Core.Path.{ap₂}
use mathlib.Core.List.{append_assoc, append-nil}
use binkleyforce.Hydra.Queue.{
  HydraPkt, HydraWriter, hydra_buffer_packet, buffered, behind, send_round, buffer_queue,
  filled_from, filled, write_out, hydra_send,
}

-- The bytes of the packets that wait.
abbrev pub bytes_of : HydraPkt → Bytes
bytes_of pkt = elim pkt.packet [ none ↦ [] | some bytes ↦ bytes ]

abbrev pub waiting : List HydraPkt → Bytes
waiting [] = []
waiting (pkt ∷ queue) = (if pkt.sent then [] else bytes_of pkt) ++ waiting queue

-- All that is to be written.
abbrev pub outstanding : HydraWriter → Bytes
outstanding hi = hi.unsent ++ waiting hi.pktqueue

pub buffer_packet_bytes :
    (unsent : Bytes) (pkt : HydraPkt) (more : Bytes)
    → hydra_buffer_packet unsent pkt ≡ some more
    → more ≡ unsent ++ bytes_of pkt
unfolding hydra_buffer_packet
buffer_packet_bytes unsent pkt more e = ground (arith, append-nil unsent)

-- A step of the loop moves bytes from the queue to the buffer, and leaves none if it comes to its
-- end.
abbrev Moves : Bytes → List HydraPkt → (Bytes × List HydraPkt) × Bool → Type 0
Moves unsent queue r =
    (r.0.0 ++ waiting r.0.1 ≡ unsent ++ waiting queue) × (r.1 ≡ true → waiting r.0.1 ≡ [])

Moves-sent :
    (pkt : HydraPkt) (unsent : Bytes) (queue : List HydraPkt) (r : (Bytes × List HydraPkt) × Bool)
    → pkt.sent ≡ true
    → Moves unsent queue r
    → Moves unsent (pkt ∷ queue) (behind pkt r)
Moves-sent pkt unsent queue r e h = rw e h

Moves-buffered :
    (pkt : HydraPkt) (unsent more : Bytes) (queue : List HydraPkt)
    (r : (Bytes × List HydraPkt) × Bool)
    → pkt.sent ≡ false
    → more ≡ unsent ++ bytes_of pkt
    → Moves more queue r
    → Moves unsent (pkt ∷ queue) (behind (buffered pkt) r)
Moves-buffered pkt unsent more queue r e same h = (
  h.0
      ∙ ap (λ t. t ++ waiting queue) same
      ∙ append_assoc unsent (bytes_of pkt) (waiting queue)
      ∙ ap (λ (t : Bool). unsent ++ ((if t then [] else bytes_of pkt) ++ waiting queue)) (sym e),
  h.1,
)

-- The three kinds of round.
module _ (unsent : Bytes) (pkt : HydraPkt) (queue : List HydraPkt) where
  pub round_sent :
      pkt.sent ≡ true → buffer_queue unsent (pkt ∷ queue) ≡ behind pkt (buffer_queue unsent queue)
  unfolding buffer_queue
  round_sent e =
      ap
        (λ t.
          send_round unsent pkt queue (λ u. buffer_queue u queue) t
            (hydra_buffer_packet unsent pkt))
        e

  pub round_full :
      pkt.sent ≡ false
      → hydra_buffer_packet unsent pkt ≡ none
      → buffer_queue unsent (pkt ∷ queue) ≡ ((unsent, pkt ∷ queue), false)
  unfolding buffer_queue
  round_full e full = ap₂ (send_round unsent pkt queue (λ u. buffer_queue u queue)) e full

  pub round_room :
      (more : Bytes)
      → pkt.sent ≡ false
      → hydra_buffer_packet unsent pkt ≡ some more
      → buffer_queue unsent (pkt ∷ queue) ≡ behind (buffered pkt) (buffer_queue more queue)
  unfolding buffer_queue
  round_room more e room = ap₂ (send_round unsent pkt queue (λ u. buffer_queue u queue)) e room

Moves-nothing : (unsent : Bytes) → Moves unsent [] (buffer_queue unsent [])
unfolding buffer_queue
Moves-nothing unsent = (refl, λ e. refl)

buffer_queue-Moves :
    (unsent : Bytes) (queue : List HydraPkt) → Moves unsent queue (buffer_queue unsent queue)
buffer_queue-Moves unsent [] = Moves-nothing unsent
buffer_queue-Moves unsent (pkt ∷ queue) =
    let ih = λ (t : Bytes). buffer_queue-Moves t queue in
    elim (Bool-cases pkt.sent) [
      | inl e ↦
          rw (round_sent unsent pkt queue e)
            (Moves-sent pkt unsent queue (buffer_queue unsent queue) e (ih unsent))
      | inr e ↦ elim (Option-cases (hydra_buffer_packet unsent pkt)) [
        | inl full ↦ rw (round_full unsent pkt queue e full) (refl, λ f. cc)
        | inr (more, room) ↦ rw (round_room unsent pkt queue more e room) (
            Moves-buffered pkt unsent more queue (buffer_queue more queue) e
              (buffer_packet_bytes unsent pkt more room) (ih more))
      ]
    ]

freed_queue :
    (done : Bool) (queue : List HydraPkt)
    → (done ≡ true → waiting queue ≡ [])
    → waiting (if done then [] else queue) ≡ waiting queue
freed_queue true queue h = sym (h refl)
freed_queue false queue h = refl

filled_cases :
    (hi : HydraWriter) (unsent : Bytes)
    → hi.unsent ≡ unsent
    → outstanding (filled_from hi unsent) ≡ unsent ++ waiting hi.pktqueue
filled_cases hi [] e =
    let moved = buffer_queue-Moves [] hi.pktqueue in
    let r = buffer_queue [] hi.pktqueue in
    ap (λ t. r.0.0 ++ t) (freed_queue r.1 r.0.1 moved.1) ∙ moved.0
filled_cases hi (c ∷ rest) e = ap (λ t. t ++ waiting hi.pktqueue) e

take-drop : (n : ℕ) (s : Bytes) → take n s ++ drop n s ≡ s
take-drop zero s = refl
take-drop (suc n) [] = refl
take-drop (suc n) (c ∷ s) = ap (λ t. c ∷ t) (take-drop n s)

-- Filling the buffer keeps what is to be written.
pub outstanding-filled : (hi : HydraWriter) → outstanding (filled hi) ≡ outstanding hi
unfolding filled
outstanding-filled hi = filled_cases hi hi.unsent refl

-- A write takes bytes from the front.
pub outstanding-write_out :
    (n : ℕ) (hi : HydraWriter)
    → (write_out n hi).0.1 ++ outstanding (write_out n hi).0.0 ≡ outstanding hi
unfolding write_out
outstanding-write_out n hi = ground (
  arith,
  append_assoc (take n hi.unsent) (drop n hi.unsent) (waiting hi.pktqueue),
  take-drop n hi.unsent,
)

pub outstanding-hydra_send :
    (n : ℕ) (hi : HydraWriter)
    → (hydra_send n hi).0.1 ++ outstanding (hydra_send n hi).0.0 ≡ outstanding hi
unfolding hydra_send
outstanding-hydra_send n hi = outstanding-write_out n (filled hi) ∙ outstanding-filled hi
