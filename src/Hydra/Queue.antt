-- ===== src/Hydra/Queue.antt =====
-- The packets that wait to be written (`hydra_queuepkt`, `hydra_buffer_packet` and `hydra_send` of
-- source/bforce/prot_hydra.c).
pub mod Order
pub mod Progress
pub mod Room
pub mod Delivery
use binkleyforce.Base.{
  ℕ, zero, suc, ◌+◌, ◌*◌, ◌≤◌, Bool, true, false, not, ◌&&◌, ◌||◌, Option, none, some, List, [],
  ◌∷◌, ◌++◌, ◌==◌, ltb, leb, if◌then◌else◌, Bytes, length, drop, take,
}
use binkleyforce.Hydra.{hydra_buflen, hydra_maxblklen, hydra_overhead}
use binkleyforce.Hydra.Send.{hydra_putpkt}

-- `s_hydrapkt`; the bytes are given up once the packet is in the buffer.
pub record HydraPkt : Type 0 where
  pub sent : Bool
  pub pkttype : ℕ
  pub packet : Option Bytes
  pub size : ℕ

-- What `s_hydrainfo` keeps for the writer. `unsent` is the buffer from `oencptr` on, `oencpos` bytes.
pub record HydraWriter : Type 0 where
  pub txoptions : ℕ
  pub lastchar : ℕ
  pub unsent : Bytes
  pub pktqueue : List HydraPkt

-- The queue with a packet more.
unfoldable pub with_packet : HydraWriter → Bytes → ℕ → HydraWriter
with_packet hi src pkttype =
    let (packet, last) = hydra_putpkt hi.txoptions hi.lastchar src pkttype in
    let entry : HydraPkt = record {
      sent = false;
      pkttype = pkttype;
      packet = some packet;
      size = length packet;
    } in
    record hi { lastchar = last; pktqueue = hi.pktqueue ++ (entry ∷ []) }

-- The buffer that the packet is made in.
abbrev pub packet_room : Bytes → ℕ
packet_room [] = hydra_overhead * 3
packet_room (c ∷ src) = hydra_buflen

-- `none` where an ASSERT ends the program: on the size of the data, or on that of the packet.
unfoldable pub hydra_queuepkt : HydraWriter → Bytes → ℕ → Option HydraWriter
unfolding with_packet
hydra_queuepkt hi src pkttype =
    let packet = (hydra_putpkt hi.txoptions hi.lastchar src pkttype).0 in
    if ltb hydra_maxblklen (length src)
    then none
    else if ltb (packet_room src) (length packet)
    then none
    else some (with_packet hi src pkttype)

-- The buffer with the packet, or `none` if it has no room.
unfoldable pub hydra_buffer_packet : Bytes → HydraPkt → Option Bytes
hydra_buffer_packet unsent pkt =
    if ltb hydra_buflen (length unsent + pkt.size)
    then none
    else elim pkt.packet [ none ↦ some unsent | some bytes ↦ some (unsent ++ bytes) ]

abbrev pub buffered : HydraPkt → HydraPkt
buffered pkt = record pkt { sent = true; packet = none }

-- A packet in front of what the loop made of the others.
abbrev pub behind : HydraPkt → (Bytes × List HydraPkt) × Bool → (Bytes × List HydraPkt) × Bool
behind pkt r = ((r.0.0, pkt ∷ r.0.1), r.1)

-- A round of the loop, from the flag of the packet, the buffer with it, and the other rounds.
abbrev pub send_round :
    Bytes
    → HydraPkt
    → List HydraPkt
    → (Bytes → (Bytes × List HydraPkt) × Bool)
    → Bool
    → Option Bytes
    → (Bytes × List HydraPkt) × Bool
send_round unsent pkt queue rest true room = behind pkt (rest unsent)
send_round unsent pkt queue rest false none = ((unsent, pkt ∷ queue), false)
send_round unsent pkt queue rest false (some more) = behind (buffered pkt) (rest more)

-- The loop of `hydra_send`: the buffer, the queue, and whether the loop came to its end.
unfoldable pub buffer_queue : Bytes → List HydraPkt → (Bytes × List HydraPkt) × Bool
buffer_queue unsent [] = ((unsent, []), true)
buffer_queue unsent (pkt ∷ queue) =
    send_round unsent pkt queue (λ t. buffer_queue t queue) pkt.sent
      (hydra_buffer_packet unsent pkt)

-- An empty buffer is filled from the queue, and a queue that is done with is freed.
abbrev pub refill : HydraWriter → (Bytes × List HydraPkt) × Bool → HydraWriter
refill hi r = record hi { unsent = r.0.0; pktqueue = if r.1 then [] else r.0.1 }

abbrev pub filled_from : HydraWriter → Bytes → HydraWriter
filled_from hi [] = refill hi (buffer_queue [] hi.pktqueue)
filled_from hi (c ∷ rest) = hi

unfoldable pub filled : HydraWriter → HydraWriter
unfolding buffer_queue
filled hi = filled_from hi hi.unsent

-- `tty_write` takes `n` bytes at most, none for an error. The bytes written, and whether the call
-- succeeds.
unfoldable pub write_out : ℕ → HydraWriter → (HydraWriter × Bytes) × Bool
write_out n hi =
    if length hi.unsent == 0
    then ((hi, []), true)
    else if n == 0
    then ((hi, []), false)
    else ((record hi { unsent = drop n hi.unsent }, take n hi.unsent), true)

unfoldable pub hydra_send : ℕ → HydraWriter → (HydraWriter × Bytes) × Bool
unfolding filled write_out
hydra_send n hi = write_out n (filled hi)
