-- ===== src/Hydra/RoundTrip/Sequence.antt =====
-- Packets that follow each other on the line (source/bforce/prot_hydra.c).
use binkleyforce.Base.{
  ℕ, zero, suc, ◌≤◌, ◌≡◌, refl, ap, ◌∙◌, arith, Bool, true, false, none, List, [], ◌∷◌, ◌++◌,
  if◌then◌else◌, Bytes, length, take, map, All, IsByte,
}
use binkleyforce.Hydra.{has_flag, hpkt_start, hpkt_devdack}
use binkleyforce.Hydra.Send.{choose_format, hydra_putpkt}
use binkleyforce.Hydra.Recv.{HydraReceiver, HydraPacket, hpkt, store, recv_byte, hydra_recv}
use binkleyforce.Hydra.Line.{recv_next}
use binkleyforce.Hydra.RoundTrip.Packet.{
  after_packet, line_end, max_size, sent_format, sent_bytes, recv_packet,
}
use binkleyforce.Hydra.RoundTrip.Checked.{take-with_crc}

-- A packet: its type and its data.
abbrev pub Packet : Type 0
Packet = ℕ × Bytes

-- Packets that the sender may give to `hydra_putpkt`.
abbrev pub IsPacket : ℕ → Packet → Type 0
IsPacket options p =
    All IsByte p.1
    × (hpkt_start ≤ p.0)
    × (p.0 ≤ hpkt_devdack)
    × (length p.1 ≤ max_size (choose_format options p.0))

-- Calls of `hydra_putpkt`, and calls of `hydra_recv`.
unfoldable pub put_packets : ℕ → ℕ → List Packet → Bytes
put_packets options lastchar [] = []
put_packets options lastchar ((pkttype, src) ∷ packets) =
    let (wire, last) = hydra_putpkt options lastchar src pkttype in
    wire ++ put_packets options last packets

abbrev pub heard : HydraReceiver → HydraPacket → HydraPacket × Bytes
heard hi packet = (packet, take hi.isize hi.ibuf)

unfoldable pub recv_packets : ℕ → Bytes → HydraReceiver → List (HydraPacket × Bytes)
recv_packets zero line hi = []
recv_packets (suc n) line hi =
    let ((hi', rest), packet) = hydra_recv line hi in heard hi' packet ∷ recv_packets n rest hi'

-- Between packets the end of a line leaves the receiver as it is.
recv_return :
    (hi : HydraReceiver) → hi.iencrcv ≡ false → hi.idlecnt ≡ 0 → recv_byte 13 hi ≡ (hi, none)
unfolding recv_byte store has_flag
recv_return hi off z = ground arith

recv_newline :
    (hi : HydraReceiver) → hi.iencrcv ≡ false → hi.idlecnt ≡ 0 → recv_byte 10 hi ≡ (hi, none)
unfolding recv_byte store has_flag
recv_newline hi off z = ground arith

recv-line_end :
    (test : Bool) (line : Bytes) (hi : HydraReceiver)
    → hi.iencrcv ≡ false
    → hi.idlecnt ≡ 0
    → hydra_recv ((if test then 13 ∷ 10 ∷ [] else []) ++ line) hi ≡ hydra_recv line hi
recv-line_end true line hi off z =
    recv_next 13 (10 ∷ line) hi hi (recv_return hi off z)
    ∙ recv_next 10 line hi hi (recv_newline hi off z)
recv-line_end false line hi off z = refl

-- What follows a packet is heard as if its line did not end.
abbrev heard_from : ℕ → (HydraReceiver × Bytes) × HydraPacket → List (HydraPacket × Bytes)
heard_from n r = heard r.0.0 r.1 ∷ recv_packets n r.0.1 r.0.0

recv_packets-line_end :
    (n : ℕ) (test : Bool) (line : Bytes) (hi : HydraReceiver)
    → hi.iencrcv ≡ false
    → hi.idlecnt ≡ 0
    → recv_packets n ((if test then 13 ∷ 10 ∷ [] else []) ++ line) hi ≡ recv_packets n line hi
unfolding recv_packets
recv_packets-line_end zero test line hi off z = refl
recv_packets-line_end (suc n) test line hi off z =
    ap (heard_from n) (recv-line_end test line hi off z)

-- From a receiver that is between packets and has the sender's options, calls of `hydra_recv` return
-- the packets that were put on the line, their types and their data, in order.
pub recv_packets-put_packets :
    (packets : List Packet) (lastchar : ℕ) (hi : HydraReceiver)
    → hi.idlecnt ≡ 0
    → All (IsPacket hi.rxoptions) packets
    → recv_packets (length packets) (put_packets hi.rxoptions lastchar packets) hi
      ≡ map (λ p. (hpkt p.0, p.1)) packets
unfolding recv_packets put_packets
recv_packets-put_packets [] lastchar hi z h = refl
recv_packets-put_packets ((pkttype, src) ∷ packets) lastchar hi z h =
    let last = (hydra_putpkt hi.rxoptions lastchar src pkttype).1 in
    let more = put_packets hi.rxoptions last packets in
    let n = length packets in
    let fmt = sent_format hi pkttype in
    let text = sent_bytes hi src pkttype in
    let hi' = after_packet hi fmt text (length src) in
    ap (heard_from n) (recv_packet hi lastchar src more pkttype z h.0.0 h.0.1 h.0.2 h.0.3)
    ∙ ap (λ t. (hpkt pkttype, t) ∷ recv_packets n (line_end fmt pkttype ++ more) hi')
        (take-with_crc hi.rxoptions fmt src pkttype)
    ∙ ap (λ t. (hpkt pkttype, src) ∷ t)
        (recv_packets-line_end n _ more hi' refl z
          ∙ recv_packets-put_packets packets last hi' z h.1)
