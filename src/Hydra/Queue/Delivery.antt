-- ===== src/Hydra/Queue/Delivery.antt =====
-- From the queue of one side to the other side (source/bforce/prot_hydra.c).
use native.Mathlib.Nat.{le_trans}
use binkleyforce.Base.{
  ℕ, ◌≤◌, ◌<◌, ◌≡◌, refl, sym, ap, ◌∙◌, arith, List, [], ◌∷◌, ◌++◌, Bytes, length, map, All,
  All-append, Option, none, some, false, if◌then◌else◌,
}
use mathlib.Core.List.{append_assoc, append-nil}
use binkleyforce.Hydra.{
  hydra_maxblklen, HydraFormat, hchr_binpkt, hchr_hexpkt, hchr_ascpkt, hchr_uuepkt,
}
use binkleyforce.Hydra.Send.{hydra_putpkt, choose_format}
use binkleyforce.Hydra.Recv.{HydraReceiver, hpkt}
use binkleyforce.Hydra.Queue.{HydraPkt, HydraWriter, with_packet, hydra_queuepkt}
use binkleyforce.Hydra.Queue.Order.{bytes_of, waiting, outstanding}
use binkleyforce.Hydra.Queue.Progress.{Holds, send_all, send_all-outstanding}
use binkleyforce.Hydra.Queue.Room.{length-hydra_putpkt, hydra_queuepkt-some}
use binkleyforce.Hydra.RoundTrip.Packet.{max_size}
use binkleyforce.Hydra.RoundTrip.Sequence.{
  Packet, IsPacket, put_packets, recv_packets, recv_packets-put_packets,
}

-- Calls of `hydra_queuepkt`, `none` where the program ends.
unfoldable pub queue_packets : HydraWriter → List Packet → Option HydraWriter
queue_packets hi [] = some hi
queue_packets hi ((pkttype, src) ∷ packets) = elim (hydra_queuepkt hi src pkttype) [
  | none ↦ none
  | some hi' ↦ queue_packets hi' packets
]

-- The queue behind them.
all_packets : HydraWriter → List Packet → HydraWriter
all_packets hi [] = hi
all_packets hi ((pkttype, src) ∷ packets) = all_packets (with_packet hi src pkttype) packets

waiting-append : (a b : List HydraPkt) → waiting (a ++ b) ≡ waiting a ++ waiting b
waiting-append [] b = refl
waiting-append (pkt ∷ a) b =
    let own : Bytes = if pkt.sent then [] else bytes_of pkt in
    ap (λ t. own ++ t) (waiting-append a b) ∙ sym (append_assoc own (waiting a) (waiting b))

outstanding-with_packet :
    (hi : HydraWriter) (src : Bytes) (pkttype : ℕ)
    → outstanding (with_packet hi src pkttype)
      ≡ outstanding hi ++ (hydra_putpkt hi.txoptions hi.lastchar src pkttype).0
unfolding with_packet
outstanding-with_packet hi src pkttype =
    let packet = (hydra_putpkt hi.txoptions hi.lastchar src pkttype).0 in
    let entry : HydraPkt = record {
      sent = false;
      pkttype = pkttype;
      packet = some packet;
      size = length packet;
    } in
    ap (λ t. hi.unsent ++ t) (waiting-append hi.pktqueue (entry ∷ []))
    ∙ ap (λ t. hi.unsent ++ (waiting hi.pktqueue ++ t)) (append-nil packet)
    ∙ sym (append_assoc hi.unsent (waiting hi.pktqueue) packet)

outstanding-all_packets :
    (hi : HydraWriter) (packets : List Packet)
    → outstanding (all_packets hi packets)
      ≡ outstanding hi ++ put_packets hi.txoptions hi.lastchar packets
unfolding all_packets put_packets with_packet
outstanding-all_packets hi [] = sym (append-nil (outstanding hi))
outstanding-all_packets hi ((pkttype, src) ∷ packets) =
    let packet = hydra_putpkt hi.txoptions hi.lastchar src pkttype in
    let rest = put_packets hi.txoptions packet.1 packets in
    outstanding-all_packets (with_packet hi src pkttype) packets
    ∙ ap (λ t. t ++ rest) (outstanding-with_packet hi src pkttype)
    ∙ append_assoc (outstanding hi) packet.0 rest

max_size-le : (format : HydraFormat) → max_size format ≤ 2056
max_size-le hchr_binpkt = omega arith
max_size-le hchr_hexpkt = omega arith
max_size-le hchr_ascpkt = omega arith
max_size-le hchr_uuepkt = omega arith

All-all_packets :
    (options : ℕ) (hi : HydraWriter) (packets : List Packet)
    → All (IsPacket options) packets
    → All Holds hi.pktqueue
    → All Holds (all_packets hi packets).pktqueue
unfolding all_packets with_packet
All-all_packets options hi [] h k = k
All-all_packets options hi ((pkttype, src) ∷ packets) h k =
    let small : length src ≤ 2056 = le_trans h.0.3 (max_size-le (choose_format options pkttype)) in
    let packet = (hydra_putpkt hi.txoptions hi.lastchar src pkttype).0 in
    All-all_packets options (with_packet hi src pkttype) packets h.1 (
      All-append Holds hi.pktqueue _ k
        (length-hydra_putpkt hi.txoptions hi.lastchar src pkttype small, tt))

-- A writer with nothing to write.
abbrev pub idle_writer : ℕ → ℕ → HydraWriter
idle_writer options lastchar = record {
  txoptions = options;
  lastchar = lastchar;
  unsent = [];
  pktqueue = [];
}

-- The data that `hydra_queuepkt` takes.
abbrev pub IsShort : Packet → Type 0
IsShort p = length p.1 ≤ hydra_maxblklen

queue_packets-some :
    (hi : HydraWriter) (packets : List Packet)
    → All IsShort packets
    → queue_packets hi packets ≡ some (all_packets hi packets)
unfolding queue_packets all_packets
queue_packets-some hi [] h = refl
queue_packets-some hi ((pkttype, src) ∷ packets) h =
    rw (hydra_queuepkt-some hi src pkttype h.0, queue_packets)
      (queue_packets-some (with_packet hi src pkttype) packets h.1)

-- Packets of the types from HPKT_START to HPKT_DEVDACK, each with up to 2048 bytes of data, or with
-- up to 1539 where it is written in printable characters (UUE), are queued by one side and reach the
-- other side, which has the same options and is between packets: their types and their data are
-- received in order, however the line cuts the bytes, as long as it takes one at least each time and
-- is asked once for each byte.
pub recv_packets-queue_packets :
    (packets : List Packet) (lastchar : ℕ) (ns : List ℕ) (hi : HydraReceiver)
    → hi.idlecnt ≡ 0
    → All (IsPacket hi.rxoptions) packets
    → All IsShort packets
    → All (λ n. 0 < n) ns
    → length (put_packets hi.rxoptions lastchar packets) ≤ length ns
    → (writer : HydraWriter) × (queue_packets (idle_writer hi.rxoptions lastchar) packets
        ≡ some writer)
      × (recv_packets (length packets) (send_all ns writer) hi ≡ map (λ p. (hpkt p.0, p.1)) packets)
recv_packets-queue_packets packets lastchar ns hi z h short taken enough =
    let idle = idle_writer hi.rxoptions lastchar in
    let queued = outstanding-all_packets idle packets in
    (
      all_packets idle packets,
      queue_packets-some idle packets short,
      ap (λ t. recv_packets (length packets) t hi)
            (send_all-outstanding ns (all_packets idle packets) taken
                (All-all_packets hi.rxoptions idle packets h tt) (omega (arith, ap length queued))
              ∙ queued)
          ∙ recv_packets-put_packets packets lastchar hi z h,
    )
