-- ===== src/Hydra/Tests.antt =====
-- Runs of the packets of Hydra, and instances of the theorems (source/bforce/prot_hydra.c).
use binkleyforce.Base.{
  ℕ, zero, suc, ◌≤◌, ◌<◌, ◌≡◌, refl, arith, length, length-append, false, some, List, [], ◌∷◌, ◌++◌,
  Bytes, map, All, IsByte,
}
use binkleyforce.Hydra.{
  hchr_binpkt, hchr_uuepkt, hpkt_init, hpkt_data, hydra_buflen, hydra_putflags, hydra_getflags,
}
use binkleyforce.Hydra.Send.{choose_format, hydra_putpkt}
use binkleyforce.Hydra.Recv.{HydraReceiver, hpkt, hpkt_none, hydra_recv}
use binkleyforce.Hydra.Flags.{hydra_getflags-hydra_putflags}
use binkleyforce.Hydra.Queue.{HydraWriter}
use binkleyforce.Hydra.Queue.Progress.{send_all}
use binkleyforce.Hydra.Queue.Room.{length-hydra_putpkt}
use binkleyforce.Hydra.Queue.Delivery.{idle_writer, queue_packets, recv_packets-queue_packets}
use binkleyforce.Hydra.RoundTrip.Packet.{recv_packet-refused}
use binkleyforce.Hydra.RoundTrip.Sequence.{Packet, put_packets, recv_packets}

abbrev fresh : ℕ → HydraReceiver
fresh options = record {
  rxoptions = options;
  idlecnt = 0;
  iencrcv = false;
  iencfmt = hchr_binpkt;
  iencbuf = [];
  beyond = [];
  ibuf = [];
  isize = 0;
}

abbrev two_packets : List Packet
two_packets =
    (hpkt_init, b'%' ∷ b'\\' ∷ 200 ∷ 24 ∷ []) ∷ (hpkt_data, 0 ∷ 24 ∷ 64 ∷ 13 ∷ 255 ∷ []) ∷ []

abbrev repeated : ℕ → Bytes
repeated zero = []
repeated (suc n) = 7 ∷ repeated n

hydra_getflags-hydra_putflags_run : hydra_getflags (hydra_putflags 0x115 256) ≡ 0x115
hydra_getflags-hydra_putflags_run = hydra_getflags-hydra_putflags 0x115 (omega arith)

repeated_bytes : (n : ℕ) → All IsByte (repeated n)
repeated_bytes zero = tt
repeated_bytes (suc n) = (omega arith, repeated_bytes n)

uue_chosen : choose_format 0x94 hpkt_data ≡ hchr_uuepkt
unfolding choose_format
uue_chosen = refl

-- Two packets are queued, and the line takes a byte each time.
abbrev ones : ℕ → List ℕ
ones zero = []
ones (suc n) = 1 ∷ ones n

length-ones : (n : ℕ) → length (ones n) ≡ n
length-ones zero = refl
length-ones (suc n) = omega (arith, length-ones n)

ones_pos : (n : ℕ) → All (λ k. 0 < k) (ones n)
ones_pos zero = tt
ones_pos (suc n) = (omega arith, ones_pos n)

two_packets-length : length (put_packets 0x114 256 two_packets) ≤ 12398
unfolding put_packets
two_packets-length =
    let first = hydra_putpkt 0x114 256 (b'%' ∷ b'\\' ∷ 200 ∷ 24 ∷ []) hpkt_init in
    let second = hydra_putpkt 0x114 first.1 (0 ∷ 24 ∷ 64 ∷ 13 ∷ 255 ∷ []) hpkt_data in
    omega (
      arith,
      length-append {0} first.0 (second.0 ++ []),
      length-append {0} second.0 [],
      length-hydra_putpkt 0x114 256 (b'%' ∷ b'\\' ∷ 200 ∷ 24 ∷ []) hpkt_init (omega arith),
      length-hydra_putpkt 0x114 first.1 (0 ∷ 24 ∷ 64 ∷ 13 ∷ 255 ∷ []) hpkt_data (omega arith),
    )

recv_packets-queue_packets_example :
    (writer : HydraWriter) × (queue_packets (idle_writer 0x114 256) two_packets ≡ some writer)
    × (recv_packets 2 (send_all (ones 12398) writer) (fresh 0x114)
        ≡ map (λ p. (hpkt p.0, p.1)) two_packets)
unfolding choose_format
recv_packets-queue_packets_example =
    recv_packets-queue_packets two_packets 256 (ones 12398) (fresh 0x114) refl (omega arith)
      (omega arith) (ones_pos 12398) (omega (arith, two_packets-length, length-ones 12398))

length-hydra_putpkt_example :
    length (hydra_putpkt 0x94 256 (repeated 2000) hpkt_data).0 ≤ hydra_buflen
length-hydra_putpkt_example = length-hydra_putpkt 0x94 256 (repeated 2000) hpkt_data (omega arith)

-- HOPT_HIGHBIT, HOPT_CTLCHRS and HOPT_CANUUE.
abbrev seven_bits : ℕ
seven_bits = 0x94

recv_packet-refused_example :
    (hydra_recv
      ((hydra_putpkt seven_bits 256 (repeated 2000) hpkt_data).0 ++ [])
      (fresh seven_bits)).1
    ≡ hpkt_none
recv_packet-refused_example =
    recv_packet-refused (fresh seven_bits) 256 (repeated 2000) [] hpkt_data refl
      (repeated_bytes 2000) (omega arith) uue_chosen (omega arith) (omega arith)
