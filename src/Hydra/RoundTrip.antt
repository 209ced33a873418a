-- ===== src/Hydra/RoundTrip.antt =====
-- A packet is received as it was sent (`hydra_putpkt` and `hydra_recv` of
-- source/bforce/prot_hydra.c): Formats is about its text, Checked about its checksum, Packet about
-- the whole, Sequence about packets that follow each other.
pub mod Formats
pub mod Checked
pub mod Packet
pub mod Sequence
