-- ===== src/Hydra/Outgoing/Honest.antt =====
-- What is sent of a file is the file's (source/bforce/prot_hydra.c).
use mathlib.Core.Path.{subst, ap₂}
use binkleyforce.Base.{
  ℕ, zero, suc, ◌-◌, ◌^◌, ◌<◌, ◌≡◌, refl, sym, ap, ◌∙◌, arith, Bool, inl, inr, Bool-cases, ltb,
  if◌then◌else◌, Option, none, some, [], ◌∷◌, ◌++◌, Bytes, length, length-append, take, drop,
}
use binkleyforce.Base.Int.{pos}
use binkleyforce.Hydra.{hydra_putlong, hydra_getlong}
use binkleyforce.Hydra.Reception.{read_long}
use binkleyforce.Hydra.Incoming.Offsets.{hydra_getlong-hydra_putlong}
use binkleyforce.Hydra.Incoming.Front.{IsHonest}
use binkleyforce.Hydra.Outgoing.{
  Outgoing, to_eof, ReadDisk, p_tx_readfile, block_packet, read_block, tx_data,
}

-- A packet of the bytes at a position.
front_offset : (n : ℕ) (bytes : Bytes) → n < 2 ^ 32 → hydra_getlong (hydra_putlong n ++ bytes) ≡ n
unfolding hydra_getlong hydra_putlong
front_offset n bytes h = hydra_getlong-hydra_putlong n h

-- What `p_tx_readfile` gives stands in the file where the sender counts.
read_bytes :
    (disk : ReadDisk) (buflen : ℕ) (st : Outgoing) (bytes : Bytes)
    → (p_tx_readfile disk buflen st).1 ≡ some bytes
    → (bytes ≡ take buflen (drop st.bytes_sent st.file))
      × ((p_tx_readfile disk buflen st).0.bytes_sent ≡ st.bytes_sent)
unfolding p_tx_readfile
read_bytes disk buflen st bytes e =
    let there : st.bytes_sent ≡ st.ftell_pos = ground arith in
    let read : bytes ≡ take buflen (drop st.ftell_pos st.file) = ground arith in
    (read ∙ ap (λ t. take buflen (drop t st.file)) (sym there), ground arith)

front_of_front : (k : ℕ) (s : Bytes) → take k s ≡ take (length (take k s)) s
front_of_front zero s = refl
front_of_front (suc k) [] = refl
front_of_front (suc k) (c ∷ s) = ap (λ t. c ∷ t) (front_of_front k s)

take-append : (s rest : Bytes) → take (length s) (s ++ rest) ≡ s
take-append [] rest = refl
take-append (c ∷ s) rest = ap (λ t. c ∷ t) (take-append s rest)

pos_inj : (a b : ℕ) → pos a ≡ pos b → a ≡ b
pos_inj a b e = cc

read_front :
    (long32 : Bool) (n : ℕ) (bytes : Bytes)
    → n < 2 ^ 31
    → read_long long32 (hydra_putlong n ++ bytes) ≡ pos n
unfolding read_long
read_front long32 n bytes h =
    let plain = front_offset n bytes (omega arith) in rw plain (ground arith)

four_less : (k : ℕ) → k ≡ suc (suc (suc (suc k))) - 4
four_less k = omega arith

-- A packet of a block of the file, with what the packet ends in behind it.
block-IsHonest :
    (long32 : Bool) (source bytes rest : Bytes) (n buflen : ℕ)
    → n < 2 ^ 31
    → bytes ≡ take buflen (drop n source)
    → IsHonest long32 source
        ((hydra_putlong n ++ bytes) ++ rest)
        (length (hydra_putlong n ++ bytes))
unfolding hydra_putlong
block-IsHonest long32 source bytes rest n buflen h front = (
  omega (arith, length-append {0} (hydra_putlong n ++ bytes) rest),
  λ m e.
      let here : n ≡ m = pos_inj n m (sym (read_front long32 n (bytes ++ rest) h) ∙ e) in
      ap (drop 4) (take-append (hydra_putlong n ++ bytes) rest)
      ∙ front
      ∙ front_of_front buflen (drop n source)
      ∙ ap (λ t. take (length t) (drop n source)) (sym front)
      ∙ ap₂ (λ k t. take k (drop t source)) (four_less (length bytes)) here,
)

nothing_read : (packet : Bytes) → none ≡ some packet → ⊥
nothing_read packet e = cc

placed :
    (long32 : Bool) (n : ℕ) (bytes rest : Bytes)
    → n < 2 ^ 31
    → read_long long32 ((hydra_putlong n ++ bytes) ++ rest) ≡ pos n
unfolding hydra_putlong
placed long32 n bytes rest h = read_front long32 n (bytes ++ rest) h

sent_block :
    (now : ℕ) (bytes packet : Bytes) (st : Outgoing)
    → (block_packet now bytes st).1 ≡ some packet
    → packet ≡ hydra_putlong st.bytes_sent ++ bytes
unfolding block_packet
sent_block now bytes packet st e = cc

sent_read :
    (now : ℕ) (r : Outgoing × Option Bytes) (packet : Bytes)
    → (read_block now r).1 ≡ some packet
    → (bytes : Bytes) × (r.1 ≡ some bytes) × (packet ≡ hydra_putlong r.0.bytes_sent ++ bytes)
unfolding read_block
sent_read now (st, none) packet e = absurd (nothing_read packet e)
sent_read now (st, some bytes) packet e = elim (Bool-cases (ltb 0 (length bytes))) [
  | inl full ↦ (
    bytes,
    refl,
    sent_block now bytes packet st (
        sym (ap (λ (t : Bool). (if t then block_packet now bytes st else (to_eof st, none)).1) full)
        ∙ e),
  )
  | inr empty ↦ absurd (
      nothing_read packet (
        sym
          (ap (λ (t : Bool). (if t then block_packet now bytes st else (to_eof st, none)).1) empty)
        ∙ e))
]

sent_data :
    (now : ℕ) (disk : ReadDisk) (free : Bool) (st : Outgoing) (packet : Bytes)
    → (tx_data now disk free st).1 ≡ some packet
    → (read_block now (p_tx_readfile disk st.send_block_size (record st { sendtimer = 0 }))).1
      ≡ some packet
unfolding tx_data
sent_data now disk free st packet e = ground arith

-- A DATA packet that the sender makes of a file at a position below 2 ^ 31, to which restarts and
-- repeats may have brought it, and whatever the disk answers, is one that the receiver takes for
-- honest: its data are the file's bytes at the offset that it names, which is that position, and the
-- receiver finds them whatever stands behind them.
pub tx_data-IsHonest :
    (long32 : Bool) (now : ℕ) (disk : ReadDisk) (free : Bool) (st : Outgoing) (packet rest : Bytes)
    → st.bytes_sent < 2 ^ 31
    → (tx_data now disk free st).1 ≡ some packet
    → IsHonest long32 st.file (packet ++ rest) (length packet)
      × (read_long long32 (packet ++ rest) ≡ pos st.bytes_sent)
tx_data-IsHonest long32 now disk free st packet rest h e =
    let stopped = record st { sendtimer = 0 } in
    let read = p_tx_readfile disk st.send_block_size stopped in
    let found = sent_read now read packet (sent_data now disk free st packet e) in
    let facts = read_bytes disk st.send_block_size stopped found.0 found.1 in
    let whole : packet ≡ hydra_putlong st.bytes_sent ++ found.0 =
      found.2 ∙ ap (λ t. hydra_putlong t ++ found.0) facts.1 in
    subst
      (λ (t : Bytes).
        IsHonest long32 st.file (t ++ rest) (length t)
        × (read_long long32 (t ++ rest) ≡ pos st.bytes_sent))
      (sym whole)
      (
        block-IsHonest long32 st.file found.0 rest st.bytes_sent st.send_block_size h facts.0,
        placed long32 st.bytes_sent found.0 rest h,
      )
