-- ===== src/Hydra/Line.antt =====
-- What the line carries: the receiver's bytes, some of them escaped.
pub mod Escapes
use binkleyforce.Base.{
  ℕ, zero, suc, ◌+◌, ◌-◌, ◌*◌, ◌/◌, ◌%◌, ◌^◌, ◌≤◌, ◌<◌, ◌≡◌, refl, sym, ap, ◌∙◌, arith, Bool, true,
  false, not, ◌&&◌, ◌||◌, Option, none, some, List, [], ◌∷◌, ◌++◌, ◌==◌, ==_iff, ltb, leb,
  if◌then◌else◌, Bytes, bit_and, bit_xor, length, drop, length-append, IsByte, All, All-append,
}
use mathlib.Core.List.{append_assoc, append-nil}
use binkleyforce.Base.Bits.{all_below, all_below_at, bit_and_ones, bit_xor_cancel}
use binkleyforce.Text.{tail, hexdigits}
use binkleyforce.Hydra.{
  hydra_dle, xon, xoff, hydra_buflen, hchr_pktend, format_char, has_flag, hopt_xonxoff,
  hopt_telenet, hopt_ctlchrs, hopt_highctl, hopt_highbit,
}
use binkleyforce.Hydra.Send.{
  control_part, must_escape, hydra_putbinbyte, put_bytes, hydra_puthexbyte,
}
use binkleyforce.Hydra.Recv.{
  HydraReceiver, HydraPacket, store, escaped, is_noise, recv_byte, hydra_recv,
}

-- A byte that passes the receiver's first tests, and one that may stand behind a DLE.
abbrev pub IsClean : ℕ → ℕ → Type 0
IsClean options c =
    (c < 256)
    × ((if has_flag options hopt_highbit then bit_and c 0x7f else c) ≡ c)
    × (is_noise options c ≡ false)
    × ((c == hydra_dle) ≡ false)

abbrev pub IsSafe : ℕ → ℕ → Type 0
IsSafe options x = IsClean options x × ((leb b'a' x && leb x b'e') ≡ false)

-- The line carries these bytes.
pub data Carries (options : ℕ) : Bytes → Bytes → Type 0 where
  nothing : Carries options [] []
  plainly :
      {wire raw : Bytes} (c : ℕ)
      → IsClean options c
      → Carries options wire raw
      → Carries options (c ∷ wire) (c ∷ raw)
  escaping :
      {wire raw : Bytes} (x : ℕ)
      → IsSafe options x
      → Carries options wire raw
      → Carries options (hydra_dle ∷ x ∷ wire) (bit_xor x 0x40 ∷ raw)

-- The receiver with more bytes of a packet.
abbrev pub fed : HydraReceiver → Bytes → HydraReceiver
fed hi raw = record hi { iencbuf = hi.iencbuf ++ raw; beyond = drop (length raw) hi.beyond }

-- A round of the loop, from what it did with the byte.
abbrev pub received :
    ℕ → Bytes → HydraReceiver × Option HydraPacket → (HydraReceiver × Bytes) × HydraPacket
received c line r = elim r.1 [ none ↦ hydra_recv line r.0 | some packet ↦ ((r.0, line), packet) ]

pub recv_next :
    (c : ℕ) (line : Bytes) (hi hi' : HydraReceiver)
    → recv_byte c hi ≡ (hi', none)
    → hydra_recv (c ∷ line) hi ≡ hydra_recv line hi'
unfolding hydra_recv
recv_next c line hi hi' e = ap (received c line) e

-- The state in which a packet is being received.
abbrev pub Receiving : ℕ → HydraReceiver → ℕ → Type 0
Receiving options hi more =
    (hi.rxoptions ≡ options)
    × (hi.iencrcv ≡ true)
    × (hi.idlecnt ≡ 0)
    × (length hi.iencbuf + more ≤ hydra_buflen)

drop_tail : (n : ℕ) (s : Bytes) → drop n (drop 1 s) ≡ drop (suc n) s
drop_tail zero [] = refl
drop_tail (suc n) [] = refl
drop_tail n (x ∷ s) = refl

drop_one : (s : Bytes) → drop 1 s ≡ tail s
drop_one [] = refl
drop_one (x ∷ s) = refl

store-fed :
    (c more options : ℕ) (hi : HydraReceiver)
    → Receiving options hi (suc more)
    → store c hi ≡ fed hi (c ∷ [])
unfolding store
store-fed c more options hi h = ground (arith, drop_one hi.beyond)

recv_clean :
    (options c more : ℕ) (hi : HydraReceiver)
    → Receiving options hi (suc more)
    → IsClean options c
    → recv_byte c hi ≡ (fed hi (c ∷ []), none)
unfolding recv_byte
recv_clean options c more hi h k = ground (arith, store-fed c more options hi h)

noise_dle : (options : ℕ) → is_noise options hydra_dle ≡ false
unfolding is_noise
noise_dle options = ground arith

-- A byte that is none of the five escapes.
other_byte :
    (x k : ℕ)
    → (leb b'a' x && leb x b'e') ≡ false
    → leb b'a' k ≡ true
    → leb k b'e' ≡ true
    → (x == k) ≡ false
other_byte x k h low high = ground arith

escaping_lem :
    (options x more : ℕ) (hi : HydraReceiver)
    → Receiving options hi (suc more)
    → IsSafe options x
    → escaped x hi ≡ (fed hi (bit_xor x 0x40 ∷ []), none)
unfolding escaped format_char
escaping_lem options x more hi h k =
    rw
      (
        other_byte x b'a' k.1 refl refl,
        other_byte x b'b' k.1 refl refl,
        other_byte x b'c' k.1 refl refl,
        other_byte x b'd' k.1 refl refl,
        other_byte x b'e' k.1 refl refl,
      )
      (ap (λ t. (t, none)) (store-fed (bit_xor x 0x40) more options hi h))

pub recv_dle :
    (options : ℕ) (hi : HydraReceiver)
    → hi.rxoptions ≡ options
    → hi.idlecnt ≡ 0
    → recv_byte hydra_dle hi ≡ (record hi { idlecnt = 1 }, none)
unfolding recv_byte has_flag
recv_dle options hi h z = ground (arith, noise_dle hi.rxoptions)

quiet-eq : (hi : HydraReceiver) → hi.idlecnt ≡ 0 → record hi { idlecnt = 0 } ≡ hi
quiet-eq hi z = ground arith

-- The byte behind a DLE.
pub recv_behind :
    (options x : ℕ) (hi : HydraReceiver)
    → hi.rxoptions ≡ options
    → hi.idlecnt ≡ 0
    → IsClean options x
    → recv_byte x (record hi { idlecnt = 1 }) ≡ escaped x hi
unfolding recv_byte
recv_behind options x hi h z k = ground (arith, ap (escaped x) (quiet-eq hi z))

-- Bytes that follow each other.
fed_twice :
    (c : ℕ) (raw : Bytes) (hi : HydraReceiver) → fed (fed hi (c ∷ [])) raw ≡ fed hi (c ∷ raw)
fed_twice c raw hi =
    ground (arith, append_assoc hi.iencbuf (c ∷ []) raw, drop_tail (length raw) hi.beyond)

fed_none : (hi : HydraReceiver) → fed hi [] ≡ hi
fed_none hi = ground (arith, append-nil hi.iencbuf)

fed-Receiving :
    (options c more : ℕ) (hi : HydraReceiver)
    → Receiving options hi (suc more)
    → Receiving options (fed hi (c ∷ [])) more
fed-Receiving options c more hi h =
    (h.0, h.1, h.2, omega (arith, length-append {0} hi.iencbuf (c ∷ []), h.3))

-- The receiver takes what the line carries.
pub recv-carried :
    (options : ℕ) (wire raw line : Bytes) (hi : HydraReceiver)
    → Carries options wire raw
    → Receiving options hi (length raw)
    → hydra_recv (wire ++ line) hi ≡ hydra_recv line (fed hi raw)
recv-carried options wire raw line hi nothing h = ap (hydra_recv line) (sym (fed_none hi))
recv-carried options wire raw line hi (plainly {wire = w} {raw = r} c clean rest) h =
    recv_next c (w ++ line) hi _ (recv_clean options c (length r) hi h clean)
    ∙ recv-carried options w r line (fed hi (c ∷ [])) rest (fed-Receiving options c (length r) hi h)
    ∙ ap (hydra_recv line) (fed_twice c r hi)
recv-carried options wire raw line hi (escaping {wire = w} {raw = r} x safe rest) h =
    let c = bit_xor x 0x40 in
    recv_next hydra_dle (x ∷ w ++ line) hi _ (recv_dle options hi h.0 h.2)
    ∙ recv_next x (w ++ line) (record hi { idlecnt = 1 }) _
        (recv_behind options x hi h.0 h.2 safe.0 ∙ escaping_lem options x (length r) hi h safe)
    ∙ recv-carried options w r line (fed hi (c ∷ [])) rest (fed-Receiving options c (length r) hi h)
    ∙ ap (hydra_recv line) (fed_twice c r hi)
