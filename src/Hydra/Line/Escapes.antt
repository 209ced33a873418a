-- ===== src/Hydra/Line/Escapes.antt =====
-- The bytes that are written plain or escaped, on the line (`hydra_putbinbyte` of
-- source/bforce/prot_hydra.c).
use mathlib.Core.Path.{subst}
use binkleyforce.Base.{
  ℕ, ◌≤◌, ◌<◌, ◌≡◌, refl, ap, arith, Bool, true, false, not, ◌&&◌, ◌||◌, inl, inr, [], ◌∷◌, ◌++◌,
  ◌==◌, ==_iff, ltb, leb, if◌then◌else◌, Bool-cases, Bytes, bit_and, bit_xor, All,
}
use binkleyforce.Base.Bits.{all_below, all_below_at}
use binkleyforce.Hydra.{hydra_dle, has_flag, hopt_highbit}
use binkleyforce.Hydra.Send.{control_part, must_escape, hydra_putbinbyte, put_bytes}
use binkleyforce.Hydra.Recv.{is_noise}
use binkleyforce.Hydra.Line.{Carries, nothing, plainly, escaping, IsClean, IsSafe}

abbrev is_ctl : ℕ → Bool
is_ctl n = ltb n 32 || n == 127

abbrev implies : Bool → Bool → Bool
implies a b = not a || b

-- What is true of each byte `c` and of the one that stands for it behind a DLE.
abbrev byte_facts : ℕ → Bool
byte_facts c =
    let x = bit_xor c 0x40 in
    ltb x 256
    && bit_xor x 0x40 == c
    && implies (ltb c 128) (ltb x 128 && bit_and c 0x7f == c && bit_and x 0x7f == x)
    && not (bit_and c 0x7f == c && bit_and x 0x7f == hydra_dle && is_ctl c)

abbrev escape_facts : ℕ → ℕ → ℕ → Bool
escape_facts n x m =
    implies (is_ctl n) (not (is_ctl m) && not (x == hydra_dle) && not (leb b'a' x && leb x b'e'))

all_facts : all_below 256 byte_facts ≡ true
unfolding all_below
all_facts = refl

full_facts : all_below 256 (λ c. escape_facts c (bit_xor c 0x40) (bit_xor c 0x40)) ≡ true
unfolding all_below
full_facts = refl

masked_facts :
    all_below 256
      (λ c. escape_facts (bit_and c 0x7f) (bit_xor c 0x40) (bit_and (bit_xor c 0x40) 0x7f))
    ≡ true
unfolding all_below
masked_facts = refl

-- The bytes that the options allow on the line: without the high bit where it is stripped.
abbrev pub IsSendable : ℕ → ℕ → Type 0
IsSendable options c = (c < 256) × (has_flag options hopt_highbit ≡ true → c < 128)

byte_at : (c : ℕ) → c < 256 → byte_facts c ≡ true
byte_at c h = all_below_at 256 byte_facts c all_facts h

full_at : (c : ℕ) → c < 256 → escape_facts c (bit_xor c 0x40) (bit_xor c 0x40) ≡ true
full_at c h =
    all_below_at 256 (λ c. escape_facts c (bit_xor c 0x40) (bit_xor c 0x40)) c full_facts h

masked_at :
    (c : ℕ)
    → c < 256
    → escape_facts (bit_and c 0x7f) (bit_xor c 0x40) (bit_and (bit_xor c 0x40) 0x7f) ≡ true
masked_at c h =
    all_below_at 256
      (λ c. escape_facts (bit_and c 0x7f) (bit_xor c 0x40) (bit_and (bit_xor c 0x40) 0x7f)) c
      masked_facts h

must_escape-is_ctl :
    (options lastchar n : ℕ) → must_escape options lastchar n ≡ true → is_ctl n ≡ true
unfolding must_escape
must_escape-is_ctl options lastchar n h = ground arith

control_facts :
    (options c : ℕ)
    → c < 256
    → escape_facts (control_part options c) (bit_xor c 0x40) (control_part options (bit_xor c 0x40))
      ≡ true
unfolding control_part
control_facts options c h = ground (arith, full_at c h, masked_at c h)

-- The receiver tests the same part of the byte.
is_noise_quiet :
    (options c : ℕ) → is_ctl (control_part options c) ≡ false → is_noise options c ≡ false
unfolding is_noise control_part
is_noise_quiet options c h = ground arith

is_noise_plain :
    (options lastchar c : ℕ)
    → must_escape options lastchar (control_part options c) ≡ false
    → is_noise options c ≡ false
unfolding is_noise control_part must_escape
is_noise_plain options lastchar c h = ground arith

stripped :
    (options c : ℕ)
    → IsSendable options c
    → (if has_flag options hopt_highbit then bit_and c 0x7f else c) ≡ c
stripped options c h = elim (Bool-cases (has_flag options hopt_highbit)) [
  | inl strip ↦ ground (arith, byte_at c h.0, h.1 strip)
  | inr whole ↦ rw whole refl
]

bit_xor-IsSendable : (options c : ℕ) → IsSendable options c → IsSendable options (bit_xor c 0x40)
bit_xor-IsSendable options c h =
    (ground (arith, byte_at c h.0), λ strip. ground (arith, byte_at c h.0, h.1 strip))

dle_escaped :
    (options lastchar : ℕ) → must_escape options lastchar (control_part options hydra_dle) ≡ true
unfolding must_escape control_part
dle_escaped options lastchar = ground arith

plain_not_dle :
    (options lastchar c : ℕ)
    → must_escape options lastchar (control_part options c) ≡ false
    → (c == hydra_dle) ≡ false
plain_not_dle options lastchar c e = elim (Bool-cases (c == hydra_dle)) [
  | inl is ↦ cc (
    dle_escaped options lastchar,
    ap (λ t. must_escape options lastchar (control_part options t)) ((==_iff c hydra_dle).0 is),
    e,
  )
  | inr other ↦ other
]

plain-IsClean :
    (options lastchar c : ℕ)
    → IsSendable options c
    → must_escape options lastchar (control_part options c) ≡ false
    → IsClean options c
plain-IsClean options lastchar c h e = (
  h.0,
  stripped options c h,
  is_noise_plain options lastchar c e,
  plain_not_dle options lastchar c e,
)

escape-IsSafe :
    (options lastchar c : ℕ)
    → IsSendable options c
    → must_escape options lastchar (control_part options c) ≡ true
    → IsSafe options (bit_xor c 0x40)
escape-IsSafe options lastchar c h e =
    let ctl = must_escape-is_ctl options lastchar (control_part options c) e in
    let facts = control_facts options c h.0 in
    let x = bit_xor-IsSendable options c h in
    (
      (
        x.0,
        stripped options (bit_xor c 0x40) x,
        is_noise_quiet options (bit_xor c 0x40) (ground arith),
        ground arith,
      ),
      ground arith,
    )

xor_back : (c : ℕ) → c < 256 → bit_xor (bit_xor c 0x40) 0x40 ≡ c
xor_back c h = ground (arith, byte_at c h)

one_byte :
    (options lastchar c : ℕ) (wire raw : Bytes)
    → IsSendable options c
    → Carries options wire raw
    → Carries options ((hydra_putbinbyte options lastchar c).0 ++ wire) (c ∷ raw)
unfolding hydra_putbinbyte
one_byte options lastchar c wire raw h rest =
    elim (Bool-cases (must_escape options lastchar (control_part options c))) [
      | inl e ↦ rw e (
          subst (λ t. Carries options (hydra_dle ∷ bit_xor c 0x40 ∷ wire) (t ∷ raw))
            (xor_back c h.0)
            (escaping (bit_xor c 0x40) (escape-IsSafe options lastchar c h e) rest))
      | inr e ↦ rw e (plainly c (plain-IsClean options lastchar c h e) rest)
    ]

-- What `hydra_putbinbyte` writes carries the bytes that it was given.
pub put_bytes-Carries :
    (options lastchar : ℕ) (src : Bytes)
    → All (IsSendable options) src
    → Carries options (put_bytes options lastchar src).0 src
unfolding put_bytes
put_bytes-Carries options lastchar [] h = nothing
put_bytes-Carries options lastchar (c ∷ src) h =
    let last = (hydra_putbinbyte options lastchar c).1 in
    one_byte options lastchar c (put_bytes options last src).0 src h.0
      (put_bytes-Carries options last src h.1)

ascii_control_part : (options c : ℕ) → c < 128 → control_part options c ≡ c
unfolding control_part
ascii_control_part options c h = ground (arith, byte_at c (omega arith))

ascii-IsSendable : (options c : ℕ) → c < 128 → IsSendable options c
ascii-IsSendable options c h = (omega arith, λ _. h)

-- Printable characters pass under all options, and control characters behind a DLE.
pub printable-IsClean : (options c : ℕ) → 32 ≤ c → c < 127 → IsClean options c
printable-IsClean options c low high =
    let part = ascii_control_part options c (omega arith) in
    (
      omega arith,
      stripped options c (ascii-IsSendable options c (omega arith)),
      is_noise_quiet options c (rw part (ground arith)),
      ground arith,
    )

pub control-Carries :
    (options c : ℕ) (wire raw : Bytes)
    → c < 128
    → (ltb c 32 || c == 127) ≡ true
    → Carries options wire raw
    → Carries options (hydra_dle ∷ bit_xor c 0x40 ∷ wire) (c ∷ raw)
control-Carries options c wire raw h ctl rest =
    let part = ascii_control_part options c h in
    let facts = control_facts options c (omega arith) in
    let x = bit_xor-IsSendable options c (ascii-IsSendable options c h) in
    let own : is_ctl (control_part options c) ≡ true = rw part ctl in
    let safe : IsSafe options (bit_xor c 0x40) = (
      (
        x.0,
        stripped options (bit_xor c 0x40) x,
        is_noise_quiet options (bit_xor c 0x40) (ground arith),
        ground arith,
      ),
      ground arith,
    ) in
    subst (λ t. Carries options (hydra_dle ∷ bit_xor c 0x40 ∷ wire) (t ∷ raw))
      (xor_back c (omega arith)) (escaping (bit_xor c 0x40) safe rest)
