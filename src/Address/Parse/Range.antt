-- ===== src/Address/Parse/Range.antt =====
-- What `ftn_addrparse` accepts: numbers in range, and wildcards only where they are allowed.
use mathlib.Core.Path.{subst}
use binkleyforce.Base.{
  ℕ, ◌≤◌, ◌≡◌, ◌⊎◌, inl, inr, refl, arith, Bool, true, false, Option, none, some, [], ◌∷◌, ◌==◌,
  Bytes, length, take, if◌then◌else◌, Bool-cases, Option-cases, zero, suc,
}
use binkleyforce.Base.Int.{ℤ, pos, negsuc, ltb_ℤ}
use binkleyforce.Text.{head, tail, strnxcpy, string_printable, atoi}
use binkleyforce.Address.{Faddr}
use binkleyforce.Address.Parse.{
  addrstr2int, copy_domain, Scan, number_at, fido_step, fido_last, fido_domain, fido_loop, Part,
  bad, go, stop, inet_part, inet_domain, inet_loop, detect_form, defaults, ftn_addrparse,
}

-- 0 to 0x7fff, or -1 where wildcards are allowed.
abbrev pub IsNumber : Bool → ℤ → Type 0
IsNumber wildcard (pos n) = n ≤ 0x7fff
IsNumber wildcard (negsuc n) = (wildcard ≡ true) × (n ≡ 0)

pub record InRange (wildcard : Bool) (a : Faddr) : Type 0 where
  pub zone_ok : IsNumber wildcard a.zone
  pub net_ok : IsNumber wildcard a.net
  pub node_ok : IsNumber wildcard a.node
  pub point_ok : IsNumber wildcard a.point
  pub domain_ok : length a.domain ≤ 40

addrstr2int-IsNumber : (wildcard : Bool) (s : Bytes) → IsNumber wildcard (addrstr2int s)
unfolding addrstr2int
addrstr2int-IsNumber wildcard s = clamp (atoi s)
  where
    clamp :
        (val : ℤ)
        → IsNumber wildcard (
            if ltb_ℤ val (pos 0) then pos 0 else if ltb_ℤ (pos 0x7fff) val then pos 0x7fff else val)
    clamp (pos n) = ground arith
    clamp (negsuc n) = omega arith

number_at-IsNumber :
    (wildcard : Bool) (s : Bytes) {n : ℤ} → number_at wildcard s ≡ some n → IsNumber wildcard n
unfolding number_at
number_at-IsNumber wildcard s h = ground (arith, addrstr2int-IsNumber wildcard s)

length-take_le : (k : ℕ) (s : Bytes) → length (take k s) ≤ k
length-take_le zero s = omega arith
length-take_le (suc k) [] = omega arith
length-take_le (suc k) (c ∷ s) = omega (arith, length-take_le k s)

-- Reading a domain leaves the numbers alone and keeps to the buffer.
copy_domain-InRange :
    (wildcard : Bool) (a : Faddr) (p : Bytes)
    → InRange wildcard a
    → InRange wildcard (copy_domain a p)
unfolding copy_domain strnxcpy
copy_domain-InRange wildcard a p h = record {
  zone_ok = h.zone_ok;
  net_ok = h.net_ok;
  node_ok = h.node_ok;
  point_ok = h.point_ok;
  domain_ok = length-take_le 40 (string_printable p);
}

module _ (wildcard : Bool) where
  -- A number that was read may take any of the four places.
  record Places (n : ℤ) (a : Faddr) : Type 0 where
    at_zone : InRange wildcard (record a { zone = n })
    at_net : InRange wildcard (record a { net = n })
    at_node : InRange wildcard (record a { node = n })
    at_point : InRange wildcard (record a { point = n })

  places : (n : ℤ) (a : Faddr) → IsNumber wildcard n → InRange wildcard a → Places n a
  places n a hn h = assumption

  read_at :
      (s : Bytes) (a : Faddr)
      → InRange wildcard a
      → (number_at wildcard s ≡ none) ⊎ ((n : ℤ) × (number_at wildcard s ≡ some n) × Places n a)
  read_at s a h = elim (Option-cases (number_at wildcard s)) [
    | inl e ↦ inl e
    | inr (n, e) ↦ inr (n, e, places n a (number_at-IsNumber wildcard s e) h)
  ]

  abbrev Good : Option (Bytes × Scan) → Type 0
  Good none = Unit
  Good (some next) = InRange wildcard next.1.addr

  fido_step-Good :
      (c : ℕ) (p s : Bytes) (st : Scan)
      → InRange wildcard st.addr
      → Good (fido_step wildcard c p s st)
  unfolding fido_step
  fido_step-Good c p s st h =
      ground (arith, read_at s st.addr h, read_at (if head s == b'/' then tail s else s) st.addr h)

  fido_last-InRange :
      (s : Bytes) (st : Scan)
      → InRange wildcard st.addr
      → InRange wildcard (fido_last wildcard s st).1.addr
  unfolding fido_last
  fido_last-InRange s st h = ground (arith, read_at s st.addr h, read_at (tail s) st.addr h)

  fido_domain-InRange :
      (p : Bytes) (r : Bool × Scan)
      → InRange wildcard r.1.addr
      → InRange wildcard (fido_domain p r).1
  unfolding fido_domain
  fido_domain-InRange p (true, st) h = h
  fido_domain-InRange [] (false, st) h = h
  fido_domain-InRange (c ∷ []) (false, st) h = h
  fido_domain-InRange (c ∷ d ∷ p) (false, st) h =
      ground (arith, copy_domain-InRange wildcard st.addr (d ∷ p) h)

  fido_loop-InRange :
      (p s : Bytes) (st : Scan)
      → InRange wildcard st.addr
      → InRange wildcard (fido_loop wildcard p s st).1
  unfolding fido_loop
  fido_loop-InRange [] s st h = fido_domain-InRange [] _ (fido_last-InRange s st h)
  fido_loop-InRange (c ∷ p) s st h = elim (Bool-cases (c == b'@')) [
    | inl end ↦ rw (end, fido_loop) (fido_domain-InRange (c ∷ p) _ (fido_last-InRange s st h))
    | inr inside ↦ elim (Option-cases (fido_step wildcard c p s st)) [
      | inl e ↦ rw (inside, fido_loop, e) h
      | inr (next, e) ↦
          rw (inside, fido_loop, e)
            (fido_loop-InRange p next.0 next.1 (subst Good e (fido_step-Good c p s st h)))
    ]
  ]

  abbrev GoodPart : Part → Type 0
  GoodPart bad = Unit
  GoodPart (go st) = InRange wildcard st.addr
  GoodPart (stop st) = InRange wildcard st.addr

  inet_part-Good : (s : Bytes) (st : Scan) → InRange wildcard st.addr → GoodPart (inet_part s st)
  unfolding inet_part
  inet_part-Good s st h =
      ground (arith, places _ st.addr (addrstr2int-IsNumber wildcard (tail s)) h)

  inet_domain-InRange :
      (p : Bytes) (a : Faddr) → InRange wildcard a → InRange wildcard (inet_domain p a)
  unfolding inet_domain
  inet_domain-InRange [] a h = h
  inet_domain-InRange (c ∷ p) a h = copy_domain-InRange wildcard a (c ∷ p) h

  Part-cases : (r : Part) → (r ≡ bad) ⊎ ((st : Scan) × (r ≡ go st)) ⊎ ((st : Scan) × (r ≡ stop st))
  Part-cases bad = inl refl
  Part-cases (go st) = inr (inl (st, refl))
  Part-cases (stop st) = inr (inr (st, refl))

  inet_loop-InRange :
      (p s : Bytes) (st : Scan) → InRange wildcard st.addr → InRange wildcard (inet_loop p s st).1
  unfolding inet_loop
  inet_loop-InRange [] s st h = elim (Part-cases (inet_part s st)) [
    | inl e ↦ rw (e, inet_loop) h
    | inr (inl (st', e)) ↦ rw (e, inet_loop) (subst GoodPart e (inet_part-Good s st h))
    | inr (inr (st', e)) ↦ rw (e, inet_loop) (subst GoodPart e (inet_part-Good s st h))
  ]
  inet_loop-InRange (c ∷ p) s st h = elim (Bool-cases (c == b'.')) [
    | inr inside ↦ rw (inside, inet_loop) (inet_loop-InRange p s st h)
    | inl dot ↦ elim (Part-cases (inet_part s st)) [
      | inl e ↦ rw (dot, inet_loop, e) h
      | inr (inl (st', e)) ↦
          rw (dot, inet_loop, e)
            (inet_loop-InRange p p st' (subst GoodPart e (inet_part-Good s st h)))
      | inr (inr (st', e)) ↦
          rw (dot, inet_loop, e)
            (inet_domain-InRange p st'.addr (subst GoodPart e (inet_part-Good s st h)))
    ]
  ]

  defaults-InRange : (form : Bool) → InRange wildcard (defaults form)
  defaults-InRange form = omega arith

-- Whatever text is parsed, and whether or not it is accepted, the numbers of the address that
-- `ftn_addrparse` leaves are from 0 to 0x7fff, or -1 where wildcards are allowed, and the domain
-- has 40 bytes at most.
pub ftn_addrparse-InRange :
    (s : Bytes) (wildcard : Bool) → InRange wildcard (ftn_addrparse s wildcard).1
unfolding ftn_addrparse
ftn_addrparse-InRange s wildcard = elim (Option-cases (detect_form wildcard false s)) [
  | inl e ↦ rw (e, ftn_addrparse) (omega arith)
  | inr (true, e) ↦
      rw (e, ftn_addrparse) (inet_loop-InRange wildcard s s _ (defaults-InRange wildcard true))
  | inr (false, e) ↦
      rw (e, ftn_addrparse) (fido_loop-InRange wildcard s s _ (defaults-InRange wildcard false))
]
