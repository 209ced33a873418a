-- ===== src/Address/Order.antt =====
-- The comparisons of addresses: what each decides, and how they fit together.
use binkleyforce.Base.{
  ℕ, suc, ◌≡◌, ◌↔◌, ◌⊎◌, ◌≢◌, All, inl, inr, refl, arith, true, false, ◌||◌, List, [], ◌∷◌,
  if◌then◌else◌, Bool-cases,
}
use binkleyforce.Base.Int.{ℤ, ◌==ℤ◌, ltb_ℤ, ◌<ℤ◌, ==ℤ_iff, trichotomy_lem}
use binkleyforce.Address.{
  Faddr, any_number, ftn_addrcomp, matrix, addr_eq, addr_gt, addr_lt, compare_loop,
  ftn_addrcomp_logic, ftn_addrcomp_mask, ftn_addrsmetric,
}

-- The four numbers agree; the domain and the form do not count.
abbrev pub SameNode : Faddr → Faddr → Type 0
SameNode a b = (a.zone ≡ b.zone) × (a.net ≡ b.net) × (a.node ≡ b.node) × (a.point ≡ b.point)

-- The lexicographic order on pairs of numbers, the first pair that differs deciding.
abbrev pub LexLt : List (ℤ × ℤ) → Type 0
LexLt [] = ⊥
LexLt ((a, b) ∷ rest) = (a <ℤ b) ⊎ (a ≡ b) × LexLt rest

-- The order of addresses: by zone, then net, then node, then point.
abbrev pub Below : Faddr → Faddr → Type 0
Below a b = LexLt (matrix a b)

-- `ftn_addrcomp` returns zero exactly if zone, net, node and point agree.
pub ftn_addrcomp_iff : (a b : Faddr) → (ftn_addrcomp a b ≡ false) ↔ SameNode a b
unfolding ftn_addrcomp
ftn_addrcomp_iff a b =
    let z = ==ℤ_iff a.zone b.zone in
    let n = ==ℤ_iff a.net b.net in
    let d = ==ℤ_iff a.node b.node in
    let p = ==ℤ_iff a.point b.point in
    (
      λ h. (z.0 (ground arith), n.0 (ground arith), d.0 (ground arith), p.0 (ground arith)),
      λ (hz, hn, hd, hp). rw (z.1 hz, n.1 hn, d.1 hd, p.1 hp),
    )

-- How two integers compare, with both tests.
data Compared (a b : ℤ) : Type 0 where
  less : ltb_ℤ a b ≡ true → ltb_ℤ b a ≡ false → a ≢ b → Compared a b
  same : ltb_ℤ a b ≡ false → ltb_ℤ b a ≡ false → a ≡ b → Compared a b
  more : ltb_ℤ a b ≡ false → ltb_ℤ b a ≡ true → a ≢ b → Compared a b

compared : (a b : ℤ) → Compared a b
compared a b = elim (Bool-cases (ltb_ℤ a b)) [
  | inl lt ↦ less lt (ground arith) (λ e. ground arith)
  | inr ge ↦ elim (Bool-cases (ltb_ℤ b a)) [
    | inl gt ↦ more ge gt (λ e. ground arith)
    | inr le ↦ same ge le ((==ℤ_iff a b).0 ((trichotomy_lem a b).1 ge le))
  ]
]

-- The loop for GT ends in zero unless the first pair that differs is in ascending order.
compare_gt_iff : (m : List (ℤ × ℤ)) → (compare_loop addr_gt m ≡ false) ↔ ¬ (LexLt m)
unfolding compare_loop
compare_gt_iff [] = (λ h x. x, λ h. refl)
compare_gt_iff ((a, b) ∷ rest) = elim (compared a b) [
  | less lt ge ne ↦ (λ h. absurd (ground arith), λ h. absurd (h (inl lt)))
  | same ge le e ↦
      let ih = compare_gt_iff rest in
      rw (ge, le)
        ((
          λ h. elim [ inl lt ↦ cc | inr (_, below) ↦ ih.0 h below ],
          λ h. ih.1 (λ below. h (inr (e, below))),
        ))
  | more le gt ne ↦ rw gt ((λ h. elim [ inl lt ↦ cc | inr (e, _) ↦ absurd (ne e) ], λ h. refl))
]

-- The loop for LT is the loop for GT with the two columns exchanged.
exchange : List (ℤ × ℤ) → List (ℤ × ℤ)
exchange [] = []
exchange ((a, b) ∷ rest) = (b, a) ∷ exchange rest

compare_lt-exchange :
    (m : List (ℤ × ℤ)) → compare_loop addr_lt m ≡ compare_loop addr_gt (exchange m)
unfolding compare_loop exchange
compare_lt-exchange [] = refl
compare_lt-exchange ((a, b) ∷ rest) = rw (compare_lt-exchange rest)

compare_eq_lem : (m : List (ℤ × ℤ)) → (compare_loop addr_eq m ≡ false) ↔ All (λ p. p.0 ≡ p.1) m
unfolding compare_loop
compare_eq_lem [] = (λ h. tt, λ h. refl)
compare_eq_lem ((a, b) ∷ rest) =
    let ih = compare_eq_lem rest in
    let at = ==ℤ_iff a b in
    (λ h. (at.0 (ground arith), ih.0 (ground arith)), λ (e, all). rw (at.1 e) (ih.1 all))

-- Which answers of `ftn_addrcomp_logic` are zero: for GT, exactly where the first address is not
-- below the second in the order of zone, net, node and point; for LT, exactly where the second is
-- not below the first; for EQ, exactly where the four numbers agree.
pub ftn_addrcomp_logic_order :
    (a b : Faddr)
    → ((ftn_addrcomp_logic a addr_gt b ≡ false) ↔ ¬ (Below a b))
      × ((ftn_addrcomp_logic a addr_lt b ≡ false) ↔ ¬ (Below b a))
      × ((ftn_addrcomp_logic a addr_eq b ≡ false) ↔ SameNode a b)
unfolding ftn_addrcomp_logic exchange
ftn_addrcomp_logic_order a b =
    let eq = compare_eq_lem (matrix a b) in
    (
      compare_gt_iff (matrix a b),
      rw (compare_lt-exchange (matrix a b)) (compare_gt_iff (matrix b a)),
      (
        λ h. let (z, (n, (d, (p, _)))) = eq.0 h in (z, n, d, p),
        λ (z, n, d, p). eq.1 (z, (n, (d, (p, tt)))),
      ),
    )

compare_both_iff :
    (m : List (ℤ × ℤ))
    → ((compare_loop addr_gt m ≡ false) × (compare_loop addr_lt m ≡ false)) ↔ All (λ p. p.0 ≡ p.1) m
unfolding compare_loop
compare_both_iff [] = (λ h. tt, λ h. (refl, refl))
compare_both_iff ((a, b) ∷ rest) =
    let ih = compare_both_iff rest in
    elim (compared a b) [
      | less lt ge ne ↦ rw (lt, ge) ((λ h. absurd (ground arith), λ h. absurd (ne h.0)))
      | same ge le e ↦ rw (ge, le) ((λ h. (e, ih.0 h), λ h. ih.1 h.1))
      | more le gt ne ↦ rw (le, gt) ((λ h. absurd (ground arith), λ h. absurd (ne h.0)))
    ]

-- Two addresses are equal for `ftn_addrcomp` exactly if GT and LT both hold between them, so
-- neither operator is strict.
pub ftn_addrcomp-ftn_addrcomp_logic :
    (a b : Faddr)
    → (ftn_addrcomp a b ≡ false)
      ↔ ((ftn_addrcomp_logic a addr_gt b ≡ false) × (ftn_addrcomp_logic a addr_lt b ≡ false))
unfolding ftn_addrcomp_logic
ftn_addrcomp-ftn_addrcomp_logic a b =
    let both = compare_both_iff (matrix a b) in
    let equal = ftn_addrcomp_iff a b in
    (
      λ h. let (z, n, d, p) = equal.0 h in both.1 (z, (n, (d, (p, tt)))),
      λ h. let (z, (n, (d, (p, _)))) = both.0 h in equal.1 (z, n, d, p),
    )

-- How many pairs agree before the first that does not.
abbrev pub agreeing : List (ℤ × ℤ) → ℕ
agreeing [] = 0
agreeing ((a, b) ∷ rest) = if a ==ℤ b then suc (agreeing rest) else 0

-- `ftn_addrsmetric` is the number of leading components (zone, net, node, point) that agree before
-- the first difference, and it is 4 exactly if `ftn_addrcomp` finds the addresses equal.
pub ftn_addrsmetric_prefix :
    (a b : Faddr)
    → (ftn_addrsmetric a b ≡ agreeing (matrix a b))
      × ((ftn_addrsmetric a b ≡ 4) ↔ (ftn_addrcomp a b ≡ false))
unfolding ftn_addrsmetric ftn_addrcomp
ftn_addrsmetric_prefix a b = (ground arith, (λ h. ground arith, λ h. ground arith))

-- The mask with each -1 replaced by the number of the address.
abbrev pub filled : Faddr → Faddr → Faddr
filled mask addr = record mask {
  zone = if mask.zone ==ℤ any_number then addr.zone else mask.zone;
  net = if mask.net ==ℤ any_number then addr.net else mask.net;
  node = if mask.node ==ℤ any_number then addr.node else mask.node;
  point = if mask.point ==ℤ any_number then addr.point else mask.point;
}

any_or_equal :
    (a m : ℤ) → ((a ==ℤ m) || (m ==ℤ any_number)) ≡ (a ==ℤ (if m ==ℤ any_number then a else m))
any_or_equal a m = elim (Bool-cases (m ==ℤ any_number)) [
  | inl any ↦ rw any (rw ((==ℤ_iff a a).1 refl) (ground arith))
  | inr fixed ↦ rw fixed (ground arith)
]

-- `ftn_addrcomp_mask` answers as `ftn_addrcomp` does against the mask in which every -1 is
-- replaced by the address's own number.
pub ftn_addrcomp_mask-filled :
    (addr mask : Faddr) → ftn_addrcomp_mask addr mask ≡ ftn_addrcomp addr (filled mask addr)
unfolding ftn_addrcomp_mask ftn_addrcomp
ftn_addrcomp_mask-filled addr mask = rw (
  any_or_equal addr.zone mask.zone,
  any_or_equal addr.net mask.net,
  any_or_equal addr.node mask.node,
  any_or_equal addr.point mask.point,
)
