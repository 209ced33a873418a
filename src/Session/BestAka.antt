-- ===== src/Session/BestAka.antt =====
-- The best of our addresses for a peer (`session_get_bestaka` of source/bforce/sess_main.c).
use mathlib.Core.Path.{subst}
use native.Mathlib.Nat.{le_trans}
use binkleyforce.Base.{
  ℕ, ◌≤◌, ◌≡◌, ◌⊎◌, refl, sym, ◌∙◌, arith, Bool, true, false, not, ◌||◌, Option, none, some, List,
  [], ◌∷◌, ◌++◌, Bool-cases, inl, inr, All,
}
use binkleyforce.Address.{Faddr, ftn_addrcomp, ftn_addrsmetric}
use binkleyforce.Address.Order.{ftn_addrcomp_iff}
use binkleyforce.Session.{
  SysAddr, Conf, listed, takes_aka, bestaka_loop, session_get_bestaka, present, session_addrs_add,
}

ftn_addrcomp_symm : (a b : Faddr) → ftn_addrcomp a b ≡ false → ftn_addrcomp b a ≡ false
ftn_addrcomp_symm a b h =
    let (z, n, f, p) = (ftn_addrcomp_iff a b).0 h in
    (ftn_addrcomp_iff b a).1 (sym z, sym n, sym f, sym p)

ftn_addrcomp_comm : (a b : Faddr) → ftn_addrcomp a b ≡ ftn_addrcomp b a
ftn_addrcomp_comm a b = ground (arith, ftn_addrcomp_symm a b, ftn_addrcomp_symm b a)

abbrev pub is_empty : List Faddr → Bool
is_empty [] = true
is_empty (a ∷ rest) = false

-- No address of the list compares equal to a later one.
abbrev pub Distinct : List SysAddr → Type 0
Distinct [] = Unit
Distinct (s ∷ addrs) = (present addrs s.addr ≡ false) × Distinct addrs

present-append :
    (addrs : List SysAddr) (t : SysAddr) (a : Faddr)
    → present (addrs ++ (t ∷ [])) a ≡ (present addrs a || not (ftn_addrcomp t.addr a))
unfolding present
present-append [] t a = ground arith
present-append (s ∷ addrs) t a = ground (arith, present-append addrs t a)

Distinct-append :
    (addrs : List SysAddr) (t : SysAddr)
    → Distinct addrs
    → present addrs t.addr ≡ false
    → Distinct (addrs ++ (t ∷ []))
unfolding present
Distinct-append [] t h e = (refl, tt)
Distinct-append (s ∷ addrs) t (hs, h) e = (
  ground (arith, present-append addrs t s.addr, ftn_addrcomp_comm t.addr s.addr),
  Distinct-append addrs t h (ground arith),
)

ftn_addrcomp_right :
    (s a b : Faddr) → ftn_addrcomp a b ≡ false → ftn_addrcomp s a ≡ false → ftn_addrcomp s b ≡ false
ftn_addrcomp_right s a b h k =
    let (z, n, f, p) = (ftn_addrcomp_iff a b).0 h in
    let (z', n', f', p') = (ftn_addrcomp_iff s a).0 k in
    (ftn_addrcomp_iff s b).1 (z' ∙ z, n' ∙ n, f' ∙ f, p' ∙ p)

present-equal :
    (addrs : List SysAddr) (a b : Faddr)
    → ftn_addrcomp a b ≡ false
    → present addrs a ≡ true
    → present addrs b ≡ true
unfolding present
present-equal [] a b h k = k
present-equal (s ∷ addrs) a b h k =
    ground (arith, ftn_addrcomp_right s.addr a b h, present-equal addrs a b h)

-- `session_addrs_add` keeps a list free of duplicates; afterwards exactly the old addresses and
-- those equal to the new one are present, and adding the address again changes nothing.
pub session_addrs_add-Distinct :
    (addrs : List SysAddr) (a : Faddr)
    → Distinct addrs
    → Distinct (session_addrs_add addrs a).0
      × ((b : Faddr)
          → present (session_addrs_add addrs a).0 b ≡ (present addrs b || not (ftn_addrcomp a b)))
unfolding session_addrs_add
session_addrs_add-Distinct addrs a h = elim (Bool-cases (present addrs a)) [
  | inl old ↦ rw old (h, λ b. ground (arith, present-equal addrs a b))
  | inr new ↦
      let t : SysAddr = record { addr = a; busy = false; good = false } in
      rw new (Distinct-append addrs t h new, λ b. present-append addrs t b)
]

-- The address is one of the list.
abbrev pub Among : Faddr → List Faddr → Type 0
Among a [] = ⊥
Among a (b ∷ rest) = (a ≡ b) ⊎ Among a rest

-- All addresses of a list that are not hidden match `addr` no better than `best`.
abbrev pub NoBetter : List Faddr → Faddr → Faddr → List Faddr → Type 0
NoBetter hidden addr best [] = Unit
NoBetter hidden addr best (b ∷ rest) =
    (listed hidden b ≡ false → ftn_addrsmetric b addr ≤ ftn_addrsmetric best addr)
    × NoBetter hidden addr best rest

abbrev pub AllHidden : List Faddr → List Faddr → Type 0
AllHidden hidden = All (λ b. listed hidden b ≡ true)

-- What the best address is, out of those of the list and the best one before.
abbrev pub Outcome : List Faddr → Faddr → List Faddr → Option Faddr → Option Faddr → Type 0
Outcome hidden addr list best none = (best ≡ none) × AllHidden hidden list
Outcome hidden addr list best (some a) =
    (listed hidden a ≡ false)
    × ((best ≡ some a) ⊎ Among a list)
    × NoBetter hidden addr a list
    × ((x : Faddr) → best ≡ some x → ftn_addrsmetric x addr ≤ ftn_addrsmetric a addr)

-- The metric that the loop carries is that of its best address.
abbrev Carried : List Faddr → Faddr → Option Faddr → ℕ → Type 0
Carried hidden addr none bestl = Unit
Carried hidden addr (some x) bestl = (bestl ≡ ftn_addrsmetric x addr) × (listed hidden x ≡ false)

-- The address that is looked at becomes the best one.
took :
    (hidden : List Faddr) (addr a : Faddr) (rest : List Faddr) (best : Option Faddr) (bestl : ℕ)
    (r : Option Faddr)
    → ((x : Faddr) → best ≡ some x → ftn_addrsmetric x addr ≤ ftn_addrsmetric a addr)
    → Outcome hidden addr rest (some a) r
    → Outcome hidden addr (a ∷ rest) best r
took hidden addr a rest best bestl none better o = absurd (ground arith)
took hidden addr a rest best bestl (some b) better (vis, from, no_better, beats) =
    let over = beats a refl in
    (
      vis,
      elim from [ inl e ↦ inr (inl (ground arith)) | inr m ↦ inr (inr m) ],
      (λ _. over, no_better),
      λ x e. le_trans (better x e) over,
    )

-- The address that is looked at is hidden, or no better than the best one.
passed :
    (hidden : List Faddr) (addr a : Faddr) (rest : List Faddr) (best r : Option Faddr)
    → (listed hidden a ≡ true)
      ⊎ ((x : Faddr) × (best ≡ some x) × (ftn_addrsmetric a addr ≤ ftn_addrsmetric x addr))
    → Outcome hidden addr rest best r
    → Outcome hidden addr (a ∷ rest) best r
passed hidden addr a rest best none why (e, all) = (e, (ground arith, all))
passed hidden addr a rest best (some b) why (vis, from, no_better, beats) = (
  vis,
  elim from [ inl e ↦ inl e | inr m ↦ inr (inr m) ],
  (
    λ h. elim why [ inl hid ↦ absurd (ground arith) | inr (x, e, le) ↦ le_trans le (beats x e) ],
    no_better,
  ),
  beats,
)

bestaka_taken :
    (hidden : List Faddr) (addr a : Faddr) (rest : List Faddr) (best : Option Faddr) (bestl : ℕ)
    → takes_aka hidden addr best bestl a ≡ true
    → bestaka_loop hidden addr (a ∷ rest) best bestl
      ≡ bestaka_loop hidden addr rest (some a) (ftn_addrsmetric a addr)
unfolding bestaka_loop
bestaka_taken hidden addr a rest best bestl h = rw (h, bestaka_loop)

bestaka_left :
    (hidden : List Faddr) (addr a : Faddr) (rest : List Faddr) (best : Option Faddr) (bestl : ℕ)
    → takes_aka hidden addr best bestl a ≡ false
    → bestaka_loop hidden addr (a ∷ rest) best bestl ≡ bestaka_loop hidden addr rest best bestl
unfolding bestaka_loop
bestaka_left hidden addr a rest best bestl h = rw (h, bestaka_loop)

takes_better :
    (hidden : List Faddr) (addr : Faddr) (best : Option Faddr) (bestl : ℕ) (a : Faddr)
    → Carried hidden addr best bestl
    → takes_aka hidden addr best bestl a ≡ true
    → (listed hidden a ≡ false)
      × ((x : Faddr) → best ≡ some x → ftn_addrsmetric x addr ≤ ftn_addrsmetric a addr)
unfolding takes_aka
takes_better hidden addr none bestl a c h = (ground arith, λ x e. absurd (ground arith))
takes_better hidden addr (some y) bestl a c h = (ground arith, λ x e. ground arith)

leaves_worse :
    (hidden : List Faddr) (addr : Faddr) (best : Option Faddr) (bestl : ℕ) (a : Faddr)
    → Carried hidden addr best bestl
    → takes_aka hidden addr best bestl a ≡ false
    → (listed hidden a ≡ true)
      ⊎ ((x : Faddr) × (best ≡ some x) × (ftn_addrsmetric a addr ≤ ftn_addrsmetric x addr))
unfolding takes_aka
leaves_worse hidden addr none bestl a c h = inl (ground arith)
leaves_worse hidden addr (some y) bestl a c h = elim (Bool-cases (listed hidden a)) [
  | inl hid ↦ inl hid
  | inr vis ↦ inr (y, refl, ground arith)
]

bestaka_loop-Outcome :
    (hidden : List Faddr) (addr : Faddr) (list : List Faddr) (best : Option Faddr) (bestl : ℕ)
    → Carried hidden addr best bestl
    → Outcome hidden addr list best (bestaka_loop hidden addr list best bestl)
bestaka_loop-Outcome hidden addr [] none bestl c = unfold bestaka_loop in (refl, tt)
bestaka_loop-Outcome hidden addr [] (some x) bestl c =
    unfold bestaka_loop in (c.1, inl refl, tt, λ y e. ground arith)
bestaka_loop-Outcome hidden addr (a ∷ rest) best bestl c =
    elim (Bool-cases (takes_aka hidden addr best bestl a)) [
      | inl yes_taken ↦
          let (vis, over) = takes_better hidden addr best bestl a c yes_taken in
          subst (Outcome hidden addr (a ∷ rest) best)
            (sym (bestaka_taken hidden addr a rest best bestl yes_taken))
            (took hidden addr a rest best bestl _ over
              (bestaka_loop-Outcome hidden addr rest (some a) (ftn_addrsmetric a addr) (refl, vis)))
      | inr left ↦
          subst (Outcome hidden addr (a ∷ rest) best)
            (sym (bestaka_left hidden addr a rest best bestl left))
            (passed hidden addr a rest best _ (leaves_worse hidden addr best bestl a c left)
              (bestaka_loop-Outcome hidden addr rest best bestl c))
    ]

-- `session_get_bestaka` returns one of our addresses that is not hidden and that no other of them
-- matches `addr` better than; it returns none exactly if all our addresses are hidden.
pub session_get_bestaka_best :
    (conf : Conf) (addr : Faddr)
    → Outcome conf.hidden addr conf.addresses none (session_get_bestaka conf addr)
unfolding session_get_bestaka
session_get_bestaka_best conf addr = bestaka_loop-Outcome conf.hidden addr conf.addresses none 0 tt
