-- ===== src/Session/Addresses.antt =====
-- The list of a peer's addresses: no duplicates, and the locks.
use binkleyforce.Base.{
  ◌≡◌, refl, sym, ◌∙◌, arith, Bool, true, false, not, ◌&&◌, ◌||◌, List, [], ◌∷◌, ◌++◌,
  if◌then◌else◌, Bool-cases, inl, inr, All,
}
use binkleyforce.Address.{Faddr, ftn_addrcomp}
use binkleyforce.Address.Order.{ftn_addrcomp_iff}
use binkleyforce.Session.{
  SysAddr, present, session_addrs_add, session_addrs_to_falist, lock_loop, session_addrs_lock,
}

ftn_addrcomp_symm : (a b : Faddr) → ftn_addrcomp a b ≡ false → ftn_addrcomp b a ≡ false
ftn_addrcomp_symm a b h =
    let (z, n, f, p) = (ftn_addrcomp_iff a b).0 h in
    (ftn_addrcomp_iff b a).1 (sym z, sym n, sym f, sym p)

ftn_addrcomp_comm : (a b : Faddr) → ftn_addrcomp a b ≡ ftn_addrcomp b a
ftn_addrcomp_comm a b = ground (arith, ftn_addrcomp_symm a b, ftn_addrcomp_symm b a)

abbrev pub is_empty : List Faddr → Bool
is_empty [] = true
is_empty (a ∷ rest) = false

-- No address of the list compares equal to a later one.
abbrev pub Distinct : List SysAddr → Type 0
Distinct [] = Unit
Distinct (s ∷ addrs) = (present addrs s.addr ≡ false) × Distinct addrs

present-append :
    (addrs : List SysAddr) (t : SysAddr) (a : Faddr)
    → present (addrs ++ (t ∷ [])) a ≡ (present addrs a || not (ftn_addrcomp t.addr a))
unfolding present
present-append [] t a = ground arith
present-append (s ∷ addrs) t a = ground (arith, present-append addrs t a)

Distinct-append :
    (addrs : List SysAddr) (t : SysAddr)
    → Distinct addrs
    → present addrs t.addr ≡ false
    → Distinct (addrs ++ (t ∷ []))
unfolding present
Distinct-append [] t h e = (refl, tt)
Distinct-append (s ∷ addrs) t (hs, h) e = (
  ground (arith, present-append addrs t s.addr, ftn_addrcomp_comm t.addr s.addr),
  Distinct-append addrs t h (ground arith),
)

ftn_addrcomp_right :
    (s a b : Faddr) → ftn_addrcomp a b ≡ false → ftn_addrcomp s a ≡ false → ftn_addrcomp s b ≡ false
ftn_addrcomp_right s a b h k =
    let (z, n, f, p) = (ftn_addrcomp_iff a b).0 h in
    let (z', n', f', p') = (ftn_addrcomp_iff s a).0 k in
    (ftn_addrcomp_iff s b).1 (z' ∙ z, n' ∙ n, f' ∙ f, p' ∙ p)

present-equal :
    (addrs : List SysAddr) (a b : Faddr)
    → ftn_addrcomp a b ≡ false
    → present addrs a ≡ true
    → present addrs b ≡ true
unfolding present
present-equal [] a b h k = k
present-equal (s ∷ addrs) a b h k =
    ground (arith, ftn_addrcomp_right s.addr a b h, present-equal addrs a b h)

added-Distinct :
    (addrs : List SysAddr) (a : Faddr) → Distinct addrs → Distinct (session_addrs_add addrs a).0
unfolding session_addrs_add
added-Distinct addrs a h = elim (Bool-cases (present addrs a)) [
  | inl old ↦ rw old h
  | inr new ↦ rw new (Distinct-append addrs (record { addr = a; busy = false; good = false }) h new)
]

added-present :
    (addrs : List SysAddr) (a b : Faddr)
    → present (session_addrs_add addrs a).0 b ≡ (present addrs b || not (ftn_addrcomp a b))
unfolding session_addrs_add
added-present addrs a b = elim (Bool-cases (present addrs a)) [
  | inl old ↦ rw old (ground (arith, present-equal addrs a b))
  | inr new ↦ rw new (present-append addrs (record { addr = a; busy = false; good = false }) b)
]

ftn_addrcomp_self : (a : Faddr) → ftn_addrcomp a a ≡ false
ftn_addrcomp_self a = (ftn_addrcomp_iff a a).1 (refl, refl, refl, refl)

present-added : (addrs : List SysAddr) (a : Faddr) → present (session_addrs_add addrs a).0 a ≡ true
present-added addrs a = ground (arith, added-present addrs a a, ftn_addrcomp_self a)

-- `session_addrs_add` keeps a list free of duplicates; afterwards exactly the old addresses and
-- those equal to the new one are present, and adding the address again changes nothing.
pub session_addrs_add-Distinct :
    (addrs : List SysAddr) (a : Faddr)
    → Distinct addrs
    → Distinct (session_addrs_add addrs a).0
      × ((b : Faddr)
          → present (session_addrs_add addrs a).0 b ≡ (present addrs b || not (ftn_addrcomp a b)))
      × (session_addrs_add (session_addrs_add addrs a).0 a ≡ ((session_addrs_add addrs a).0, true))
session_addrs_add-Distinct addrs a h = (
  added-Distinct addrs a h,
  added-present addrs a,
  unfold session_addrs_add in rw (present-added addrs a) refl,
)

module _ {ℓ} {Locks : Type ℓ} (out_bsy_lock : Locks → Faddr → Locks × Bool) where
  abbrev pub NotBusy : List SysAddr → Type 0
  NotBusy = All (λ s. s.busy ≡ false)

  -- What one address does to the outcome: it is locked, it is busy, or it does not count.
  lock_cons :
      (s : SysAddr) (rest : List SysAddr) (one failed locked : Bool)
      → s.busy ≡ false
      → locked ≡ (
          (if s.good && not failed then true else one)
          || not (is_empty (session_addrs_to_falist rest)))
      → locked ≡ (
          one
          || not (
              is_empty (
                session_addrs_to_falist
                  ((if s.good && failed then record s { busy = true } else s) ∷ rest))))
  unfolding session_addrs_to_falist
  lock_cons s rest one failed locked hs h = ground arith

  lock_loop_lem :
      (addrs : List SysAddr) (one : Bool) (locks : Locks)
      → NotBusy addrs
      → (lock_loop out_bsy_lock addrs one locks).0.1 ≡ (
          one
          || not (is_empty (session_addrs_to_falist (lock_loop out_bsy_lock addrs one locks).0.0)))
  unfolding lock_loop
  lock_loop_lem [] one locks h = unfold session_addrs_to_falist in ground arith
  lock_loop_lem (s ∷ addrs) one locks (hs, h) =
      lock_cons s _ one (out_bsy_lock locks s.addr).1 _ hs (lock_loop_lem addrs _ _ h)

  -- On addresses none of which is marked busy, `session_addrs_lock` fails exactly if afterwards no
  -- address is left that is good and not busy, so that a session that goes on has mail to look for.
  pub session_addrs_lock_result :
      (addrs : List SysAddr) (locks : Locks)
      → NotBusy addrs
      → (session_addrs_lock out_bsy_lock addrs locks).0.1
        ≡ is_empty (session_addrs_to_falist (session_addrs_lock out_bsy_lock addrs locks).0.0)
  unfolding session_addrs_lock
  session_addrs_lock_result addrs locks h = rw (lock_loop_lem addrs false locks h) (ground arith)
