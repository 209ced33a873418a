-- ===== src/Locks/Outbound/Cells.antt =====
-- What each operation on a lock file does to the file of any name (source/bforce/u_plock.c).
use binkleyforce.Base.{
  ℕ, ◌<◌, ◌≡◌, ◌⊎◌, inl, inr, arith, Bool, true, false, not, ◌&&◌, ◌||◌, Option, none, some, ◌==◌,
  Bytes, Bool-cases, ap,
}
use binkleyforce.Locks.{
  Host, Store, plock_ok, same_name, same_name→eq, plock_check, plock_link, plock_create,
  plock_remove, remove_stale, link_again, plock_read,
}

-- A lock that is not ours to remove: of a process that lives, or with no process id in it.
abbrev pub is_kept : Host → Option ℕ → Bool
is_kept h none = false
is_kept h (some pid) = not (pid == h.self) && (pid == 0 || h.alive pid)

module _ (h : Host) (n m : Bytes) (fs : Store) where
  same_cell : same_name n m ≡ true → fs n ≡ fs m
  same_cell e = ap fs (same_name→eq n m e)

  pub plock_check_kept : is_kept h (fs m) ≡ true → (plock_check h n fs).1 m ≡ fs m
  unfolding plock_check remove_stale
  plock_check_kept k = ground (arith, same_cell)

  pub plock_check_own : (plock_check h n fs).1 m ≡ some h.self → fs m ≡ some h.self
  unfolding plock_check remove_stale
  plock_check_own k = ground (arith, same_cell)

  pub plock_create_kept : is_kept h (fs m) ≡ true → (plock_create h n fs).1 m ≡ fs m
  unfolding plock_create plock_link plock_check remove_stale link_again
  plock_create_kept k = ground (arith, same_cell)

  pub plock_create_own :
      (plock_create h n fs).1 m ≡ some h.self
      → (fs m ≡ some h.self)
        ⊎ ((same_name n m ≡ true) × ((plock_create h n fs).0 ≡ plock_ok) × (h.writable n ≡ true))
  unfolding plock_create plock_link plock_check remove_stale link_again
  plock_create_own k = elim (Bool-cases (same_name n m)) [
    | inl same ↦ ground (arith, same_cell)
    | inr other ↦ inl (ground arith)
  ]

  pub plock_remove_kept : is_kept h (fs m) ≡ true → (plock_remove h n fs).1 m ≡ fs m
  unfolding plock_remove plock_read
  plock_remove_kept k = ground (arith, same_cell)

  pub plock_remove_own :
      0 < h.self
      → (plock_remove h n fs).1 m ≡ some h.self
      → (fs m ≡ some h.self) × ((same_name n m && h.writable n) ≡ false)
  unfolding plock_remove plock_read
  plock_remove_own pos k = (ground (arith, same_cell), ground (arith, same_cell))
