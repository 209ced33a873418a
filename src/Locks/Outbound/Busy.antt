-- ===== src/Locks/Outbound/Busy.antt =====
-- How the files of an address are checked and created, with regard to other processes
-- (source/bforce/outb_bsy.c).
use binkleyforce.Base.{
  ℕ, ◌<◌, ◌≡◌, ◌≢◌, refl, ap, arith, Bool, true, false, not, ◌&&◌, ◌||◌, Option, none, some, [],
  ◌∷◌, ◌==◌, Bytes,
}
use binkleyforce.Locks.{
  Host, Store, plock_exist, same_name, same_name_self, same_name→eq, plock_check, plock_create,
  plock_link, remove_stale, link_again, in_directory,
}
use binkleyforce.Locks.Outbound.{
  Names, lock_name, out_bsy_file_check, out_bsy_file_create, check_files, create_files,
}

-- A lock of another process that lives.
abbrev pub is_busy : Host → Option ℕ → Bool
is_busy h none = false
is_busy h (some pid) = not (pid == 0) && not (pid == h.self) && h.alive pid

abbrev pub is_readable : Option ℕ → Bool
is_readable none = true
is_readable (some pid) = not (pid == 0)

module _ (h : Host) (n m : Bytes) (fs : Store) where
  same_cell : same_name n m ≡ true → fs n ≡ fs m
  same_cell e = ap fs (same_name→eq n m e)

  plock_check_busy : is_busy h ((plock_check h n fs).1 m) ≡ is_busy h (fs m)
  unfolding plock_check remove_stale
  plock_check_busy = ground (arith, same_cell)

  plock_check_readable : is_readable (fs m) ≡ true → is_readable ((plock_check h n fs).1 m) ≡ true
  unfolding plock_check remove_stale
  plock_check_readable k = ground (arith, same_cell)

  plock_create_busy : is_busy h ((plock_create h n fs).1 m) ≡ is_busy h (fs m)
  unfolding plock_create plock_link plock_check remove_stale link_again
  plock_create_busy = ground (arith, same_cell)

  pub plock_create_readable :
      0 < h.self → is_readable (fs m) ≡ true → is_readable ((plock_create h n fs).1 m) ≡ true
  unfolding plock_create plock_link plock_check remove_stale link_again
  plock_create_readable pos k = ground (arith, same_cell)

  pub plock_create_again : 0 < h.self → fs m ≡ some h.self → (plock_create h n fs).1 m ≡ some h.self
  unfolding plock_create plock_link plock_check remove_stale link_again
  plock_create_again pos k = ground (arith, same_cell)

module _ (h : Host) (n : Bytes) (fs : Store) where
  plock_check_result : is_busy h (fs n) ≡ true → (plock_check h n fs).0 ≡ plock_exist
  unfolding plock_check remove_stale
  plock_check_result k = ground arith

  plock_check_other : is_busy h (fs n) ≡ false → (plock_check h n fs).0 ≢ plock_exist
  unfolding plock_check remove_stale
  plock_check_other k = ground arith

  pub plock_create_result : is_busy h (fs n) ≡ false → (plock_create h n fs).0 ≢ plock_exist
  unfolding plock_create plock_link plock_check remove_stale link_again
  plock_create_result k = ground arith

  pub plock_create_self :
      (in_directory n && h.writable n && is_readable (fs n)) ≡ true
      → is_busy h (fs n) ≡ false
      → (plock_create h n fs).1 n ≡ some h.self
  unfolding plock_create plock_link plock_check remove_stale link_again
  plock_create_self k free = ground (arith, same_name_self n)

-- Whether another process that lives holds one of the names.
abbrev pub busy : Host → Names → Store → Bool
busy h [] fs = false
busy h (none ∷ names) fs = busy h names fs
busy h (some name ∷ names) fs = is_busy h (fs (lock_name name)) || busy h names fs

-- Whether one of the names can be locked: its directory can be written, and a lock that is there
-- has a process id.
abbrev pub lockable : Host → Names → Store → Bool
lockable h [] fs = false
lockable h (none ∷ names) fs = lockable h names fs
lockable h (some name ∷ names) fs =
    let m = lock_name name in
    (in_directory m && h.writable m && is_readable (fs m)) || lockable h names fs

-- Both look at the files one by one.
pub busy_eq :
    (h : Host) (names : Names) (fs gs : Store)
    → ((m : Bytes) → is_busy h (gs m) ≡ is_busy h (fs m))
    → busy h names gs ≡ busy h names fs
busy_eq h [] fs gs e = refl
busy_eq h (none ∷ names) fs gs e = busy_eq h names fs gs e
busy_eq h (some name ∷ names) fs gs e = ground (arith, e (lock_name name), busy_eq h names fs gs e)

pub lockable_mono :
    (h : Host) (names : Names) (fs gs : Store)
    → ((m : Bytes) → is_readable (fs m) ≡ true → is_readable (gs m) ≡ true)
    → lockable h names fs ≡ true
    → lockable h names gs ≡ true
lockable_mono h [] fs gs e k = k
lockable_mono h (none ∷ names) fs gs e k = lockable_mono h names fs gs e k
lockable_mono h (some name ∷ names) fs gs e k =
    ground (arith, e (lock_name name), lockable_mono h names fs gs e)

module _ (h : Host) where
  busy-plock_check :
      (n : Bytes) (names : Names) (fs : Store)
      → busy h names (plock_check h n fs).1 ≡ busy h names fs
  busy-plock_check n names fs =
      busy_eq h names fs (plock_check h n fs).1 (λ m. plock_check_busy h n m fs)

  pub busy-plock_create :
      (n : Bytes) (names : Names) (fs : Store)
      → busy h names (plock_create h n fs).1 ≡ busy h names fs
  busy-plock_create n names fs =
      busy_eq h names fs (plock_create h n fs).1 (λ m. plock_create_busy h n m fs)

  pub check_files_result :
      (names : Names) (fs : Store) → (check_files h names fs).0 ≡ busy h names fs
  unfolding check_files out_bsy_file_check
  check_files_result [] fs = refl
  check_files_result (none ∷ names) fs = check_files_result names fs
  check_files_result (some name ∷ names) fs =
      let n = lock_name name in
      ground (
        arith,
        plock_check_result h n fs,
        plock_check_other h n fs,
        check_files_result names (plock_check h n fs).1,
        busy-plock_check n names fs,
      )

  pub check_files_busy :
      (names : Names) (fs : Store) (m : Bytes)
      → is_busy h ((check_files h names fs).1 m) ≡ is_busy h (fs m)
  unfolding check_files out_bsy_file_check
  check_files_busy [] fs m = refl
  check_files_busy (none ∷ names) fs m = check_files_busy names fs m
  check_files_busy (some name ∷ names) fs m =
      let n = lock_name name in
      ground (arith, plock_check_busy h n m fs, check_files_busy names (plock_check h n fs).1 m)

  pub check_files_readable :
      (names : Names) (fs : Store) (m : Bytes)
      → is_readable (fs m) ≡ true
      → is_readable ((check_files h names fs).1 m) ≡ true
  unfolding check_files out_bsy_file_check
  check_files_readable [] fs m k = k
  check_files_readable (none ∷ names) fs m k = check_files_readable names fs m k
  check_files_readable (some name ∷ names) fs m k =
      let n = lock_name name in
      ground
        (arith, plock_check_readable h n m fs, check_files_readable names (plock_check h n fs).1 m)

  pub create_files_result :
      (names : Names) (fs : Store) → busy h names fs ≡ false → (create_files h names fs).0 ≡ false
  unfolding create_files out_bsy_file_create
  create_files_result [] fs k = refl
  create_files_result (none ∷ names) fs k = create_files_result names fs k
  create_files_result (some name ∷ names) fs k =
      let n = lock_name name in
      ground (
        arith,
        plock_create_result h n fs,
        create_files_result names (plock_create h n fs).1,
        busy-plock_create n names fs,
      )

  pub create_files_keeps :
      0 < h.self
      → (names : Names) (fs : Store) (m : Bytes) → fs m ≡ some h.self
      → (create_files h names fs).2 m ≡ some h.self
  unfolding create_files out_bsy_file_create
  create_files_keeps pos [] fs m k = k
  create_files_keeps pos (none ∷ names) fs m k = create_files_keeps pos names fs m k
  create_files_keeps pos (some name ∷ names) fs m k =
      let n = lock_name name in
      ground
        (arith, plock_create_again h n m fs, create_files_keeps pos names (plock_create h n fs).1 m)
