-- ===== src/Locks/Outbound/Clean.antt =====
-- What a session leaves of the lock files (source/bforce/outb_bsy.c).
use binkleyforce.Base.{
  ◌<◌, ◌≡◌, ◌≢◌, refl, ◌∙◌, ap, ◌⊎◌, inl, arith, Bool, true, false, if◌then◌else◌, ◌&&◌, ◌||◌, none,
  some, List, [], ◌∷◌, ◌++◌, Bytes, inr, Bool-cases,
}
use binkleyforce.Address.{Faddr}
use binkleyforce.Session.{SysAddr, lock_loop, session_addrs_lock}
use binkleyforce.Locks.{
  Host, Store, same_name, same_name→eq, plock_check, plock_create, plock_remove,
}
use binkleyforce.Locks.Outbound.{
  Names, BsyEntry, Locks, lock_name, out_bsy_file_check, out_bsy_file_create, out_bsy_file_unlink,
  check_files, create_files, unlink_files, out_bsy_lock, out_bsy_finish, unlock_entries,
  out_bsy_unlockall,
}
use binkleyforce.Locks.Outbound.Cells.{
  is_kept, plock_check_kept, plock_check_own, plock_create_kept, plock_create_own,
  plock_remove_kept, plock_remove_own,
}

-- Whether one of the names is locked by the file `m`.
abbrev pub owned : Names → Bytes → Bool
owned [] m = false
owned (none ∷ names) m = owned names m
owned (some name ∷ names) m = same_name (lock_name name) m || owned names m

abbrev pub owned_entries : List BsyEntry → Bytes → Bool
owned_entries [] m = false
owned_entries (e ∷ list) m = owned e.names m || owned_entries list m

owned_entries-append :
    (list : List BsyEntry) (e : BsyEntry) (m : Bytes)
    → owned_entries (list ++ e ∷ []) m ≡ (owned_entries list m || owned e.names m)
owned_entries-append [] e m = ground arith
owned_entries-append (d ∷ list) e m = ground (arith, owned_entries-append list e m)

module _ (h : Host) (m : Bytes) where
  check_files_own :
      (names : Names) (fs : Store) → (check_files h names fs).1 m ≡ some h.self → fs m ≡ some h.self
  unfolding check_files out_bsy_file_check
  check_files_own [] fs k = k
  check_files_own (none ∷ names) fs k = check_files_own names fs k
  check_files_own (some name ∷ names) fs k =
      let checked = plock_check h (lock_name name) fs in
      ground (arith, plock_check_own h (lock_name name) m fs, check_files_own names checked.1)

  check_files_kept :
      (names : Names) (fs : Store) → is_kept h (fs m) ≡ true → (check_files h names fs).1 m ≡ fs m
  unfolding check_files out_bsy_file_check
  check_files_kept [] fs k = refl
  check_files_kept (none ∷ names) fs k = check_files_kept names fs k
  check_files_kept (some name ∷ names) fs k =
      let checked = plock_check h (lock_name name) fs in
      ground (arith, plock_check_kept h (lock_name name) m fs, check_files_kept names checked.1)

  create_files_own :
      (names : Names) (fs : Store)
      → (create_files h names fs).2 m ≡ some h.self
      → (fs m ≡ some h.self)
        ⊎ ((owned (create_files h names fs).1 m ≡ true) × (h.writable m ≡ true))
  unfolding create_files out_bsy_file_create
  create_files_own [] fs k = inl k
  create_files_own (none ∷ names) fs k = create_files_own names fs k
  create_files_own (some name ∷ names) fs k =
      let created = plock_create h (lock_name name) fs in
      ground (
        arith,
        plock_create_own h (lock_name name) m fs,
        same_name→eq (lock_name name) m,
        create_files_own names created.1,
      )

  create_files_kept :
      (names : Names) (fs : Store) → is_kept h (fs m) ≡ true → (create_files h names fs).2 m ≡ fs m
  unfolding create_files out_bsy_file_create
  create_files_kept [] fs k = refl
  create_files_kept (none ∷ names) fs k = create_files_kept names fs k
  create_files_kept (some name ∷ names) fs k =
      let created = plock_create h (lock_name name) fs in
      ground (arith, plock_create_kept h (lock_name name) m fs, create_files_kept names created.1)

  unlink_files_own :
      0 < h.self
      → (names : Names) (fs : Store) → (unlink_files h names fs) m ≡ some h.self
      → (fs m ≡ some h.self) × ((owned names m && h.writable m) ≡ false)
  unfolding unlink_files out_bsy_file_unlink
  unlink_files_own pos [] fs k = (k, refl)
  unlink_files_own pos (none ∷ names) fs k = unlink_files_own pos names fs k
  unlink_files_own pos (some name ∷ names) fs k =
      let removed = plock_remove h (lock_name name) fs in
      let later = unlink_files_own pos names removed.1 k in
      let here = plock_remove_own h (lock_name name) m fs pos later.0 in
      (here.0, ground (arith, same_name→eq (lock_name name) m))

  unlink_files_kept :
      (names : Names) (fs : Store) → is_kept h (fs m) ≡ true → (unlink_files h names fs) m ≡ fs m
  unfolding unlink_files out_bsy_file_unlink
  unlink_files_kept [] fs k = refl
  unlink_files_kept (none ∷ names) fs k = unlink_files_kept names fs k
  unlink_files_kept (some name ∷ names) fs k =
      let removed = plock_remove h (lock_name name) fs in
      ground (arith, plock_remove_kept h (lock_name name) m fs, unlink_files_kept names removed.1)

  unlock_entries_own :
      0 < h.self
      → (list : List BsyEntry) (fs : Store) → (unlock_entries h list fs) m ≡ some h.self
      → (fs m ≡ some h.self) × ((owned_entries list m && h.writable m) ≡ false)
  unfolding unlock_entries
  unlock_entries_own pos [] fs k = (k, refl)
  unlock_entries_own pos (e ∷ list) fs k =
      let later = unlock_entries_own pos list (unlink_files h e.names fs) k in
      let here = unlink_files_own pos e.names fs later.0 in (here.0, ground arith)

  unlock_entries_kept :
      (list : List BsyEntry) (fs : Store)
      → is_kept h (fs m) ≡ true
      → (unlock_entries h list fs) m ≡ fs m
  unfolding unlock_entries
  unlock_entries_kept [] fs k = refl
  unlock_entries_kept (e ∷ list) fs k =
      let here = unlink_files_kept e.names fs k in
      unlock_entries_kept list (unlink_files h e.names fs) (ap (is_kept h) here ∙ k) ∙ here

  -- A file of ours is one that `bsylist` knows, and can be removed.
  abbrev Known : Locks → Type 0
  Known st = st.store m ≡ some h.self → (owned_entries st.bsylist m ≡ true) × (h.writable m ≡ true)

  module _ (out_getname : Faddr → Names) where
    out_bsy_lock-Known :
        0 < h.self
        → (addr : Faddr) (st : Locks) → Known st
        → Known (out_bsy_lock h out_getname addr st).1
    unfolding out_bsy_lock out_bsy_finish
    out_bsy_lock-Known pos addr st known =
        let names = out_getname addr in
        let fs = (check_files h names st.store).1 in
        let created = create_files h names fs in
        let entry : BsyEntry = record { addr = addr; names = created.1 } in
        ground (
          arith,
          known,
          check_files_own names st.store,
          create_files_own names fs,
          unlink_files_own pos created.1 created.2,
          owned_entries-append st.bsylist entry m,
        )

    out_bsy_lock_kept :
        (addr : Faddr) (st : Locks)
        → is_kept h (st.store m) ≡ true
        → (out_bsy_lock h out_getname addr st).1.store m ≡ st.store m
    unfolding out_bsy_lock out_bsy_finish
    out_bsy_lock_kept addr st k =
        let names = out_getname addr in
        let fs = (check_files h names st.store).1 in
        let created = create_files h names fs in
        ground (
          arith,
          check_files_kept names st.store,
          create_files_kept names fs,
          unlink_files_kept created.1 created.2,
        )

module _ (h : Host) (out_getname : Faddr → Names) where
  -- `out_bsy_lock` as `session_addrs_lock` calls it.
  abbrev pub lock_address : Locks → Faddr → Locks × Bool
  lock_address st addr = let r = out_bsy_lock h out_getname addr st in (r.1, r.0)

  lock_loop-Known :
      (m : Bytes)
      → 0 < h.self
      → (addrs : List SysAddr) (one : Bool) (st : Locks) → Known h m st
      → Known h m (lock_loop lock_address addrs one st).1
  unfolding lock_loop
  lock_loop-Known m pos [] one st known = known
  lock_loop-Known m pos (s ∷ addrs) one st known =
      let locked = out_bsy_lock-Known h m out_getname pos s.addr st known in
      lock_loop-Known m pos addrs _ _
        (elim (Bool-cases s.good) [ inl e ↦ rw e locked | inr e ↦ rw e known ])

  lock_loop_kept :
      (m : Bytes) (addrs : List SysAddr) (one : Bool) (st : Locks)
      → is_kept h (st.store m) ≡ true
      → (lock_loop lock_address addrs one st).1.store m ≡ st.store m
  unfolding lock_loop
  lock_loop_kept m [] one st k = refl
  lock_loop_kept m (s ∷ addrs) one st k =
      let locked = (out_bsy_lock h out_getname s.addr st).1 in
      let here : (if s.good then locked else st).store m ≡ st.store m = elim (Bool-cases s.good) [
        | inl e ↦ rw e (out_bsy_lock_kept h m out_getname s.addr st k)
        | inr e ↦ rw e refl
      ] in
      lock_loop_kept m addrs _ (if s.good then locked else st) (ap (is_kept h) here ∙ k) ∙ here

  -- A process that starts with no lock and no lock file of its own, locks the addresses of a session,
  -- each with success or not, and then unlocks all, leaves no lock file of its own, and every lock
  -- file of a process that lives, or without a readable process id, as it was.
  pub unlockall-session_addrs_lock :
      0 < h.self
      → (fs : Store) → ((m : Bytes) → fs m ≢ some h.self)
      → (addrs : List SysAddr) (m : Bytes)
      → let locked =
          (session_addrs_lock lock_address addrs (record { store = fs; bsylist = [] })).1 in
        let end = out_bsy_unlockall h locked in
        (end.store m ≢ some h.self) × ((is_kept h (fs m) ≡ false) ⊎ (end.store m ≡ fs m))
  unfolding out_bsy_unlockall session_addrs_lock
  unlockall-session_addrs_lock pos fs none_ours addrs m =
      let st : Locks = record { store = fs; bsylist = [] } in
      let locked = (lock_loop lock_address addrs false st).1 in
      let known = lock_loop-Known m pos addrs false st (λ k. absurd (none_ours m k)) in
      let before = lock_loop_kept m addrs false st in
      (
        λ k.
            let left = unlock_entries_own h m pos locked.bsylist locked.store k in
            let mine = known left.0 in ground arith,
        elim (Bool-cases (is_kept h (fs m))) [
          | inl k ↦ inr (
              unlock_entries_kept h m locked.bsylist locked.store (ap (is_kept h) (before k) ∙ k)
              ∙ before k)
          | inr k ↦ inl k
        ],
      )
