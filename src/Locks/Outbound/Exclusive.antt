-- ===== src/Locks/Outbound/Exclusive.antt =====
-- Who can lock an address (source/bforce/outb_bsy.c).
use binkleyforce.Base.{◌<◌, ◌≡◌, sym, ◌∙◌, ap, arith, true, false, none, some, [], ◌∷◌}
use binkleyforce.Address.{Faddr}
use binkleyforce.Locks.{Host, Store, plock_create}
use binkleyforce.Locks.Outbound.{
  Names, Locks, lock_name, out_bsy_file_create, check_files, create_files, already_locked,
  out_bsy_lock, out_bsy_finish,
}
use binkleyforce.Locks.Outbound.Busy.{
  is_busy, busy, lockable, plock_create_result, plock_create_self, plock_create_readable,
  busy-plock_create, check_files_result, check_files_busy, check_files_readable,
  create_files_result, create_files_keeps, busy_eq, lockable_mono,
}

-- What one process has created, another one finds.
create_files_holds :
    (h other : Host)
    → 0 < h.self
    → is_busy other (some h.self) ≡ true
    → (names : Names) (fs : Store) → busy h names fs ≡ false
    → lockable h names fs ≡ true
    → busy other names (create_files h names fs).2 ≡ true
unfolding create_files out_bsy_file_create
create_files_holds h other pos seen [] fs free k = cc
create_files_holds h other pos seen (none ∷ names) fs free k =
    create_files_holds h other pos seen names fs free k
create_files_holds h other pos seen (some name ∷ names) fs free k =
    let n = lock_name name in
    let gs = (plock_create h n fs).1 in
    ground (
      arith,
      plock_create_result h n fs,
      plock_create_self h n fs,
      create_files_keeps h pos names gs n,
      busy-plock_create h n names fs,
      lockable_mono h names fs gs (λ m. plock_create_readable h n m fs pos),
      create_files_holds h other pos seen names gs,
    )

-- An address that is not in `bsylist` is refused exactly if, when `out_bsy_lock` is called, another
-- process that lives holds one of its lock files.
pub out_bsy_lock_result :
    (h : Host) (out_getname : Faddr → Names) (addr : Faddr) (st : Locks)
    → already_locked st.bsylist addr ≡ false
    → (out_bsy_lock h out_getname addr st).0 ≡ busy h (out_getname addr) st.store
unfolding out_bsy_lock out_bsy_finish
out_bsy_lock_result h out_getname addr st new =
    let names = out_getname addr in
    let fs = (check_files h names st.store).1 in
    ground (
      arith,
      check_files_result h names st.store,
      busy_eq h names st.store fs (check_files_busy h names st.store),
      create_files_result h names fs,
    )

-- When a process has locked an address of which one lock file at least could be locked, a second
-- process that takes the first for alive cannot lock the address, unless its `bsylist` has it.
pub out_bsy_lock-excludes :
    (h other : Host) (out_getname : Faddr → Names) (addr : Faddr) (st st' : Locks)
    → 0 < h.self
    → is_busy other (some h.self) ≡ true
    → already_locked st.bsylist addr ≡ false
    → lockable h (out_getname addr) st.store ≡ true
    → (out_bsy_lock h out_getname addr st).0 ≡ false
    → st'.store ≡ (out_bsy_lock h out_getname addr st).1.store
    → already_locked st'.bsylist addr ≡ false
    → (out_bsy_lock other out_getname addr st').0 ≡ true
unfolding out_bsy_lock out_bsy_finish
out_bsy_lock-excludes h other out_getname addr st st' pos seen new usable locked files new' =
    let names = out_getname addr in
    let fs = (check_files h names st.store).1 in
    let result = out_bsy_lock_result h out_getname addr st new in
    let stored : st'.store ≡ (create_files h names fs).2 = ground (
      arith,
      check_files_result h names st.store,
      create_files_result h names fs,
      busy_eq h names st.store fs (check_files_busy h names st.store),
    ) in
    out_bsy_lock_result other out_getname addr st' new'
    ∙ ap (busy other names) stored
    ∙ create_files_holds h other pos seen names fs
        (busy_eq h names st.store fs (check_files_busy h names st.store) ∙ sym result ∙ locked)
        (lockable_mono h names st.store fs (check_files_readable h names st.store) usable)
