-- ===== src/Locks/Outbound.antt =====
-- The locks of addresses (source/bforce/outb_bsy.c), in the build without BFORCE_USE_CSY.
pub mod Cells
pub mod Busy
pub mod Clean
pub mod Exclusive
use binkleyforce.Base.{
  Bool, true, false, not, ◌||◌, Option, none, some, List, [], ◌∷◌, ◌++◌, Bytes, if◌then◌else◌,
}
use binkleyforce.Text.{strnxcpy, strnxcat}
use binkleyforce.Address.{Faddr, ftn_addrcomp}
use binkleyforce.Locks.{
  Host, Store, Plock, plock_ok, plock_exist, plock_error, plock_ourlock, plock_check, plock_create,
  plock_remove,
}

-- The names of an address in the three outbounds, 4D, domain and Amiga in this order, none where
-- there is no such outbound.
abbrev pub Names : Type 0
Names = List (Option Bytes)

-- `s_bsylist`; a name is kept for each file that was created.
pub record BsyEntry : Type 0 where
  pub addr : Faddr
  pub names : Names

-- The files and `bsylist`.
pub record Locks : Type 0 where
  pub store : Store
  pub bsylist : List BsyEntry

-- The buffers have BFORCE_MAX_PATH + 1 bytes.
unfoldable pub lock_name : Bytes → Bytes
lock_name name = strnxcat (strnxcpy name 257) (b'.' ∷ b'b' ∷ b's' ∷ b'y' ∷ []) 257

unfoldable pub out_bsy_file_check : Host → Bytes → Store → Plock × Store
out_bsy_file_check h name fs = plock_check h (lock_name name) fs

unfoldable pub out_bsy_file_create : Host → Bytes → Store → Plock × Store
out_bsy_file_create h name fs = plock_create h (lock_name name) fs

unfoldable pub out_bsy_file_unlink : Host → Bytes → Store → Store
out_bsy_file_unlink h name fs = (plock_remove h (lock_name name) fs).1

-- Whether one of the files is locked by another process.
unfoldable pub check_files : Host → Names → Store → Bool × Store
unfolding out_bsy_file_check
check_files h [] fs = (false, fs)
check_files h (none ∷ names) fs = check_files h names fs
check_files h (some name ∷ names) fs =
    let checked = out_bsy_file_check h name fs in
    let rest = check_files h names checked.1 in
    elim checked.0 [ plock_exist ↦ (true, checked.1) | _ ↦ rest ]

-- `isfailed`, the names that were locked, and the files. A name whose lock meets an error counts as
-- not locked, and no more.
unfoldable pub create_files : Host → Names → Store → Bool × Names × Store
unfolding out_bsy_file_create
create_files h [] fs = (false, [], fs)
create_files h (none ∷ names) fs = let r = create_files h names fs in (r.0, none ∷ r.1, r.2)
create_files h (some name ∷ names) fs =
    let created = out_bsy_file_create h name fs in
    let r = create_files h names created.1 in
    elim created.0 [
      | plock_ok ↦ (r.0, some name ∷ r.1, r.2)
      | plock_exist ↦ (true, [], created.1)
      | plock_error ↦ (r.0, none ∷ r.1, r.2)
      | plock_ourlock ↦ (r.0, none ∷ r.1, r.2)
    ]

unfoldable pub unlink_files : Host → Names → Store → Store
unfolding out_bsy_file_unlink
unlink_files h [] fs = fs
unlink_files h (none ∷ names) fs = unlink_files h names fs
unlink_files h (some name ∷ names) fs = unlink_files h names (out_bsy_file_unlink h name fs)

unfoldable pub already_locked : List BsyEntry → Faddr → Bool
already_locked [] addr = false
already_locked (e ∷ list) addr = not (ftn_addrcomp e.addr addr) || already_locked list addr

module _ (h : Host) where
  -- What is left when the files were created, or one of them was locked meanwhile.
  unfoldable pub out_bsy_finish : Faddr → List BsyEntry → Bool × Names × Store → Bool × Locks
  unfolding unlink_files
  out_bsy_finish addr list created =
      if created.0
      then (true, record { store = unlink_files h created.1 created.2; bsylist = list })
      else (
        false,
        record {
          store = created.2;
          bsylist = list ++ record { addr = addr; names = created.1 } ∷ [];
        },
      )

  unfoldable pub unlock_entries : List BsyEntry → Store → Store
  unfolding unlink_files
  unlock_entries [] fs = fs
  unlock_entries (e ∷ list) fs = unlock_entries list (unlink_files h e.names fs)

  unfoldable pub out_bsy_unlockall : Locks → Locks
  unfolding unlock_entries
  out_bsy_unlockall st = record { store = unlock_entries st.bsylist st.store; bsylist = [] }

  module _ (out_getname : Faddr → Names) where
    -- `true` is the -1 of an address that is locked.
    unfoldable pub out_bsy_check : Faddr → Store → Bool × Store
    unfolding check_files
    out_bsy_check addr fs = check_files h (out_getname addr) fs

    unfoldable pub out_bsy_lock : Faddr → Locks → Bool × Locks
    unfolding check_files create_files out_bsy_finish already_locked
    out_bsy_lock addr st =
        let checked = check_files h (out_getname addr) st.store in
        if already_locked st.bsylist addr
        then (false, st)
        else if checked.0
        then (true, record st { store = checked.1 })
        else out_bsy_finish addr st.bsylist (create_files h (out_getname addr) checked.1)
