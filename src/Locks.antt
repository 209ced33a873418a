-- ===== src/Locks.antt =====
-- Lock files (source/bforce/u_plock.c). The store says for each file name whether there is such a file,
-- and which process id stands in it, 0 if none can be read. The temporary file of `plock_create`
-- has a name that nobody else uses (`mktemp`) and is gone when the call ends, so it is not kept here.
pub mod Outbound
pub mod Race
mod Tests
use binkleyforce.Base.{
  ℕ, ◌≡◌, refl, ◌↔◌, arith, Bool, true, false, not, ◌&&◌, Option, none, some, List, [], ◌∷◌, ◌==◌,
  ==_iff, if◌then◌else◌, Bytes,
}
use binkleyforce.Text.{tail, has_char}

-- The process and its system: `kill(pid, 0)` does not answer ESRCH, the directory of a name can be
-- written, and `errno` is ENOENT from an earlier call.
pub record Host : Type 0 where
  pub self : ℕ
  pub alive : ℕ → Bool
  pub writable : Bytes → Bool
  pub enoent : Bool

abbrev pub Store : Type 0
Store = Bytes → Option ℕ

-- Whether two names are one.
unfoldable pub same_name : Bytes → Bytes → Bool
same_name [] [] = true
same_name [] (b ∷ t) = false
same_name (a ∷ s) [] = false
same_name (a ∷ s) (b ∷ t) = a == b && same_name s t

pub same_name_self : (s : Bytes) → same_name s s ≡ true
unfolding same_name
same_name_self [] = refl
same_name_self (a ∷ s) = ground (arith, same_name_self s)

pub same_name→eq : (s t : Bytes) → same_name s t ≡ true → s ≡ t
unfolding same_name
same_name→eq [] [] h = refl
same_name→eq [] (b ∷ t) h = cc
same_name→eq (a ∷ s) [] h = cc
same_name→eq (a ∷ s) (b ∷ t) h = ground (arith, same_name→eq s t)

abbrev pub put : Bytes → Option ℕ → Store → Store
put n c fs m = if same_name n m then c else fs m

pub data Plock : Type 0 where
  plock_ok plock_exist plock_error plock_ourlock : Plock

unfoldable pub plock_read : Bytes → Store → ℕ
plock_read n fs = elim (fs n) [ none ↦ 0 | some pid ↦ pid ]

-- The removal of a lock whose process is gone.
unfoldable pub remove_stale : Host → Bytes → Store → Plock × Store
remove_stale h n fs = if h.writable n then (plock_ok, put n none fs) else (plock_error, fs)

unfoldable pub plock_check : Host → Bytes → Store → Plock × Store
unfolding remove_stale
plock_check h n fs = elim (fs n) [
  | none ↦ (plock_ok, fs)
  | some pid ↦
      if pid == 0
      then (if h.enoent then plock_ok else plock_error, fs)
      else if pid == h.self
      then (plock_ourlock, fs)
      else if not (h.alive pid)
      then remove_stale h n fs
      else (plock_exist, fs)
]

-- `link`, which fails where there is a file of the name.
unfoldable pub link_again : Host → Bytes → Store → Plock × Store
link_again h n fs = elim (fs n) [
  | none ↦ (plock_ok, put n (some h.self) fs)
  | some _ ↦ (plock_error, fs)
]

-- From a temporary file with our process id.
unfoldable pub plock_link : Host → Bytes → Store → Plock × Store
unfolding link_again
plock_link h n fs = elim (fs n) [
  | none ↦ (plock_ok, put n (some h.self) fs)
  | some _ ↦
      let r = plock_check h n fs in
      elim r.0 [
        | plock_ok ↦ link_again h n r.1
        | plock_ourlock ↦ (plock_ok, r.1)
        | plock_exist ↦ (plock_exist, r.1)
        | plock_error ↦ (plock_error, r.1)
      ]
]

-- `strrchr` finds a separator that is not the first character.
unfoldable pub in_directory : Bytes → Bool
in_directory n = has_char (tail n) b'/'

-- `plock_write` fails where the directory of the temporary file cannot be written.
unfoldable pub plock_create : Host → Bytes → Store → Plock × Store
unfolding plock_link
plock_create h n fs =
    if in_directory n && h.writable n then plock_link h n fs else (plock_error, fs)

-- `true` is the 1 for a lock that was not there or could not be removed.
unfoldable pub plock_remove : Host → Bytes → Store → Bool × Store
unfolding plock_read
plock_remove h n fs =
    if plock_read n fs == 0
    then (true, fs)
    else if plock_read n fs == h.self
    then (if h.writable n then (false, put n none fs) else (true, fs))
    else (false, fs)
