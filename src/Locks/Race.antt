-- ===== src/Locks/Race.antt =====
-- Several processes at one lock file (source/bforce/u_plock.c): `plock_create` and `plock_remove` as the
-- system calls that they make, since other processes run between them. The process ids are the
-- numbers from 1 on. The temporary file of a process is its own, which is what the name that
-- `mktemp` gives is for: so it always holds the process id of its writer, its removal touches
-- nothing that another process reads, and only its writing, which may fail, is a call of its own.
pub mod Alone
pub mod Exclusion
pub mod Stale
use binkleyforce.Base.{
  ℕ, ◌<◌, ◌≡◌, Bool, true, false, not, ◌||◌, Option, none, some, ◌==◌, if◌then◌else◌,
}

-- Where a process stands: before the next call, or with what `plock_create` has returned.
pub data Pc : Type 0 where
  idle : Pc
  writing : Pc  -- `plock_write` of the temporary file
  linking : Pc  -- `link` of `plock_link`
  stating : Pc  -- `stat` of `plock_check`
  reading : Pc  -- `plock_read` of `plock_check`
  killing : (pid : ℕ) → Pc  -- `kill(pid, 0)`
  unlinking : Pc  -- of the stale lock
  linking_again : Pc  -- the second `link` of `plock_link`
  held : Pc  -- PLOCK_OK
  refused : Pc  -- PLOCK_EXIST
  failed : Pc  -- PLOCK_ERROR
  removing : Pc  -- `plock_read` of `plock_remove`
  unlinking_own : Pc  -- `unlink` of `plock_remove`

-- `link`, with where the process goes on if there is a file.
abbrev try_link : ℕ → Pc → Option ℕ → Pc × Option ℕ
try_link self there none = (held, some self)
try_link self there (some pid) = (there, some pid)

unfoldable pub read_lock : ℕ → Option ℕ → Pc
read_lock self none = linking_again
read_lock self (some pid) = if pid == 0 then failed else if pid == self then held else killing pid

module _ (alive : ℕ → Bool) where
  -- One call of the process `self`.
  unfoldable pub turn : ℕ → Pc → Option ℕ → Pc × Option ℕ
  unfolding read_lock
  turn self writing lock = (linking, lock)
  turn self linking lock = try_link self stating lock
  turn self stating none = (linking_again, none)
  turn self stating (some pid) = (reading, some pid)
  turn self reading lock = (read_lock self lock, lock)
  turn self (killing pid) lock = (if alive pid then refused else unlinking, lock)
  turn self unlinking none = (failed, none)
  turn self unlinking (some pid) = (linking_again, none)
  turn self linking_again lock = try_link self failed lock
  turn self removing none = (idle, none)
  turn self removing (some pid) = (if pid == self then unlinking_own else idle, some pid)
  turn self unlinking_own lock = (idle, none)
  turn self pc lock = (pc, lock)

-- The file, none if there is none, and the processes.
pub record System : Type 0 where
  pub lock : Option ℕ
  pub pc : ℕ → Pc

abbrev pub update : ℕ → Pc → (ℕ → Pc) → ℕ → Pc
update i p pc j = if i == j then p else pc j

-- Whether a process may call `plock_create`: it has not the lock, and is not on its way to it. It may
-- call it again when it was refused.
abbrev pub is_free : Pc → Bool
is_free idle = true
is_free refused = true
is_free failed = true
is_free _ = false

-- Some process calls `plock_create` or `plock_remove`, or goes on by one call.
pub data Step (alive : ℕ → Bool) (s : System) : System → Type 0 where
  create :
      (i : ℕ)
      → 0 < i
      → is_free (s.pc i) ≡ true
      → Step alive s (record s { pc = update i writing s.pc })
  write_fails : (i : ℕ) → s.pc i ≡ writing → Step alive s (record s { pc = update i failed s.pc })
  remove : (i : ℕ) → s.pc i ≡ held → Step alive s (record s { pc = update i removing s.pc })
  call :
      (i : ℕ)
      → 0 < i
      → alive i ≡ true
      → Step alive s
          (let r = turn alive i (s.pc i) s.lock in record { lock = r.1; pc = update i r.0 s.pc })

pub data Reach (alive : ℕ → Bool) (s : System) : System → Type 0 where
  here : Reach alive s s
  next : {t u : System} → Reach alive s t → Step alive t u → Reach alive s u
