-- ===== src/Locks/Race/Alone.antt =====
-- The calls of a process that is alone, and the operations as a whole (source/bforce/u_plock.c).
use binkleyforce.Base.{
  ℕ, zero, suc, ◌<◌, ◌≡◌, arith, Bool, true, false, not, ◌&&◌, ◌||◌, ◌==◌, Option, none, some,
  Bytes, if◌then◌else◌,
}
use binkleyforce.Locks.{
  Host, Store, Plock, plock_ok, plock_exist, plock_error, plock_ourlock, plock_create, plock_link,
  plock_check, remove_stale, link_again, plock_remove, plock_read, in_directory, same_name_self,
}
use binkleyforce.Locks.Race.{Pc, idle, writing, held, refused, failed, removing, turn}

abbrev pub outcome : Plock → Pc
outcome plock_ok = held
outcome plock_exist = refused
outcome plock_error = failed
outcome plock_ourlock = held

module _ (alive : ℕ → Bool) (self : ℕ) where
  abbrev pub turns : ℕ → Pc → Option ℕ → Pc × Option ℕ
  turns zero pc lock = (pc, lock)
  turns (suc k) pc lock = let r = turn alive self pc lock in turns k r.0 r.1

-- What a call of `plock_create` is to do, by what stands in the lock file: the lock is got where there
-- is none, where it is ours, and where its process is gone.
abbrev pub wanted : Host → Option ℕ → Pc × Option ℕ
wanted h none = (held, some h.self)
wanted h (some pid) =
    if pid == 0
    then (failed, some pid)
    else if pid == h.self || not (h.alive pid)
    then (held, some h.self)
    else (refused, some pid)

-- Our own lock goes, any other stays.
abbrev pub released : Host → Option ℕ → Option ℕ
released h none = none
released h (some pid) = if pid == h.self then none else some pid

-- Where the lock file has a directory in its name, the directory can be written and `errno` is not
-- ENOENT from before: seven system calls of a process that nobody interrupts do what `plock_create`
-- does, and both get the lock if there is none, if it is ours, or if its process is gone, are refused
-- by the lock of another process that lives, and fail on a lock without a process id, the last two
-- with the file as it was. Two calls do what `plock_remove` does: both remove our own lock, and no
-- other.
pub turns-plock :
    (h : Host) (n : Bytes) (fs : Store)
    → 0 < h.self
    → h.enoent ≡ false
    → (in_directory n && h.writable n) ≡ true
    → (turns h.alive h.self 7 writing (fs n) ≡ wanted h (fs n))
      × ((outcome (plock_create h n fs).0, (plock_create h n fs).1 n) ≡ wanted h (fs n))
      × (turns h.alive h.self 2 removing (fs n) ≡ (idle, released h (fs n)))
      × ((plock_remove h n fs).1 n ≡ released h (fs n))
unfolding turn plock_create plock_link plock_check remove_stale link_again plock_remove plock_read
turns-plock h n fs pos fresh dir =
    (ground arith, ground (arith, same_name_self n), ground arith, ground (arith, same_name_self n))
