-- ===== src/Locks/Tests.antt =====
-- Runs of the lock files, and the theorems at concrete inputs.
use binkleyforce.Base.{
  ℕ, ◌≡◌, ◌≢◌, ◌⊎◌, refl, arith, Bool, true, false, Option, none, some, List, [], ◌∷◌, ◌++◌, Bytes,
  ltb, if◌then◌else◌,
}
use binkleyforce.Base.Int.{pos}
use binkleyforce.Text.{strnxcat, has_char}
use binkleyforce.Address.{Faddr}
use binkleyforce.Session.{SysAddr, session_addrs_lock}
use binkleyforce.Locks.{
  Host, Store, same_name, plock_check, plock_create, plock_remove, in_directory,
}
use binkleyforce.Locks.Outbound.{
  Names, Locks, lock_name, already_locked, out_bsy_lock, out_bsy_unlockall,
}
use binkleyforce.Locks.Outbound.Clean.{lock_address, unlockall-session_addrs_lock}
use binkleyforce.Locks.Outbound.Cells.{is_kept}
use binkleyforce.Locks.Outbound.Busy.{busy}
use binkleyforce.Locks.Outbound.Exclusive.{out_bsy_lock_result, out_bsy_lock-excludes}
use binkleyforce.Locks.Race.{
  idle, writing, linking, held, removing, turn, update, System, Reach, here, next, create, call,
}
use binkleyforce.Locks.Race.Alone.{turns, outcome, wanted, released, turns-plock}
use binkleyforce.Locks.Race.Exclusion.{mutual_exclusion}
use binkleyforce.Locks.Race.Stale.{stale_lock_held_twice}

-- The processes up to 99 live.
abbrev process : ℕ → Host
process pid = record { self = pid; alive = λ p. ltb p 100; writable = λ n. true; enoent = false }

abbrev here_addr : Faddr
here_addr = record {
  inetform = false;
  zone = pos 2;
  net = pos 5020;
  node = pos 1398;
  point = pos 0;
  domain = [];
}

abbrev out : Bytes
out = b'/' ∷ b'o' ∷ b'/' ∷ b'1' ∷ []

abbrev amiga : Bytes
amiga = b'/' ∷ b'a' ∷ b'/' ∷ b'2' ∷ []

abbrev bsy : Bytes
bsy = b'.' ∷ b'b' ∷ b's' ∷ b'y' ∷ []

abbrev getname : Faddr → Names
getname addr = some out ∷ none ∷ some amiga ∷ []

-- A lock of process 8 of something else, and a stale one of process 200 in our way.
abbrev files : Store
files n =
    if same_name (b'/' ∷ b'x' ∷ bsy) n
    then some 8
    else if same_name (amiga ++ bsy) n
    then some 200
    else none

abbrev start : Locks
start = record { store = files; bsylist = [] }

abbrev after : Locks
after = (out_bsy_lock (process 7) getname here_addr start).1

locked_run :
    ((out_bsy_lock (process 7) getname here_addr start).0 ≡ false)
    × (after.store (amiga ++ bsy) ≡ some 7)
    × ((out_bsy_lock (process 9) getname here_addr (record { store = after.store; bsylist = [] })).0
        ≡ true)
unfolding out_bsy_lock lock_name strnxcat has_char plock_create plock_check in_directory same_name
locked_run = (refl, refl, refl)

abbrev peer : List SysAddr
peer = record { addr = here_addr; busy = false; good = true } ∷ []

unlockall-session_addrs_lock_example :
    let locked = (session_addrs_lock (lock_address (process 7) getname) peer start).1 in
    let end = out_bsy_unlockall (process 7) locked in
    (end.store (b'/' ∷ b'x' ∷ bsy) ≢ some 7)
    × ((is_kept (process 7) (files (b'/' ∷ b'x' ∷ bsy)) ≡ false)
        ⊎ (end.store (b'/' ∷ b'x' ∷ bsy) ≡ files (b'/' ∷ b'x' ∷ bsy)))
unlockall-session_addrs_lock_example =
    unlockall-session_addrs_lock (process 7) getname (omega arith) files (λ m e. ground arith) peer
      (b'/' ∷ b'x' ∷ bsy)

out_bsy_lock_result_example :
    (out_bsy_lock (process 7) getname here_addr start).0
    ≡ busy (process 7) (getname here_addr) files
unfolding already_locked
out_bsy_lock_result_example = out_bsy_lock_result (process 7) getname here_addr start refl

out_bsy_lock-excludes_example :
    (out_bsy_lock (process 9) getname here_addr (record { store = after.store; bsylist = [] })).0
    ≡ true
unfolding out_bsy_lock lock_name strnxcat has_char plock_create plock_check in_directory same_name
out_bsy_lock-excludes_example =
    out_bsy_lock-excludes (process 7) (process 9) getname here_addr start
      (record { store = after.store; bsylist = [] }) (omega arith) refl refl refl refl refl refl

turns-plock_example :
    (turns (process 7).alive 7 7 writing (files (amiga ++ bsy))
      ≡ wanted (process 7) (files (amiga ++ bsy)))
    × ((
      outcome (plock_create (process 7) (amiga ++ bsy) files).0,
      (plock_create (process 7) (amiga ++ bsy) files).1 (amiga ++ bsy),
    )
        ≡ wanted (process 7) (files (amiga ++ bsy)))
    × (turns (process 7).alive 7 2 removing (files (amiga ++ bsy))
        ≡ (idle, released (process 7) (files (amiga ++ bsy))))
    × ((plock_remove (process 7) (amiga ++ bsy) files).1 (amiga ++ bsy)
        ≡ released (process 7) (files (amiga ++ bsy)))
unfolding in_directory has_char
turns-plock_example = turns-plock (process 7) (amiga ++ bsy) files (omega arith) refl refl

abbrev alive : ℕ → Bool
alive p = ltb p 100

abbrev quiet : Option ℕ → System
quiet lock = record { lock = lock; pc = λ i. idle }

-- One process asks for the lock, a second one too, and the first makes its first two calls.
abbrev asked : System
asked = record { lock = none; pc = update 9 writing (update 7 writing (quiet none).pc) }

abbrev written : System
written = record { lock = none; pc = update 7 linking asked.pc }

abbrev linked : System
linked = record { lock = some 7; pc = update 7 held written.pc }

linked-Reach : Reach alive (quiet none) linked
unfolding turn
linked-Reach =
    next
      (next (next (next here (create 7 (omega arith) refl)) (create 9 (omega arith) refl))
        (call 7 (omega arith) refl))
      (call 7 (omega arith) refl)

mutual_exclusion_example : (◌≡◌ {A = ℕ} 7 7) × (linked.lock ≡ some 7)
mutual_exclusion_example =
    mutual_exclusion {alive = alive} {s = quiet none} {t = linked} tt (λ i. refl) linked-Reach 7 7
      refl refl

stale_lock_held_twice_example :
    (t : System) × Reach alive (quiet (some 200)) t × (t.pc 7 ≡ held) × (t.pc 8 ≡ held)
stale_lock_held_twice_example =
    stale_lock_held_twice alive (quiet (some 200)) 7 8 200 (omega arith) (omega arith) (omega arith)
      refl refl (omega arith) refl refl refl refl
