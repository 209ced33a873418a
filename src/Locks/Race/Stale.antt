-- ===== src/Locks/Race/Stale.antt =====
-- The lock of a process that is gone, and two processes that want it (source/bforce/u_plock.c).
use binkleyforce.Base.{ℕ, ◌<◌, ◌≡◌, ◌≢◌, refl, sym, ap, arith, Bool, true, false, Option, some}
use binkleyforce.Locks.Race.{
  Pc, idle, writing, linking, stating, reading, killing, unlinking, linking_again, held, turn,
  read_lock, System, is_free, create, call, Reach, here, next,
}

-- A state that can be reached, by the file and what the two processes are about to do.
record Gets (alive : ℕ → Bool) (start : System) (i j : ℕ) (lock : Option ℕ) (p q : Pc)
    : Type 0 where
  state : System
  reach : Reach alive start state
  file : state.lock ≡ lock
  first : state.pc i ≡ p
  second : state.pc j ≡ q

module _ {alive : ℕ → Bool} {start : System} {i j : ℕ} where
  -- The first process makes its next call.
  then_call :
      {lock lock' : Option ℕ} {p p' q : Pc}
      → 0 < i
      → alive i ≡ true
      → i ≢ j
      → turn alive i p lock ≡ (p', lock')
      → Gets alive start i j lock p q
      → Gets alive start i j lock' p' q
  then_call {lock} {lock'} {p} {p'} pos lives other e g =
      let called : turn alive i (g.state.pc i) g.state.lock ≡ (p', lock') =
        rw (g.first, g.file) e in
      record {
        state = _;
        reach = next g.reach (call i pos lives);
        file = ap (λ x. x.1) called;
        first = ground (arith, ap (λ x. x.0) called);
        second = ground (arith, g.second);
      }

  other_first :
      {lock : Option ℕ} {p q : Pc} → Gets alive start i j lock p q → Gets alive start j i lock q p
  other_first g = record {
    state = g.state;
    reach = g.reach;
    file = g.file;
    first = g.second;
    second = g.first;
  }

module _ {alive : ℕ → Bool} {start : System} {i j : ℕ} where
  -- The first process finds that the lock is stale.
  finds_stale :
      {gone : ℕ} {q : Pc}
      → 0 < i
      → alive i ≡ true
      → i ≢ j
      → 0 < gone
      → alive gone ≡ false
      → Gets alive start i j (some gone) writing q
      → Gets alive start i j (some gone) unlinking q
  unfolding turn read_lock
  finds_stale {gone} pos lives other real stale s =
      then_call {lock = some gone} {p = killing gone} pos lives other (ground arith) (
        then_call {lock = some gone} {p = reading} pos lives other (ground arith) (
          then_call {lock = some gone} {p = stating} pos lives other refl (
            then_call {lock = some gone} {p = linking} pos lives other refl
              (then_call {lock = some gone} {p = writing} pos lives other refl s))))

  -- The first process removes the file and makes its own.
  takes_over :
      {pid : ℕ} {q : Pc}
      → 0 < i
      → alive i ≡ true
      → i ≢ j
      → Gets alive start i j (some pid) unlinking q
      → Gets alive start i j (some i) held q
  unfolding turn
  takes_over {pid} pos lives other s =
      then_call {p = linking_again} pos lives other refl
        (then_call {p = unlinking} pos lives other refl s)

-- From the lock of a process that is gone, any two processes that live can both come to have the
-- lock: both see that it is stale, and the second removes the new lock of the first.
pub stale_lock_held_twice :
    (alive : ℕ → Bool) (s : System) (i j gone : ℕ)
    → 0 < i
    → 0 < j
    → i ≢ j
    → alive i ≡ true
    → alive j ≡ true
    → 0 < gone
    → alive gone ≡ false
    → s.lock ≡ some gone
    → s.pc i ≡ idle
    → s.pc j ≡ idle
    → (t : System) × Reach alive s t × (t.pc i ≡ held) × (t.pc j ≡ held)
stale_lock_held_twice alive s i j gone pos_i pos_j other lives_i lives_j real stale lock at_i at_j =
    let begun : Gets alive s i j (some gone) writing writing = record {
      state = _;
      reach = next (next here (create i pos_i (ap is_free at_i))) (create j pos_j (ground arith));
      file = lock;
      first = ground arith;
      second = ground arith;
    } in
    let both =
      finds_stale pos_j lives_j (λ e. other (sym e)) real stale
        (other_first (finds_stale pos_i lives_i other real stale begun)) in
    let first = takes_over pos_i lives_i other (other_first both) in
    let second = takes_over pos_j lives_j (λ e. other (sym e)) (other_first first) in
    (second.state, second.reach, second.second, second.first)
