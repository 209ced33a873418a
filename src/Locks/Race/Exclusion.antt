-- ===== src/Locks/Race/Exclusion.antt =====
-- Mutual exclusion at one lock file (source/bforce/u_plock.c).
use binkleyforce.Base.{
  ℕ, ◌<◌, ◌≡◌, ◌≢◌, ◌⊎◌, inl, inr, refl, ap, arith, Bool, true, false, Option, none, some, ◌==◌,
  Bool-cases,
}
use binkleyforce.Locks.Race.{
  Pc, idle, writing, linking, stating, reading, killing, unlinking, linking_again, held, refused,
  failed, removing, unlinking_own, turn, read_lock, System, update, Step, create, write_fails,
  remove, call, Reach, here, next,
}

-- Whether a process has the lock: from the answer PLOCK_OK to the end of `plock_remove`.
abbrev pub has_lock : Pc → Bool
has_lock held = true
has_lock removing = true
has_lock unlinking_own = true
has_lock _ = false

-- What a process may have seen.
abbrev Sees : (ℕ → Bool) → Pc → Type 0
Sees alive (killing pid) = alive pid ≡ true
Sees alive unlinking = ⊥
Sees alive _ = Unit {0}

-- The process id in a lock is that of a process that lives.
abbrev pub Live : (ℕ → Bool) → Option ℕ → Type 0
Live alive none = Unit {0}
Live alive (some pid) = (alive pid ≡ true) × (0 < pid)

record Inv (alive : ℕ → Bool) (s : System) : Type 0 where
  live : Live alive s.lock
  owner : (i : ℕ) → has_lock (s.pc i) ≡ true → s.lock ≡ some i
  sees : (i : ℕ) → Sees alive (s.pc i)

-- What one call of a process `i` keeps: its own part of the invariant, and the locks of others.
record Kept (alive : ℕ → Bool) (i : ℕ) (lock : Option ℕ) (r : Pc × Option ℕ) : Type 0 where
  live : Live alive r.1
  owner : has_lock r.0 ≡ true → r.1 ≡ some i
  sees : Sees alive r.0
  others : (j : ℕ) → i ≢ j → lock ≡ some j → r.1 ≡ some j

-- A lock of a process that lives is read as ours, or as one to ask the system about.
read_lock_live :
    (alive : ℕ → Bool) (i pid : ℕ)
    → alive pid ≡ true
    → 0 < pid
    → ((pid ≡ i) × (read_lock i (some pid) ≡ held)) ⊎ (read_lock i (some pid) ≡ killing pid)
unfolding read_lock
read_lock_live alive i pid lives pos = elim (Bool-cases (pid == i)) [
  | inl same ↦ inl (ground arith, ground arith)
  | inr other ↦ inr (ground arith)
]

module _ (alive : ℕ → Bool) (i : ℕ) where
  same-Kept :
      (p : Pc) (lock : Option ℕ)
      → Live alive lock
      → (has_lock p ≡ true → lock ≡ some i)
      → Sees alive p
      → Kept alive i lock (p, lock)
  same-Kept p lock live owner sees = record {
    live = live;
    owner = owner;
    sees = sees;
    others = λ j ne e. e;
  }

  taken-Kept : 0 < i → alive i ≡ true → Kept alive i none (held, some i)
  taken-Kept pos lives = record {
    live = (lives, pos);
    owner = λ k. refl;
    sees = tt;
    others = λ j ne e. cc;
  }

  freed-Kept : (p : Pc) → has_lock p ≡ false → Sees alive p → Kept alive i (some i) (p, none)
  freed-Kept p free sees = record {
    live = tt;
    owner = λ k. cc;
    sees = sees;
    others = λ j ne e. absurd (ne (ground arith));
  }

  turn-Kept :
      (p : Pc) (lock : Option ℕ)
      → 0 < i
      → alive i ≡ true
      → Live alive lock
      → (has_lock p ≡ true → lock ≡ some i)
      → Sees alive p
      → Kept alive i lock (turn alive i p lock)
  unfolding turn
  turn-Kept writing lock pos lives live owner sees = same-Kept linking lock live (λ k. cc) tt
  turn-Kept linking none pos lives live owner sees = taken-Kept pos lives
  turn-Kept linking (some pid) pos lives live owner sees = same-Kept stating _ live (λ k. cc) tt
  turn-Kept stating none pos lives live owner sees = same-Kept linking_again _ live (λ k. cc) tt
  turn-Kept stating (some pid) pos lives live owner sees = same-Kept reading _ live (λ k. cc) tt
  turn-Kept reading none pos lives live owner sees =
      unfold read_lock in same-Kept linking_again _ live (λ k. cc) tt
  turn-Kept reading (some pid) pos lives live owner sees =
      elim (read_lock_live alive i pid live.0 live.1) [
        | inl (mine, e) ↦ rw e (same-Kept held _ live (λ k. ap some mine) tt)
        | inr e ↦ rw e (same-Kept (killing pid) _ live (λ k. cc) live.0)
      ]
  turn-Kept (killing pid) lock pos lives live owner sees =
      rw sees (same-Kept refused lock live (λ k. cc) tt)
  turn-Kept unlinking lock pos lives live owner sees = elim sees [ ]
  turn-Kept linking_again none pos lives live owner sees = taken-Kept pos lives
  turn-Kept linking_again (some pid) pos lives live owner sees =
      same-Kept failed _ live (λ k. cc) tt
  turn-Kept removing none pos lives live owner sees = same-Kept idle _ live (λ k. cc) tt
  turn-Kept removing (some pid) pos lives live owner sees =
      let mine = owner refl in
      let same : (pid == i) ≡ true = ground arith in
      rw same (same-Kept unlinking_own _ live (λ k. mine) tt)
  turn-Kept unlinking_own lock pos lives live owner sees = rw (owner refl) (freed-Kept idle refl tt)
  turn-Kept idle lock pos lives live owner sees = same-Kept idle lock live owner tt
  turn-Kept held lock pos lives live owner sees = same-Kept held lock live owner tt
  turn-Kept refused lock pos lives live owner sees = same-Kept refused lock live owner tt
  turn-Kept failed lock pos lives live owner sees = same-Kept failed lock live owner tt

-- A process on its way to the lock moves by itself.
moved-Inv :
    {alive : ℕ → Bool} {s : System} (i : ℕ) (p : Pc) (lock : Option ℕ)
    → Inv alive s
    → Kept alive i s.lock (p, lock)
    → Inv alive (record { lock = lock; pc = update i p s.pc })
moved-Inv {alive} {s} i p lock inv kept = record {
  live = kept.live;
  owner = λ j k. elim (Bool-cases (i == j)) [
    | inl same ↦ ground (arith, kept.owner)
    | inr other ↦ ground (arith, kept.others j, inv.owner j)
  ];
  sees = λ j. elim (Bool-cases (i == j)) [
    | inl same ↦ rw same kept.sees
    | inr other ↦ rw other (inv.sees j)
  ];
}

Step-Inv : {alive : ℕ → Bool} {s t : System} → Step alive s t → Inv alive s → Inv alive t
Step-Inv {alive} {s} (create i pos e) inv =
    moved-Inv i writing s.lock inv (same-Kept alive i writing s.lock inv.live (λ k. cc) tt)
Step-Inv {alive} {s} (write_fails i e) inv =
    moved-Inv i failed s.lock inv (same-Kept alive i failed s.lock inv.live (λ k. cc) tt)
Step-Inv {alive} {s} (remove i e) inv =
    moved-Inv i removing s.lock inv
      (same-Kept alive i removing s.lock inv.live (λ k. inv.owner i (ap has_lock e)) tt)
Step-Inv {alive} {s} (call i pos lives) inv =
    moved-Inv i _ _ inv
      (turn-Kept alive i (s.pc i) s.lock pos lives inv.live (inv.owner i) (inv.sees i))

Reach-Inv : {alive : ℕ → Bool} {s t : System} → Reach alive s t → Inv alive s → Inv alive t
Reach-Inv here inv = inv
Reach-Inv (next r st) inv = Step-Inv st (Reach-Inv r inv)

-- While no process dies, each has a temporary file of its own, and there was no lock at first or one
-- of a process that lives: no two processes have the lock at once, however their system calls are
-- interleaved and however often they call `plock_create` again after a refusal or a failure, and the
-- file holds the process id of the one that has it. (A process calls `plock_create` only while it has
-- not the lock, and `plock_remove` only while it has.)
pub mutual_exclusion :
    {alive : ℕ → Bool} {s t : System}
    → Live alive s.lock
    → ((i : ℕ) → s.pc i ≡ idle)
    → Reach alive s t
    → (i j : ℕ) → has_lock (t.pc i) ≡ true
    → has_lock (t.pc j) ≡ true
    → (i ≡ j) × (t.lock ≡ some i)
mutual_exclusion {alive} {s} live quiet r i j mine yours =
    let start : Inv alive s = record {
      live = live;
      owner = λ k has. ground (arith, quiet k);
      sees = λ k. rw (quiet k) tt;
    } in
    let inv = Reach-Inv r start in (ground (arith, inv.owner i, inv.owner j), inv.owner i mine)
