-- ===== src/Session.antt =====
-- The addresses of the two sides of a session (source/bforce/sess_main.c): which are kept, checked
-- against the passwords of the configuration, and locked. `int` results that are zero for success
-- are a `Bool` here, `true` for non-zero.
pub mod Passwords
pub mod Addresses
pub mod BestAka
mod Tests
use binkleyforce.Base.{
  ℕ, ◌+◌, Bool, true, false, not, ◌&&◌, ◌||◌, Option, none, some, List, [], ◌∷◌, ◌++◌, ◌==◌, ltb,
  Bytes, if◌then◌else◌,
}
use binkleyforce.Text.{to_lower, strnxcpy, string_bin_to_hex}
use binkleyforce.Address.{Faddr, ftn_addrcomp, ftn_addrsmetric}

-- `s_sysaddr`; its `flags` are not used.
pub record SysAddr : Type 0 where
  pub addr : Faddr
  pub busy : Bool
  pub good : Bool

-- What the session reads of the configuration: `address`, `hide_our_aka` and `password`.
pub record Conf : Type 0 where
  pub addresses : List Faddr
  pub hidden : List Faddr
  pub passwords : List (Faddr × Bytes)

-- Whether an address of the list compares equal to `addr`.
unfoldable pub listed : List Faddr → Faddr → Bool
listed [] addr = false
listed (a ∷ rest) addr = not (ftn_addrcomp addr a) || listed rest addr

unfoldable pub session_check_addr : Conf → Faddr → Bool
unfolding listed
session_check_addr conf addr = listed conf.addresses addr

-- The password for an address, as much of it as the caller's buffer holds.
unfoldable pub find_password : List (Faddr × Bytes) → Faddr → ℕ → Option Bytes
find_password [] addr buflen = none
find_password ((a, what) ∷ rest) addr buflen =
    let later = find_password rest addr buflen in
    if not (ftn_addrcomp addr a) then some (strnxcpy what buflen) else later

unfoldable pub session_get_password : Conf → Faddr → ℕ → Option Bytes
unfolding find_password
session_get_password conf addr buflen = find_password conf.passwords addr buflen

-- The tests of the loop of `session_get_bestaka`: not hidden, and the first or a better match.
unfoldable pub takes_aka : List Faddr → Faddr → Option Faddr → ℕ → Faddr → Bool
unfolding listed
takes_aka hidden addr best bestl a =
    not (listed hidden a)
    && (ltb bestl (ftn_addrsmetric a addr) || elim best [ none ↦ true | some _ ↦ false ])

-- The loop over our addresses, with the best one and its metric so far.
unfoldable pub bestaka_loop : List Faddr → Faddr → List Faddr → Option Faddr → ℕ → Option Faddr
unfolding takes_aka
bestaka_loop hidden addr [] best bestl = best
bestaka_loop hidden addr (a ∷ rest) best bestl =
    let taken = takes_aka hidden addr best bestl a in
    bestaka_loop hidden addr rest (if taken then some a else best)
      (if taken then ftn_addrsmetric a addr else bestl)

unfoldable pub session_get_bestaka : Conf → Faddr → Option Faddr
unfolding bestaka_loop
session_get_bestaka conf addr = bestaka_loop conf.hidden addr conf.addresses none 0

unfoldable pub present : List SysAddr → Faddr → Bool
present [] addr = false
present (s ∷ addrs) addr = not (ftn_addrcomp s.addr addr) || present addrs addr

-- The list after the call, and whether the address was a duplicate.
unfoldable pub session_addrs_add : List SysAddr → Faddr → List SysAddr × Bool
unfolding present
session_addrs_add addrs addr =
    if present addrs addr
    then (addrs, true)
    else (addrs ++ (record { addr = addr; busy = false; good = false } ∷ []), false)

unfoldable pub session_addrs_check_genuine : List SysAddr → Faddr → Bool
unfolding present
session_addrs_check_genuine addrs expected = not (present addrs expected)

-- The addresses that are neither busy nor bad.
unfoldable pub session_addrs_to_falist : List SysAddr → List Faddr
session_addrs_to_falist [] = []
session_addrs_to_falist (s ∷ addrs) =
    let rest = session_addrs_to_falist addrs in if not s.busy && s.good then s.addr ∷ rest else rest

-- `strcasecmp(a, b) == 0`.
unfoldable pub case_equal : Bytes → Bytes → Bool
case_equal [] [] = true
case_equal (a ∷ s) (b ∷ t) = to_lower a == to_lower b && case_equal s t
case_equal _ _ = false

-- `md5_cram_get` is a parameter: the digest of a password and a challenge.
module _ (md5_cram : Bytes → Bytes → Bytes) where
  -- Is `passwd` the password `pbuf`, or its answer to the challenge? A null string is the empty one.
  unfoldable pub good_passwd : Bytes → Bytes → Option Bytes → Bool
  unfolding case_equal
  good_passwd pbuf [] challenge = false
  good_passwd pbuf (c ∷ passwd) none = case_equal (c ∷ passwd) pbuf
  good_passwd pbuf (c ∷ passwd) (some challenge) =
      case_equal (c ∷ passwd) (string_bin_to_hex (md5_cram pbuf challenge))

  -- What the loop of `session_addrs_check` keeps: the addresses, `failure`, `success`, and
  -- `state.protected`.
  pub record Check : Type 0 where
    pub addrs : List SysAddr
    pub failure : Bool
    pub success : Bool
    pub protected : Bool

  -- One round, on the address `s`. The statement behind `else log(…);` belongs to the loop's body,
  -- not to the `else`: it sets `good` whatever the password was.
  unfoldable pub check_one : Conf → Bytes → Option Bytes → SysAddr → Check → Check
  unfolding good_passwd session_check_addr session_get_password
  check_one conf passwd challenge s st =
      if session_check_addr conf s.addr
      then record st { addrs = st.addrs ++ (s ∷ []) }
      else let kept = record st { addrs = st.addrs ++ (record s { good = true } ∷ []) } in
        elim (session_get_password conf s.addr 32) [
          | none ↦ kept
          | some pbuf ↦
              if good_passwd pbuf passwd challenge
              then record kept { success = true; protected = true }
              else record kept { failure = true }
        ]

  unfoldable pub check_loop : Conf → Bytes → Option Bytes → List SysAddr → Check → Check
  unfolding check_one
  check_loop conf passwd challenge [] st = st
  check_loop conf passwd challenge (s ∷ rest) st =
      check_loop conf passwd challenge rest (check_one conf passwd challenge s st)

  -- The addresses and `state.protected` after the call, and the result.
  unfoldable pub session_addrs_check :
      Conf → List SysAddr → Bytes → Option Bytes → Bool → (List SysAddr × Bool) × Bool
  unfolding check_loop
  session_addrs_check conf [] passwd challenge protected = (([], protected), true)
  session_addrs_check conf (s ∷ addrs) passwd challenge protected =
      let st =
        check_loop conf passwd challenge (s ∷ addrs)
          (record { addrs = []; failure = false; success = false; protected = protected }) in
      ((st.addrs, st.protected), st.failure && not st.success)

-- The lock files: `out_bsy_lock` of source/bforce/outb_bsy.c, which takes the state of the locks
-- and an address and returns the new state and whether it failed.
module _ {ℓ} {Locks : Type ℓ} (out_bsy_lock : Locks → Faddr → Locks × Bool) where
  unfoldable pub lock_loop : List SysAddr → Bool → Locks → (List SysAddr × Bool) × Locks
  lock_loop [] one_lock locks = (([], one_lock), locks)
  lock_loop (s ∷ addrs) one_lock locks =
      let (locks', failed) = out_bsy_lock locks s.addr in
      let s' = if s.good && failed then record s { busy = true } else s in
      let ((rest, locked), last) =
        lock_loop addrs (if s.good && not failed then true else one_lock)
          (if s.good then locks' else locks) in
      ((s' ∷ rest, locked), last)

  -- The addresses after the call with the result, and the locks.
  unfoldable pub session_addrs_lock : List SysAddr → Locks → (List SysAddr × Bool) × Locks
  unfolding lock_loop
  session_addrs_lock addrs locks =
      let ((addrs', one_lock), locks') = lock_loop addrs false locks in
      ((addrs', not one_lock), locks')
