-- ===== src/Session/Tests.antt =====
-- The theorems on addresses and passwords at concrete lists.
use binkleyforce.Base.{
  ℕ, ◌≡◌, refl, Bool, true, false, not, ◌&&◌, ◌||◌, none, List, [], ◌∷◌, map, Bytes,
}
use binkleyforce.Address.{Faddr, ftn_addrcomp}
use binkleyforce.Address.Parse.Traditional.{numbered}
use binkleyforce.Session.{
  SysAddr, Conf, session_get_bestaka, present, session_addrs_add, session_addrs_to_falist,
  session_addrs_check, session_addrs_lock,
}
use binkleyforce.Session.Passwords.{
  any_judged, accepted, session_addrs_check_result, session_addrs_check_good,
}
use binkleyforce.Session.Addresses.{
  Distinct, is_empty, session_addrs_add-Distinct, session_addrs_lock_result,
}
use binkleyforce.Session.BestAka.{Outcome, session_get_bestaka_best}

abbrev node : ℕ → Faddr
node n = numbered 2 5020 n 0 []

abbrev peer : ℕ → SysAddr
peer n = record { addr = node n; busy = false; good = false }

abbrev secret : Bytes
secret = b's' ∷ b'e' ∷ b'c' ∷ []

-- Our two addresses, the first of them hidden, and passwords for the nodes 1 and 2.
abbrev conf : Conf
conf = record {
  addresses = node 7 ∷ node 8 ∷ [];
  hidden = node 7 ∷ [];
  passwords = (node 1, secret) ∷ (node 2, b'x' ∷ []) ∷ [];
}

abbrev peers : List SysAddr
peers = peer 1 ∷ peer 2 ∷ []

abbrev digest : Bytes → Bytes → Bytes
digest passwd challenge = passwd

-- The locks are counted, and the second one fails.
abbrev lock : Bool → Faddr → Bool × Bool
lock taken a = (true, taken)

session_addrs_check_result_example :
    ((session_addrs_check digest conf peers secret none false).1 ≡ (
      any_judged digest conf secret none false peers
      && not (any_judged digest conf secret none true peers)))
    × ((session_addrs_check digest conf peers secret none false).0.1
        ≡ (false || any_judged digest conf secret none true peers))
session_addrs_check_result_example =
    session_addrs_check_result digest conf secret none (peer 1) (peer 2 ∷ []) false

session_addrs_check_good_example :
    (session_addrs_check digest conf peers secret none false).0.0
    ≡ map (accepted digest conf secret none) peers
session_addrs_check_good_example = session_addrs_check_good digest conf secret none peers false

peers-Distinct : Distinct peers
unfolding present ftn_addrcomp
peers-Distinct = (refl, (refl, tt))

session_addrs_add-Distinct_example :
    Distinct (session_addrs_add peers (node 2)).0
    × ((b : Faddr)
        → present (session_addrs_add peers (node 2)).0 b
          ≡ (present peers b || not (ftn_addrcomp (node 2) b)))
    × (session_addrs_add (session_addrs_add peers (node 2)).0 (node 2)
        ≡ ((session_addrs_add peers (node 2)).0, true))
session_addrs_add-Distinct_example = session_addrs_add-Distinct peers (node 2) peers-Distinct

session_get_bestaka_best_run :
    Outcome conf.hidden (node 1) conf.addresses none (session_get_bestaka conf (node 1))
session_get_bestaka_best_run = session_get_bestaka_best conf (node 1)

session_addrs_lock_result_example :
    (session_addrs_lock lock peers false).0.1
    ≡ is_empty (session_addrs_to_falist (session_addrs_lock lock peers false).0.0)
session_addrs_lock_result_example = session_addrs_lock_result lock peers false (refl, (refl, tt))
