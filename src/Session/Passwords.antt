-- ===== src/Session/Passwords.antt =====
-- `session_addrs_check`: when it succeeds, and which addresses it leaves as good.
use mathlib.Core.List.{append_assoc, append-nil}
use binkleyforce.Base.{
  ◌≡◌, refl, sym, ap, ◌∙◌, arith, Bool, true, false, not, ◌&&◌, ◌||◌, Option, none, some, List, [],
  ◌∷◌, ◌++◌, map, Bytes, if◌then◌else◌,
}
use binkleyforce.Session.{
  SysAddr, Conf, session_check_addr, session_get_password, good_passwd, Check, check_one,
  check_loop, session_addrs_check,
}

module _ (md5_cram : Bytes → Bytes → Bytes) (conf : Conf) (passwd : Bytes)
    (challenge : Option Bytes) where
  -- An address that is not one of ours, has a password, and for which `passwd` passes, or fails.
  abbrev pub judged : Bool → SysAddr → Bool
  judged verdict s =
      not (session_check_addr conf s.addr) && elim (session_get_password conf s.addr 32) [
        | none ↦ false
        | some pbuf ↦ if good_passwd md5_cram pbuf passwd challenge then verdict else not verdict
      ]

  abbrev pub any_judged : Bool → List SysAddr → Bool
  any_judged verdict [] = false
  any_judged verdict (s ∷ addrs) = judged verdict s || any_judged verdict addrs

  -- Our own addresses are left as they are, and every other one is good.
  abbrev pub accepted : SysAddr → SysAddr
  accepted s = if session_check_addr conf s.addr then s else record s { good = true }

  record Round (s : SysAddr) (st st' : Check md5_cram) : Type 0 where
    grown : st'.addrs ≡ st.addrs ++ (accepted s ∷ [])
    failing : st'.failure ≡ (st.failure || judged false s)
    passing : st'.success ≡ (st.success || judged true s)
    protecting : st'.protected ≡ (st.protected || judged true s)

  check_one-Round :
      (s : SysAddr) (st : Check md5_cram)
      → Round s st (check_one md5_cram conf passwd challenge s st)
  unfolding check_one
  check_one-Round s st = ground arith

  record Rounds (addrs : List SysAddr) (st st' : Check md5_cram) : Type 0 where
    all_grown : st'.addrs ≡ st.addrs ++ map accepted addrs
    any_failing : st'.failure ≡ (st.failure || any_judged false addrs)
    any_passing : st'.success ≡ (st.success || any_judged true addrs)
    any_protecting : st'.protected ≡ (st.protected || any_judged true addrs)

  or_assoc : (a b c : Bool) → ((a || b) || c) ≡ (a || (b || c))
  or_assoc a b c = ground arith

  check_loop-Rounds :
      (addrs : List SysAddr) (st : Check md5_cram)
      → Rounds addrs st (check_loop md5_cram conf passwd challenge addrs st)
  unfolding check_loop
  check_loop-Rounds [] st = record {
    all_grown = sym (append-nil st.addrs);
    any_failing = ground arith;
    any_passing = ground arith;
    any_protecting = ground arith;
  }
  check_loop-Rounds (s ∷ addrs) st =
      let one = check_one-Round s st in
      let rest = check_loop-Rounds addrs (check_one md5_cram conf passwd challenge s st) in
      record {
        all_grown =
            rest.all_grown
            ∙ ap (λ l. l ++ map accepted addrs) one.grown
            ∙ append_assoc st.addrs (accepted s ∷ []) (map accepted addrs);
        any_failing =
            rest.any_failing
            ∙ ap (λ b. b || any_judged false addrs) one.failing
            ∙ or_assoc st.failure (judged false s) (any_judged false addrs);
        any_passing =
            rest.any_passing
            ∙ ap (λ b. b || any_judged true addrs) one.passing
            ∙ or_assoc st.success (judged true s) (any_judged true addrs);
        any_protecting =
            rest.any_protecting
            ∙ ap (λ b. b || any_judged true addrs) one.protecting
            ∙ or_assoc st.protected (judged true s) (any_judged true addrs);
      }

  -- On a list that is not empty, `session_addrs_check` fails exactly if the password is wrong for
  -- some address and right for none (our own addresses and those without a password do not count),
  -- and `state.protected` is set exactly if it was before or the password is right for one.
  pub session_addrs_check_result :
      (s : SysAddr) (addrs : List SysAddr) (protected : Bool)
      → ((session_addrs_check md5_cram conf (s ∷ addrs) passwd challenge protected).1
          ≡ (any_judged false (s ∷ addrs) && not (any_judged true (s ∷ addrs))))
        × ((session_addrs_check md5_cram conf (s ∷ addrs) passwd challenge protected).0.1
            ≡ (protected || any_judged true (s ∷ addrs)))
  unfolding session_addrs_check
  session_addrs_check_result s addrs protected =
      let r =
        check_loop-Rounds (s ∷ addrs)
          (record { addrs = []; failure = false; success = false; protected = protected }) in
      (rw (r.any_failing, r.any_passing) refl, r.any_protecting)

  -- After `session_addrs_check` every address that is not one of ours is marked good, those whose
  -- password was wrong included, and nothing else of the list changes.
  pub session_addrs_check_good :
      (addrs : List SysAddr) (protected : Bool)
      → (session_addrs_check md5_cram conf addrs passwd challenge protected).0.0
        ≡ map accepted addrs
  unfolding session_addrs_check
  session_addrs_check_good [] protected = refl
  session_addrs_check_good (s ∷ addrs) protected =
      (check_loop-Rounds (s ∷ addrs)
        (record { addrs = []; failure = false; success = false; protected = protected })).all_grown
