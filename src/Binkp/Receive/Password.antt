-- ===== src/Binkp/Receive/Password.antt =====
-- When the receiver believes the caller, and what a handshake cannot touch.
use binkleyforce.Base.{
  ◌+◌, ◌≡◌, refl, sym, ap, ◌∙◌, arith, Bool, true, false, not, ◌&&◌, ◌⊎◌, inl, inr, Option, none,
  some, List, [], ◌∷◌, ◌==◌, Bytes, length,
}
use binkleyforce.Text.{span_until, strnxcpy}
use binkleyforce.Session.{SysAddr, session_addrs_check}
use binkleyforce.Session.Passwords.{any_judged, session_addrs_check_result}
use binkleyforce.Binkp.{is_incoming, SysInfo, BinkpState, Env, FileOps}
use binkleyforce.Binkp.Info.{after}
use binkleyforce.Binkp.Remote.{binkp_auth_incoming}
use binkleyforce.Binkp.Receive.{
  write_data, count_data, finish_file, receive_data, binkp_doreceiveblock,
}
use binkleyforce.Binkp.Receive.Dispatch.{binkp_doreceiveblock_all, IsPwd}
use binkleyforce.Binkp.Receive.Reply.{Accepting, proto_error, queue, queue_last}
use binkleyforce.Binkp.Receive.Handshake.{
  receive_nul, receive_adr, receive_pwd, receive_ok, authorize, lock_addresses, with_addresses,
  check_called, reply_options,
}
use binkleyforce.Binkp.Receive.Files.{
  receive_file, receive_eob, receive_got_skip, receive_get, confirm, confirm_named, check_confirmed,
  send_from, rewind, get_other, get_current, open_file,
}

-- The password of an M_PWD: what stands in front of a zero.
abbrev pub offered : Bytes → Bytes
offered rest = strnxcpy (span_until (λ c. c == 0) rest).0 (length rest + 1)

abbrev pub cram_front : Bytes
cram_front = b'C' ∷ b'R' ∷ b'A' ∷ b'M' ∷ b'-' ∷ b'M' ∷ b'D' ∷ b'5' ∷ b'-' ∷ []

-- What is held against the passwords: the text itself, or the digest in it and our challenge.
abbrev pub answer_in : Bytes → Bytes → Option Bytes → Bytes × Option Bytes
answer_in challenge passwd none = (passwd, none)
answer_in challenge passwd (some digest) = (digest, some challenge)

abbrev pub answer : Bytes → Bytes → Bytes × Option Bytes
answer [] passwd = (passwd, none)
answer (c ∷ challenge) passwd = answer_in (c ∷ challenge) passwd (after cram_front passwd)

module _ {World : Type 0} (env : Env World) where
  -- There are addresses, and the answer is right for one of them or wrong for none.
  abbrev pub Right : Bytes × Option Bytes → List SysAddr → Type 0
  Right (passwd, challenge) [] = ⊥
  Right (passwd, challenge) (s ∷ addrs) =
      (any_judged env.md5_cram env.conf passwd challenge true (s ∷ addrs) ≡ true)
      ⊎ (any_judged env.md5_cram env.conf passwd challenge false (s ∷ addrs) ≡ false)

  right_or_wrong :
      (right wrong : Bool) → (wrong && not right) ≡ false → (right ≡ true) ⊎ (wrong ≡ false)
  right_or_wrong true wrong h = inl refl
  right_or_wrong false false h = inr refl
  right_or_wrong false true h = cc

  check-Right :
      (passwd : Bytes) (challenge : Option Bytes) (addrs : List SysAddr) (protected : Bool)
      → (session_addrs_check env.md5_cram env.conf addrs passwd challenge protected).1 ≡ false
      → Right (passwd, challenge) addrs
  check-Right passwd challenge [] protected h = unfold session_addrs_check in cc
  check-Right passwd challenge (s ∷ addrs) protected h = right_or_wrong _ _ (
      sym (session_addrs_check_result env.md5_cram env.conf passwd challenge s addrs protected).0
      ∙ h)

  binkp_auth_incoming_checks :
      (remote : SysInfo) (addrs : List SysAddr) (protected : Bool)
      → binkp_auth_incoming env remote addrs protected ≡ (
          let a = answer remote.challenge remote.passwd in
          session_addrs_check env.md5_cram env.conf addrs a.0 a.1 protected)
  unfolding binkp_auth_incoming
  binkp_auth_incoming_checks remote addrs protected = ground arith

  auth-Right :
      (remote : SysInfo) (addrs : List SysAddr) (protected : Bool)
      → (binkp_auth_incoming env remote addrs protected).1 ≡ false
      → Right (answer remote.challenge remote.passwd) addrs
  auth-Right remote addrs protected h =
      let a = answer remote.challenge remote.passwd in
      check-Right a.0 a.1 addrs protected
        (ap (λ r. r.1) (sym (binkp_auth_incoming_checks remote addrs protected)) ∙ h)

module _ {World : Type 0} (env : Env World) (ops : FileOps World) where
  -- The flag is as it was.
  abbrev Kept : BinkpState World → BinkpState World × Accepting → Type 0
  Kept st result = result.0.password_received ≡ st.password_received

  receive_adr-Kept : (text : Bytes) (st : BinkpState World) → Kept st (receive_adr env text st)
  unfolding receive_adr with_addresses check_called reply_options queue queue_last proto_error
  receive_adr-Kept text st = ground arith

  receive_ok-Kept : (st : BinkpState World) → Kept st (receive_ok env st)
  unfolding receive_ok lock_addresses queue_last proto_error
  receive_ok-Kept st = ground arith

  receive_file-Kept : (text : Bytes) (st : BinkpState World) → Kept st (receive_file ops text st)
  unfolding receive_file open_file queue proto_error
  receive_file-Kept text st = ground arith

  receive_eob-Kept : (st : BinkpState World) → Kept st (receive_eob st)
  unfolding receive_eob proto_error
  receive_eob-Kept st = ground arith

  receive_got_skip-Kept :
      (is_skip : Bool) (text : Bytes) (st : BinkpState World)
      → Kept st (receive_got_skip ops is_skip text st)
  unfolding receive_got_skip confirm_named confirm check_confirmed proto_error
  receive_got_skip-Kept is_skip text st = ground arith

  receive_get-Kept : (text : Bytes) (st : BinkpState World) → Kept st (receive_get ops text st)
  unfolding receive_get get_current get_other rewind send_from queue proto_error
  receive_get-Kept text st = ground arith

  receive_data-Kept : (buf : Bytes) (st : BinkpState World) → Kept st (receive_data ops buf st)
  unfolding receive_data write_data count_data finish_file queue proto_error
  receive_data-Kept [] st = refl
  receive_data-Kept (b ∷ buf) st = ground arith

  -- What the receiver found out before it believes the caller: the password of the message is right.
  abbrev pub Believed : Bytes → BinkpState World → Type 0
  Believed rest st =
      (is_incoming st.mode ≡ true)
      × (st.address_established ≡ true)
      × Right env (answer env.local_data.challenge (offered rest)) st.remoteaddrs
      × ((lock_addresses env (authorize env rest st).0).1 ≡ false)

  receive_pwd-guards :
      (rest : Bytes) (st : BinkpState World)
      → st.password_received ≡ false
      → (receive_pwd env rest st).0.password_received ≡ true
      → (is_incoming st.mode ≡ true)
        × (st.address_established ≡ true)
        × ((authorize env rest st).1 ≡ false)
        × ((lock_addresses env (authorize env rest st).0).1 ≡ false)
  unfolding receive_pwd authorize lock_addresses queue_last proto_error
  receive_pwd-guards rest st h k = ground arith

  authorize-Right :
      (rest : Bytes) (st : BinkpState World)
      → (authorize env rest st).1 ≡ false
      → Right env (answer env.local_data.challenge (offered rest)) st.remoteaddrs
  unfolding authorize
  authorize-Right rest st h =
      auth-Right env
        (record (st.remote_data) { passwd = offered rest; challenge = env.local_data.challenge })
        st.remoteaddrs st.protected h

  receive_pwd-Believed :
      (rest : Bytes) (st : BinkpState World)
      → st.password_received ≡ false
      → (receive_pwd env rest st).0.password_received ≡ true
      → Believed rest st
  receive_pwd-Believed rest st h k =
      let g = receive_pwd-guards rest st h k in (g.0, g.1, authorize-Right rest st g.2, g.3)

  -- The receiver begins to believe the other side only on an M_PWD, when it was called, knows the
  -- addresses of the caller, and could lock one of them; and the password of the message, or the digest
  -- in it where a challenge was given and the message begins with CRAM-MD5-, is right for one of
  -- these addresses or wrong for none. (Our own addresses, and those with no password, do not count.)
  pub binkp_doreceiveblock-Believed :
      (is_cmd : Bool) (buf : Bytes) (st : BinkpState World)
      → st.password_received ≡ false
      → (binkp_doreceiveblock ops env is_cmd buf st).0.password_received ≡ true
      → (rest : Bytes) × IsPwd is_cmd buf rest × Believed rest st
  binkp_doreceiveblock-Believed is_cmd buf st h k =
      binkp_doreceiveblock_all env ops
        (λ result.
          result.0.password_received ≡ true
          → (rest : Bytes) × IsPwd is_cmd buf rest × Believed rest st)
        st is_cmd buf
        (record {
          on_error = λ k. absurd (unfold proto_error in ground arith);
          on_nul = λ text k. absurd (unfold receive_nul in ground arith);
          on_adr = λ text k. absurd (ground (arith, receive_adr-Kept text st));
          on_file = λ text k. absurd (ground (arith, receive_file-Kept text st));
          on_ok = λ k. absurd (ground (arith, receive_ok-Kept st));
          on_eob = λ k. absurd (ground (arith, receive_eob-Kept st));
          on_got_skip =
              λ is_skip text k. absurd (ground (arith, receive_got_skip-Kept is_skip text st));
          on_abort = λ k. absurd (ground arith);
          on_get = λ text k. absurd (ground (arith, receive_get-Kept text st));
          on_data = λ buf k. absurd (ground (arith, receive_data-Kept buf st));
        })
        (λ rest shape k. (rest, shape, receive_pwd-Believed rest st h k)) k
