-- ===== src/Binkp/Send/Handshake.antt =====
-- What the two sides say in the handshake, and in which order (`binkp_getforsend` of
-- source/bforce/prot_binkp.c).
use binkleyforce.Base.{
  ℕ, zero, suc, ◌+◌, ◌≡◌, refl, ap, ◌∙◌, arith, true, false, none, List, [], ◌∷◌, ◌++◌, Bytes,
}
use binkleyforce.Text.{string_bin_to_hex}
use binkleyforce.Binkp.{
  bmode_incoming_handshake, bmode_outgoing_handshake, bpmsg_nul, bpmsg_adr, bpmsg_pwd, bpmsg_ok,
  command, SysInfo, BinkpState, Env, FileOps,
}
use binkleyforce.Binkp.Info.{opt_md5}
use binkleyforce.Binkp.Send.{binkp_getforsend}
use binkleyforce.Binkp.Send.Result.{Sending, nothing_to_send, send_block}
use binkleyforce.Binkp.Send.Opening.{
  send_handshake, send_challenge, send_sysinfo, after_sysinfo, send_address, send_password,
  version_text, options_text, print_addresses, has_option,
}

abbrev pub challenge_line : Bytes → Bytes
challenge_line challenge =
    b'O'
    ∷ b'P'
    ∷ b'T'
    ∷ b' '
    ∷ b'C'
    ∷ b'R'
    ∷ b'A'
    ∷ b'M'
    ∷ b'-'
    ∷ b'M'
    ∷ b'D'
    ∷ b'5'
    ∷ b'-'
    ∷ string_bin_to_hex challenge

-- So many calls that send nothing.
abbrev pub silence : ℕ → List Sending
silence zero = []
silence (suc n) = nothing_to_send ∷ silence n

abbrev pub said : Bytes → Sending
said text = send_block (command bpmsg_nul text)

module _ {World : Type 0} (env : Env World) where
  -- Our system, in seven lines.
  abbrev pub introduction : List Sending
  introduction =
      let l = env.local_data in
      said (b'S' ∷ b'Y' ∷ b'S' ∷ b' ' ∷ l.systname)
      ∷ said (b'Z' ∷ b'Y' ∷ b'Z' ∷ b' ' ∷ l.sysop)
      ∷ said (b'L' ∷ b'O' ∷ b'C' ∷ b' ' ∷ l.location)
      ∷ said (b'P' ∷ b'H' ∷ b'N' ∷ b' ' ∷ l.phone)
      ∷ said (b'N' ∷ b'D' ∷ b'L' ∷ b' ' ∷ l.flags)
      ∷ said (b'T' ∷ b'I' ∷ b'M' ∷ b'E' ∷ b' ' ∷ l.timestr)
      ∷ said (version_text env l)
      ∷ []

  abbrev pub addresses : Sending
  addresses = send_block (command bpmsg_adr (print_addresses false env.localaddrs))

module _ {World : Type 0} (env : Env World) (ops : FileOps World) where
  -- What so many calls of the sender return, with nothing coming in between.
  abbrev pub sends : ℕ → BinkpState World → List Sending
  sends zero st = []
  sends (suc n) st = let (st', m) = binkp_getforsend env ops st in m ∷ sends n st'

  -- The state behind them.
  abbrev pub after_sends : ℕ → BinkpState World → BinkpState World
  after_sends zero st = st
  after_sends (suc n) st = after_sends n (binkp_getforsend env ops st).0

  waiting-sends :
      (st : BinkpState World)
      → binkp_getforsend env ops st ≡ (st, nothing_to_send)
      → (n : ℕ) → (sends n st ≡ silence n) × (after_sends n st ≡ st)
  waiting-sends st h zero = (refl, refl)
  waiting-sends st h (suc n) =
      rw h (ap (λ l. nothing_to_send ∷ l) (waiting-sends st h n).0, (waiting-sends st h n).1)

  challenge_none :
      (st : BinkpState World)
      → st.mode ≡ bmode_outgoing_handshake
      → send_challenge env st ≡ send_sysinfo env (record st { phase = st.phase + 1; subphase = 0 })
  unfolding send_challenge
  challenge_none st h = ground arith

  challenge_sent :
      (st : BinkpState World) (c : ℕ) (challenge : Bytes)
      → st.mode ≡ bmode_incoming_handshake
      → env.local_data.challenge ≡ c ∷ challenge
      → send_challenge env st
        ≡ (record st { phase = st.phase + 1; subphase = 0 }, said (challenge_line (c ∷ challenge)))
  unfolding send_challenge
  challenge_sent st c challenge m h = rw (m, h) refl

  outgoing_waits :
      (st : BinkpState World)
      → st.mode ≡ bmode_outgoing_handshake
      → st.phase ≡ 3
      → st.extracmd ≡ none
      → st.address_established ≡ false
      → binkp_getforsend env ops st ≡ (st, nothing_to_send)
  unfolding binkp_getforsend send_handshake send_password
  outgoing_waits st m p x a = ground arith

  incoming_waits :
      (st : BinkpState World)
      → st.mode ≡ bmode_incoming_handshake
      → st.phase ≡ 3
      → st.extracmd ≡ none
      → st.password_received ≡ false
      → binkp_getforsend env ops st ≡ (st, nothing_to_send)
  unfolding binkp_getforsend send_handshake send_password
  incoming_waits st m p x a = ground arith

  outgoing_opening :
      (st : BinkpState World)
      → st.mode ≡ bmode_outgoing_handshake
      → st.phase ≡ 0
      → st.extracmd ≡ none
      → sends 9 st ≡ introduction env ++ (said (options_text env) ∷ addresses env ∷ [])
  unfolding binkp_getforsend send_handshake send_sysinfo after_sysinfo send_address
  outgoing_opening st m p x =
      rw (m, p, x)
        (rw
          (challenge_none
            (record st { mode = bmode_outgoing_handshake; phase = 0; extracmd = none }) refl)
          refl)

  outgoing_first :
      (st : BinkpState World)
      → st.mode ≡ bmode_outgoing_handshake
      → st.phase ≡ 0
      → st.extracmd ≡ none
      → (binkp_getforsend env ops st).0 ≡ record st { phase = 1; subphase = 1 }
  unfolding binkp_getforsend send_handshake send_sysinfo after_sysinfo send_address
  outgoing_first st m p x =
      rw (m, p, x)
        (rw
          (challenge_none
            (record st { mode = bmode_outgoing_handshake; phase = 0; extracmd = none }) refl)
          refl)

  outgoing_opened :
      (st : BinkpState World)
      → st.mode ≡ bmode_outgoing_handshake
      → st.phase ≡ 0
      → st.extracmd ≡ none
      → after_sends 9 st ≡ record st { phase = 3; subphase = 0 }
  unfolding binkp_getforsend send_handshake send_sysinfo after_sysinfo send_address
  outgoing_opened st m p x = ap (after_sends 8) (outgoing_first st m p x) ∙ rw (m, x) refl

  incoming_opening :
      (st : BinkpState World) (c : ℕ) (challenge : Bytes)
      → env.local_data.challenge ≡ c ∷ challenge
      → st.mode ≡ bmode_incoming_handshake
      → st.phase ≡ 0
      → st.extracmd ≡ none
      → sends 9 st
        ≡ said (challenge_line (c ∷ challenge)) ∷ (introduction env ++ (addresses env ∷ []))
  unfolding binkp_getforsend send_handshake send_sysinfo after_sysinfo send_address
  incoming_opening st c challenge h m p x =
      rw (m, p, x)
        (rw
          (challenge_sent
            (record st { mode = bmode_incoming_handshake; phase = 0; extracmd = none }) c challenge
            refl h)
          refl)

  incoming_first :
      (st : BinkpState World) (c : ℕ) (challenge : Bytes)
      → env.local_data.challenge ≡ c ∷ challenge
      → st.mode ≡ bmode_incoming_handshake
      → st.phase ≡ 0
      → st.extracmd ≡ none
      → (binkp_getforsend env ops st).0 ≡ record st { phase = 1; subphase = 0 }
  unfolding binkp_getforsend send_handshake
  incoming_first st c challenge h m p x =
      rw (m, p, x)
        (rw
          (challenge_sent
            (record st { mode = bmode_incoming_handshake; phase = 0; extracmd = none }) c challenge
            refl h)
          refl)

  incoming_opened :
      (st : BinkpState World) (c : ℕ) (challenge : Bytes)
      → env.local_data.challenge ≡ c ∷ challenge
      → st.mode ≡ bmode_incoming_handshake
      → st.phase ≡ 0
      → st.extracmd ≡ none
      → after_sends 9 st ≡ record st { phase = 3; subphase = 0 }
  unfolding binkp_getforsend send_handshake send_sysinfo after_sysinfo send_address
  incoming_opened st c challenge h m p x =
      ap (after_sends 8) (incoming_first st c challenge h m p x) ∙ rw (m, x) refl

  -- A caller says, from the start, its seven lines, its options and its addresses; then, however
  -- often it is asked, nothing and with no change of its state, while it does not know the addresses
  -- of the other side. As soon as it does, and the other side has not asked for a digest, its next
  -- block is M_PWD with its password. No command of the receiver waits to be sent meanwhile.
  pub sends_outgoing :
      (st : BinkpState World) (n : ℕ)
      → st.mode ≡ bmode_outgoing_handshake
      → st.phase ≡ 0
      → st.extracmd ≡ none
      → st.address_established ≡ false
      → (sends 9 st ≡ introduction env ++ (said (options_text env) ∷ addresses env ∷ []))
        × (sends n (after_sends 9 st) ≡ silence n)
        × (after_sends n (after_sends 9 st) ≡ after_sends 9 st)
        × ((remote : SysInfo)
            → has_option opt_md5 remote.options ≡ false
            → (binkp_getforsend env ops
                (record (after_sends 9 st) { address_established = true; remote_data = remote })).1
              ≡ send_block (command bpmsg_pwd env.local_data.passwd))
  unfolding binkp_getforsend send_handshake send_password
  sends_outgoing st n m p x a =
      let end = outgoing_opened st m p x in
      let quiet =
        waiting-sends _ (outgoing_waits (record st { phase = 3; subphase = 0 }) m refl x a) n in
      (
        outgoing_opening st m p x,
        rw end quiet.0,
        rw end quiet.1,
        λ remote plain. rw end (rw (m, x, plain) refl),
      )

  -- The side called, with a challenge to give, says its challenge, its seven lines and its addresses;
  -- then, however often it is asked, nothing and with no change of its state, while the caller's
  -- password was not found right. As soon as it was, its next block is M_OK. No command of the
  -- receiver waits to be sent meanwhile.
  pub sends_incoming :
      (st : BinkpState World) (n : ℕ) (c : ℕ) (challenge : Bytes)
      → env.local_data.challenge ≡ c ∷ challenge
      → st.mode ≡ bmode_incoming_handshake
      → st.phase ≡ 0
      → st.extracmd ≡ none
      → st.password_received ≡ false
      → (sends 9 st
          ≡ said (challenge_line (c ∷ challenge)) ∷ (introduction env ++ (addresses env ∷ [])))
        × (sends n (after_sends 9 st) ≡ silence n)
        × (after_sends n (after_sends 9 st) ≡ after_sends 9 st)
        × ((binkp_getforsend env ops (record (after_sends 9 st) { password_received = true })).1
            ≡ send_block (command bpmsg_ok []))
  unfolding binkp_getforsend send_handshake send_password
  sends_incoming st n c challenge h m p x a =
      let end = incoming_opened st c challenge h m p x in
      let quiet =
        waiting-sends _ (incoming_waits (record st { phase = 3; subphase = 0 }) m refl x a) n in
      (
        incoming_opening st c challenge h m p x,
        rw end quiet.0,
        rw end quiet.1,
        rw end (rw (m, x) refl),
      )
