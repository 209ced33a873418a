-- ===== src/Binkp/Receive/Dispatch.antt =====
-- A property of the results of all handlers is one of the dispatch.
use binkleyforce.Base.{
  ℕ, ◌≡◌, refl, ap, Bool, true, false, ◌||◌, ◌==◌, ==_iff, [], ◌∷◌, Bytes, if◌then◌else◌,
}
use binkleyforce.Text.{span_until}
use binkleyforce.Binkp.{BinkpState, Env, FileOps, prc_remoteaborted}
use binkleyforce.Binkp.Receive.{
  receive_data, receive_command, receive_message, binkp_doreceiveblock,
}
use binkleyforce.Binkp.Receive.Reply.{Accepting, aborting, proto_error}
use binkleyforce.Binkp.Receive.Handshake.{receive_nul, receive_adr, receive_pwd, receive_ok}
use binkleyforce.Binkp.Receive.Files.{receive_file, receive_eob, receive_got_skip, receive_get}

if_lem {ℓ} :
    {A : Type ℓ} (P : A → Type 0) (b : Bool) (x y : A)
    → (b ≡ true → P x)
    → P y
    → P (if b then x else y)
if_lem P true x y hx hy = hx refl
if_lem P false x y hx hy = hy

-- The block is an M_PWD with this text.
abbrev pub IsPwd : Bool → Bytes → Bytes → Type 0
IsPwd is_cmd buf rest = (is_cmd ≡ true) × (buf ≡ 2 ∷ rest)

module _ {World : Type 0} (env : Env World) (ops : FileOps World)
    (P : BinkpState World × Accepting → Type 0) (st : BinkpState World) where
  -- What each handler is to satisfy in this state.
  pub record Handled : Type 0 where
    pub on_error : P (proto_error st)
    pub on_nul : (text : Bytes) → P (receive_nul text st)
    pub on_adr : (text : Bytes) → P (receive_adr env text st)
    pub on_file : (text : Bytes) → P (receive_file ops text st)
    pub on_ok : P (receive_ok env st)
    pub on_eob : P (receive_eob st)
    pub on_got_skip : (is_skip : Bool) (text : Bytes) → P (receive_got_skip ops is_skip text st)
    pub on_abort : P (record st { rc = prc_remoteaborted }, aborting)
    pub on_get : (text : Bytes) → P (receive_get ops text st)
    pub on_data : (buf : Bytes) → P (receive_data ops buf st)

  receive_command_all :
      (msg : ℕ) (rest : Bytes)
      → Handled
      → (msg ≡ 2 → P (receive_pwd env rest st))
      → P (receive_command ops env msg rest st)
  unfolding receive_command
  receive_command_all msg rest h on_pwd =
      let text = (span_until (λ c. c == 0) rest).0 in
      if_lem P (msg == 0) _ _ (λ _. h.on_nul text)
        (if_lem P (msg == 1) _ _ (λ _. h.on_adr text)
          (if_lem P (msg == 2) _ _ (λ e. on_pwd ((==_iff msg 2).0 e))
            (if_lem P (msg == 3) _ _ (λ _. h.on_file text)
              (if_lem P (msg == 4) _ _ (λ _. h.on_ok)
                (if_lem P (msg == 5) _ _ (λ _. h.on_eob)
                  (if_lem P (msg == 6) _ _ (λ _. h.on_got_skip false text)
                    (if_lem P (msg == 7 || msg == 8) _ _ (λ _. h.on_abort)
                      (if_lem P (msg == 9) _ _ (λ _. h.on_get text)
                        (if_lem P (msg == 10) _ _ (λ _. h.on_got_skip true text) h.on_error)))))))))

  pub binkp_doreceiveblock_all :
      (is_cmd : Bool) (buf : Bytes)
      → Handled
      → ((rest : Bytes) → IsPwd is_cmd buf rest → P (receive_pwd env rest st))
      → P (binkp_doreceiveblock ops env is_cmd buf st)
  unfolding binkp_doreceiveblock receive_message
  binkp_doreceiveblock_all false buf h on_pwd = h.on_data buf
  binkp_doreceiveblock_all true [] h on_pwd = h.on_error
  binkp_doreceiveblock_all true (msg ∷ rest) h on_pwd =
      receive_command_all msg rest h (λ e. on_pwd rest (refl, ap (λ m. m ∷ rest) e))
