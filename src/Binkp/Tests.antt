-- ===== src/Binkp/Tests.antt =====
-- Runs of a session, and the theorems at concrete states.
use binkleyforce.Base.{
  ℕ, zero, suc, ◌^◌, ◌≡◌, refl, inl, inr, true, false, none, some, List, [], ◌∷◌, ◌++◌, Bytes,
}
use binkleyforce.Base.Int.{pos}
use binkleyforce.Crypt.{Keys, encrypt_buf, decrypt_buf}
use binkleyforce.Text.{
  strnxcpy, to_lower, tokens_loop, skip, span_until, string_token, string_tokens, atoi, read_digits,
  string_printable,
}
use binkleyforce.Address.{Faddr, ftn_addrcomp}
use binkleyforce.Address.Parse.{ftn_addrparse, number_at, addrstr2int, copy_domain}
use binkleyforce.Address.Parse.Traditional.{numbered}
use binkleyforce.Session.{
  SysAddr, session_get_password, session_addrs_check, session_addrs_lock, session_addrs_add,
  check_loop, case_equal, session_check_addr, listed, present, lock_loop, find_password,
  good_passwd,
}
use binkleyforce.Binkp.{
  bpmsg_nul, bpmsg_pwd, bpmsg_ok, command, SysInfo, ProtInfo, BinkpState, Env, FileOps, rx_error,
  write_failed,
}
use binkleyforce.Binkp.Info.{opt_md5, after}
use binkleyforce.Binkp.Remote.{add_each, binkp_process_adr, binkp_auth_incoming}
use binkleyforce.Binkp.Send.{binkp_getforsend, send_extracmd}
use binkleyforce.Binkp.Send.Result.{send_block}
use binkleyforce.Binkp.Send.Opening.{
  send_handshake, send_sysinfo, after_sysinfo, send_address, send_password, options_text,
  outgoing_keys, incoming_keys, send_challenge, has_option,
}
use binkleyforce.Binkp.Send.Handshake.{
  sends, after_sends, silence, introduction, addresses, said, challenge_line, sends_outgoing,
  sends_incoming,
}
use binkleyforce.Binkp.Cipher.{incoming_keys-outgoing_keys}
use binkleyforce.Binkp.Receive.{binkp_doreceiveblock, receive_message, receive_command}
use binkleyforce.Binkp.Receive.Reply.{queue}
use binkleyforce.Binkp.Receive.Handshake.{
  receive_adr, receive_pwd, with_addresses, reply_options, authorize, lock_addresses,
}
use binkleyforce.Binkp.Receive.Dispatch.{IsPwd}
use binkleyforce.Binkp.Receive.Suspend.{Waits, binkp_doreceiveblock-Waits}
use binkleyforce.Binkp.Receive.Password.{Believed, binkp_doreceiveblock-Believed}
use binkleyforce.Binkp.Receive.Refusal.{FilesUntouched, binkp_doreceiveblock-FilesUntouched}
use binkleyforce.Binkp.Loop.{start, binkp_incoming, binkp_outgoing}
use binkleyforce.Binkp.Loop.Secured.{Later, same, sent, received, Proved, binkp_getforsend-ok}

abbrev no_keys : Keys
no_keys = record { key0 = 0; key1 = 0; key2 = 0 }

abbrev secret : Bytes
secret = b's' ∷ b'e' ∷ b'c' ∷ []

abbrev info : Bytes → Bytes → SysInfo
info passwd challenge = record {
  passwd = passwd;
  systname = b'A' ∷ [];
  location = b'L' ∷ [];
  sysop = b'O' ∷ [];
  phone = b'1' ∷ [];
  flags = b'C' ∷ b'M' ∷ [];
  progname = b'b' ∷ b'f' ∷ [];
  protname = b'b' ∷ b'p' ∷ [];
  timestr = b'T' ∷ [];
  opt = [];
  majorver = pos 1;
  minorver = pos 1;
  options = 0;
  challenge = challenge;
  has_trf = false;
  trf_pkt = pos 0;
  trf_other = pos 0;
  keys_out = no_keys;
  keys_in = no_keys;
}

abbrev caller_address : Faddr
caller_address = numbered 2 5020 1398 0 []

abbrev env : Bytes → Bytes → Env ℕ
env passwd challenge = record {
  conf = record { addresses = []; hidden = []; passwords = (caller_address, secret) ∷ [] };
  local_data = info passwd challenge;
  localaddrs = record { addr = numbered 2 5020 1 0 []; busy = false; good = false } ∷ [];
  called = numbered 2 5020 1 0 [];
  node_nr = false;
  override_nr = λ a. false;
  ulong = 2 ^ 64;
  md5_cram = λ passwd challenge. challenge;
  out_bsy_lock = λ locks a. (suc locks, false);
}

-- A disk that refuses everything.
abbrev ops : FileOps ℕ
ops = record {
  p_tx_fopen = λ p hint. (p, true);
  p_tx_rewind = λ p offset. (p, true);
  p_tx_fclose = λ p. p;
  p_tx_readfile = λ p size. (p, none);
  p_rx_fopen = λ p fn sz tm. (p, rx_error);
  p_rx_writefile = λ p buf. (p, write_failed);
  p_rx_fclose = λ p. (p, true);
  unset = λ world. record { fn = []; sz = 0; tm = 0; offs = 0 };
}

abbrev here : Env ℕ
here = env [] []

abbrev files : ProtInfo ℕ
files = record { send = none; sentfiles = []; recv = none; world = 0 }

abbrev first : BinkpState ℕ
first = binkp_incoming (info [] []) files [] false

-- M_ADR 2:5020/1398
abbrev adr : Bytes
adr = 1 ∷ b'2' ∷ b':' ∷ b'5' ∷ b'0' ∷ b'2' ∷ b'0' ∷ b'/' ∷ b'1' ∷ b'3' ∷ b'9' ∷ b'8' ∷ []

abbrev introduced : BinkpState ℕ
introduced = (binkp_doreceiveblock ops here true adr first).0

abbrev believed : BinkpState ℕ
believed = (binkp_doreceiveblock ops here true (2 ∷ secret) introduced).0

abbrev later : ℕ → BinkpState ℕ → BinkpState ℕ
later zero st = st
later (suc n) st = later n (binkp_getforsend here ops st).0

later-Later :
    (n : ℕ) (st : BinkpState ℕ) → Later here ops first st → Later here ops first (later n st)
later-Later zero st r = r
later-Later (suc n) st r = later-Later n _ (sent st r refl)

believed-Later : Later here ops first believed
believed-Later = received introduced true _ (received first true _ (same refl) refl) refl

introduced_run : introduced.address_established ≡ true
unfolding binkp_incoming start binkp_doreceiveblock receive_message receive_command receive_adr
    with_addresses reply_options queue binkp_process_adr add_each string_tokens tokens_loop
    string_token skip span_until ftn_addrparse number_at addrstr2int copy_domain atoi read_digits
    string_printable strnxcpy session_addrs_add present
introduced_run = refl

introduced_reply :
    introduced.extracmd
    ≡ some (
      bpmsg_nul,
      b'O' ∷ b'P' ∷ b'T' ∷ b' ' ∷ b'M' ∷ b'B' ∷ b' ' ∷ b'C' ∷ b'R' ∷ b'Y' ∷ b'P' ∷ b'T' ∷ [],
    )
unfolding binkp_incoming start binkp_doreceiveblock receive_message receive_command receive_adr
    with_addresses reply_options queue binkp_process_adr add_each string_tokens tokens_loop
    string_token skip span_until ftn_addrparse number_at addrstr2int copy_domain atoi read_digits
    string_printable strnxcpy session_addrs_add present
introduced_reply = refl

believed_run : believed.password_received ≡ true
unfolding binkp_incoming start binkp_doreceiveblock receive_message receive_command receive_adr
    with_addresses reply_options queue binkp_process_adr add_each string_tokens tokens_loop
    string_token skip span_until ftn_addrparse number_at addrstr2int copy_domain atoi read_digits
    string_printable strnxcpy session_addrs_add present receive_pwd authorize lock_addresses
    binkp_auth_incoming after session_addrs_check check_loop session_check_addr listed
    session_get_password find_password ftn_addrcomp good_passwd case_equal to_lower
    session_addrs_lock lock_loop
believed_run = refl

not_believed_run : introduced.password_received ≡ false
unfolding binkp_incoming start binkp_doreceiveblock receive_message receive_command receive_adr
    with_addresses reply_options queue binkp_process_adr add_each string_tokens tokens_loop
    string_token skip span_until ftn_addrparse number_at addrstr2int copy_domain atoi read_digits
    string_printable strnxcpy session_addrs_add present
not_believed_run = refl

ok_run : (binkp_getforsend here ops (later 9 believed)).1 ≡ send_block (command bpmsg_ok [])
unfolding binkp_incoming start binkp_doreceiveblock receive_message receive_command receive_adr
    with_addresses reply_options queue binkp_process_adr add_each string_tokens tokens_loop
    string_token skip span_until ftn_addrparse number_at addrstr2int copy_domain atoi read_digits
    string_printable strnxcpy session_addrs_add present receive_pwd authorize lock_addresses
    binkp_auth_incoming after session_addrs_check check_loop session_check_addr listed
    session_get_password find_password ftn_addrcomp good_passwd case_equal to_lower
    session_addrs_lock lock_loop binkp_getforsend send_extracmd send_handshake send_sysinfo
    after_sysinfo send_address send_password send_challenge
ok_run = refl

binkp_getforsend-ok_example : Proved here ops first (later 9 believed)
binkp_getforsend-ok_example =
    binkp_getforsend-ok here ops (info [] []) files [] false (later 9 believed) []
      (later-Later 9 believed believed-Later) ok_run

binkp_doreceiveblock-Believed_example :
    (rest : Bytes) × IsPwd true (2 ∷ secret) rest × Believed here ops rest introduced
binkp_doreceiveblock-Believed_example =
    binkp_doreceiveblock-Believed here ops true (2 ∷ secret) introduced not_believed_run
      believed_run

-- An M_ADR that comes again while our options still wait.
binkp_doreceiveblock-Waits_example :
    Waits
      (
        bpmsg_nul,
        b'O' ∷ b'P' ∷ b'T' ∷ b' ' ∷ b'M' ∷ b'B' ∷ b' ' ∷ b'C' ∷ b'R' ∷ b'Y' ∷ b'P' ∷ b'T' ∷ [],
      )
      (binkp_doreceiveblock ops here true adr introduced).0
binkp_doreceiveblock-Waits_example =
    binkp_doreceiveblock-Waits
      (
        bpmsg_nul,
        b'O' ∷ b'P' ∷ b'T' ∷ b' ' ∷ b'M' ∷ b'B' ∷ b' ' ∷ b'C' ∷ b'R' ∷ b'Y' ∷ b'P' ∷ b'T' ∷ [],
      )
      here ops true adr introduced introduced_reply

-- M_FILE before the password.
abbrev early_file : Bytes
early_file = 3 ∷ b'f' ∷ b' ' ∷ b'9' ∷ b' ' ∷ b'1' ∷ b' ' ∷ b'0' ∷ []

binkp_doreceiveblock-FilesUntouched_example :
    FilesUntouched here ops first (binkp_doreceiveblock ops here true early_file first)
unfolding binkp_incoming start
binkp_doreceiveblock-FilesUntouched_example =
    binkp_doreceiveblock-FilesUntouched here ops first refl refl true early_file

abbrev caller : Env ℕ
caller = env secret []

password_found : session_get_password here.conf caller_address 32 ≡ some secret
unfolding session_get_password find_password ftn_addrcomp strnxcpy
password_found = refl

abbrev callers : List SysAddr
callers = record { addr = caller_address; busy = false; good = true } ∷ []

incoming_keys-outgoing_keys_example :
    let mine = incoming_keys here callers (info [] []) in
    let theirs = outgoing_keys caller (info [] []) in
    (decrypt_buf (2 ^ 64) (encrypt_buf (2 ^ 64) adr theirs.keys_out).0 mine.keys_in
      ≡ (adr, (encrypt_buf (2 ^ 64) adr theirs.keys_out).1))
    × (decrypt_buf (2 ^ 64) (encrypt_buf (2 ^ 64) adr mine.keys_out).0 theirs.keys_in
        ≡ (adr, (encrypt_buf (2 ^ 64) adr mine.keys_out).1))
incoming_keys-outgoing_keys_example =
    incoming_keys-outgoing_keys here caller refl (info [] []) callers (info [] []) adr
      (inr password_found, tt) (inl password_found)

abbrev calling : BinkpState ℕ
calling = binkp_outgoing caller (info [] []) files [] false

sends_outgoing_example :
    (sends caller ops 9 calling
      ≡ introduction caller ++ (said (options_text caller) ∷ addresses caller ∷ []))
    × (sends caller ops 5 (after_sends caller ops 9 calling) ≡ silence 5)
    × (after_sends caller ops 5 (after_sends caller ops 9 calling)
        ≡ after_sends caller ops 9 calling)
    × ((remote : SysInfo)
        → has_option opt_md5 remote.options ≡ false
        → (binkp_getforsend caller ops (record (after_sends caller ops 9 calling) {
          address_established = true;
          remote_data = remote;
        })).1
          ≡ send_block (command bpmsg_pwd secret))
unfolding binkp_outgoing start
sends_outgoing_example = sends_outgoing caller ops calling 5 refl refl refl refl

abbrev challenger : Env ℕ
challenger = env [] (1 ∷ 2 ∷ [])

sends_incoming_example :
    (sends challenger ops 9 first
      ≡ said (challenge_line (1 ∷ 2 ∷ []))
        ∷ (introduction challenger ++ (addresses challenger ∷ [])))
    × (sends challenger ops 5 (after_sends challenger ops 9 first) ≡ silence 5)
    × (after_sends challenger ops 5 (after_sends challenger ops 9 first)
        ≡ after_sends challenger ops 9 first)
    × ((binkp_getforsend challenger ops
          (record (after_sends challenger ops 9 first) { password_received = true })).1
        ≡ send_block (command bpmsg_ok []))
unfolding binkp_incoming start
sends_incoming_example = sends_incoming challenger ops first 5 1 (2 ∷ []) refl refl refl refl refl
