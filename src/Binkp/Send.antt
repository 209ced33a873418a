-- ===== src/Binkp/Send.antt =====
-- `binkp_getforsend` of source/bforce/prot_binkp.c: the next block to send.
pub mod Result
pub mod Opening
pub mod Transfer
pub mod Handshake
use binkleyforce.Base.{
  ℕ, zero, suc, ◌+◌, Bool, true, false, not, ◌&&◌, ◌||◌, Option, none, some, List, [], ◌∷◌, ◌++◌,
  ◌==◌, if◌then◌else◌, Bytes, bit_and, length,
}
use binkleyforce.Base.Int.{ℤ, pos, ◌==ℤ◌}
use binkleyforce.Text.{print_int, string_bin_to_hex}
use binkleyforce.Crypt.{Keys, init_keys, absorb}
use binkleyforce.Address.{Faddr}
use binkleyforce.Session.{SysAddr, session_get_password}
use binkleyforce.Binkp.{
  Mode, bmode_incoming_handshake, bmode_outgoing_handshake, bmode_transfer, bmode_failoff,
  bmode_complete, is_incoming, is_outgoing, is_handshake, is_success, Bpmsg, bpmsg_nul, bpmsg_adr,
  bpmsg_pwd, bpmsg_file, bpmsg_ok, bpmsg_eob, Block, command, data_block, FileInfo, ProtInfo,
  SysInfo, BinkpState, Env, FileOps, fstat_waitack, p_compfinfo, send_info, set_send,
}
use binkleyforce.Binkp.Info.{opt_md5, print_finfo}
use binkleyforce.Binkp.Send.Result.{Sending, send_block, send_error}
use binkleyforce.Binkp.Send.Opening.{send_handshake}
use binkleyforce.Binkp.Send.Transfer.{send_transfer}

-- A command of the receiver goes first.
unfoldable pub send_extracmd :
    {World : Type 0} → BinkpState World → Bpmsg × Bytes → BinkpState World × Sending
send_extracmd st (msg, text) =
    let sent = record st { extracmd = none } in
    (
      if st.extraislast then record sent { phase = 100; complete = true } else sent,
      send_block (command msg text),
    )

unfoldable pub binkp_getforsend :
    {World : Type 0} → Env World → FileOps World → BinkpState World → BinkpState World × Sending
unfolding send_extracmd send_handshake send_transfer
binkp_getforsend env ops st =
    let handshake = send_handshake env st in
    let transfer = send_transfer ops st in
    elim st.extracmd [
      | some c ↦ send_extracmd st c
      | none ↦ elim st.mode [
        | bmode_incoming_handshake ↦ handshake
        | bmode_outgoing_handshake ↦ handshake
        | bmode_transfer ↦ transfer
        | _ ↦ (st, send_error)
      ]
    ]
