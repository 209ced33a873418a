-- ===== src/Binkp/Loop.antt =====
-- `binkp_loop` of source/bforce/prot_binkp.c with its three callers: the start, and the parts of one
-- round, between which `tty_select`, `tty_read` and `tty_write` choose what happens.
pub mod Secured
use binkleyforce.Base.{
  ℕ, suc, ◌+◌, ◌-◌, Bool, true, false, not, ◌&&◌, ◌||◌, Option, none, some, List, [], ◌∷◌, ◌++◌,
  Bytes, if◌then◌else◌, ◌==◌, length, drop, get_or, leb,
}
use binkleyforce.Crypt.{Keys, encrypt_buf, decrypt_buf}
use binkleyforce.Session.{SysAddr}
use binkleyforce.Binkp.{
  Mode, bmode_incoming_handshake, bmode_outgoing_handshake, bmode_transfer, is_transfer, Bpmsg,
  bpmsg_nul, bpmsg_adr, bpmsg_pwd, bpmsg_file, bpmsg_ok, bpmsg_eob, bpmsg_got, bpmsg_err, bpmsg_bsy,
  bpmsg_get, bpmsg_skip, Block, command, data_block, frs_nothing, Prc, prc_noerror, prc_error,
  prc_remoteaborted, ProtInfo, SysInfo, BinkpState, Env, FileOps,
}
use binkleyforce.Binkp.Frame.{write_header, Reader, take_in}
use binkleyforce.Binkp.Info.{opt_nr, opt_mb, opt_crypt}
use binkleyforce.Binkp.Send.{binkp_getforsend}
use binkleyforce.Binkp.Send.Result.{
  Sending, nothing_to_send, send_block, no_more_to_send, send_last, send_error, send_crash,
}
use binkleyforce.Binkp.Send.Opening.{has_option, outgoing_keys}
use binkleyforce.Binkp.Receive.{binkp_doreceiveblock}
use binkleyforce.Binkp.Receive.Reply.{
  Accepting, suspended, accepted, accepted_last, aborting, crashed,
}

-- The byte of a message.
unfoldable pub code : Bpmsg → ℕ
code bpmsg_nul = 0
code bpmsg_adr = 1
code bpmsg_pwd = 2
code bpmsg_file = 3
code bpmsg_ok = 4
code bpmsg_eob = 5
code bpmsg_got = 6
code bpmsg_err = 7
code bpmsg_bsy = 8
code bpmsg_get = 9
code bpmsg_skip = 10

-- The bytes of a block, its header first.
unfoldable pub block_bytes : Block → Bytes
unfolding write_header code
block_bytes (command msg text) = write_header true (length text + 1) ++ (code msg ∷ text)
block_bytes (data_block buf) = write_header false (length buf) ++ buf

module _ {World : Type 0} where
  -- The state as the loop sets it up. The addresses are those of the global state.
  unfoldable pub start : Mode → SysInfo → ProtInfo World → List SysAddr → Bool → BinkpState World
  unfolding has_option
  start mode remote pi addrs protected = record {
    mode = mode;
    phase = 0;
    subphase = 0;
    remote_data = remote;
    pi = pi;
    address_established = false;
    extracmd = none;
    extraislast = false;
    password_received = false;
    non_reliable = has_option opt_nr remote.options;
    multi_batch = has_option opt_mb remote.options;
    complete = false;
    batchsendcomplete = 0;
    batchreceivecomplete = 0;
    waiting_got = false;
    batch_send_count = 0;
    batch_recv_count = 0;
    frs = frs_nothing;
    continuesend = false;
    rc = prc_noerror;
    remoteaddrs = addrs;
    protected = protected;
  }

  -- How the three callers enter the loop. `address_established` is not set for a transfer, where
  -- nothing but M_ADR reads it: false here.
  unfoldable pub binkp_outgoing :
      Env World → SysInfo → ProtInfo World → List SysAddr → Bool → BinkpState World
  unfolding start outgoing_keys
  binkp_outgoing env remote pi addrs protected =
      start bmode_outgoing_handshake (outgoing_keys env remote) pi addrs protected

  unfoldable pub binkp_incoming : SysInfo → ProtInfo World → List SysAddr → Bool → BinkpState World
  unfolding start
  binkp_incoming remote pi addrs protected =
      start bmode_incoming_handshake remote pi addrs protected

  unfoldable pub binkp_transfer : SysInfo → ProtInfo World → List SysAddr → Bool → BinkpState World
  unfolding start
  binkp_transfer remote pi addrs protected = start bmode_transfer remote pi addrs protected

-- The loop's own variables: the reader, what is left to write, and `no_more_to_send`; `returned` is
-- the value that the loop was left with by a `return`, and `died` a null pointer that was read.
pub record Loop (World : Type 0) : Type 0 where
  pub bstate : BinkpState World
  pub reader : Reader
  pub have_to_write : Bytes
  pub no_more : Bool
  pub returned : Option Prc
  pub died : Bool

module _ {World : Type 0} (env : Env World) (ops : FileOps World) where
  -- Is the traffic enciphered?
  unfoldable pub crypted : BinkpState World → Bool
  crypted st = is_transfer st.mode && has_option opt_crypt st.remote_data.options

  -- The block is put into the buffer.
  unfoldable pub put_block : Block → Loop World → Loop World
  unfolding block_bytes crypted
  put_block block l =
      let plain = block_bytes block in
      let (bytes, keys) = encrypt_buf env.ulong plain l.bstate.remote_data.keys_out in
      if crypted l.bstate
      then record l {
        have_to_write = bytes;
        bstate = record (l.bstate) {
          remote_data = record (l.bstate.remote_data) { keys_out = keys };
        };
      }
      else record l { have_to_write = plain }

  -- The first part of a round: the next block to send is fetched.
  unfoldable pub fetch : Loop World → Loop World
  unfolding put_block
  fetch l0 =
      let l =
        if l0.bstate.continuesend
        then record l0 { no_more = false; bstate = record (l0.bstate) { continuesend = false } }
        else l0 in
      let (st, m) = binkp_getforsend env ops l.bstate in
      let l' = record l { bstate = st } in
      let fetched : Loop World = elim m [
        | nothing_to_send ↦ l'
        | send_block b ↦ put_block b l'
        | no_more_to_send ↦ record l' { no_more = true }
        | send_last b ↦ record (put_block b l') { no_more = true }
        | send_error ↦ record l' { returned = some prc_error }
        | send_crash ↦ record l' { died = true }
      ] in
      let idle = l.no_more && elim l.bstate.extracmd [ none ↦ true | some c ↦ false ] in
      elim l.have_to_write [ [] ↦ if idle then l else fetched | b ∷ bytes ↦ l ]

  -- The second part: are both batches complete? The result says whether the round ends here.
  unfoldable pub batch : Loop World → Loop World × Bool
  batch l =
      let st = l.bstate in
      if st.batchsendcomplete == 0 || st.batchreceivecomplete == 0
      then (l, false)
      else if st.multi_batch && (not (st.batch_send_count == 0) || not (st.batch_recv_count == 0))
      then (
        record l {
          bstate = record st {
            batchsendcomplete = st.batchsendcomplete - 1;
            batchreceivecomplete = st.batchreceivecomplete - 1;
            batch_send_count = 0;
            batch_recv_count = 0;
            phase = 0;
            frs = frs_nothing;
          };
          no_more = false;
          reader = record (l.reader) { want_read = 2 };
        },
        true,
      )
      else if st.waiting_got
      then (l, false)
      else (
        record l {
          bstate = record st { complete = true };
          reader = record (l.reader) { want_read = 0 };
        },
        false,
      )

  -- `tty_read` gave these bytes, no more than wanted; none is the end of the connection.
  unfoldable pub read_chunk : Bytes → Loop World → Loop World
  unfolding crypted take_in
  read_chunk [] l = record l { returned = some prc_remoteaborted }
  read_chunk (b ∷ chunk) l =
      let (plain, keys) = decrypt_buf env.ulong (b ∷ chunk) l.bstate.remote_data.keys_in in
      if crypted l.bstate
      then record l {
        reader = take_in l.reader plain;
        bstate = record (l.bstate) {
          remote_data = record (l.bstate.remote_data) { keys_in = keys };
        };
      }
      else record l { reader = take_in l.reader (b ∷ chunk) }

  -- The third part: a block that is complete is handed to the receiver. (Where nothing more is wanted
  -- after the first byte of a header, the source counts a length below zero; here the block is empty.)
  unfoldable pub deliver : Loop World → Loop World
  deliver l =
      let buf = l.reader.readbuf in
      let (st, m) = binkp_doreceiveblock ops env (leb 128 (get_or buf 0 0)) (drop 2 buf) l.bstate in
      let l' = record l { bstate = st } in
      let delivered : Loop World = elim m [
        | suspended ↦ l'
        | accepted ↦ record l' { reader = record { readbuf = []; want_read = 2 } }
        | accepted_last ↦ record l' { reader = record { readbuf = []; want_read = 0 } }
        | aborting ↦ record l' { bstate = record st { complete = true } }
        | crashed ↦ record l' { died = true }
      ] in
      if l.reader.want_read == 0 && not (length buf == 0) then delivered else l

  -- The last part: `tty_write` took this many bytes, no more than there are.
  unfoldable pub written_bytes : ℕ → Loop World → Loop World
  written_bytes n l =
      if n == 0
      then record l { returned = some prc_remoteaborted }
      else record l { have_to_write = drop n l.have_to_write }
