-- ===== src/Hydra/Outgoing.antt =====
-- The data that the sending side of a Hydra batch reads from a file and sends: HTX_DATA in
-- `hydra_batch` of source/bforce/prot_hydra.c, and `p_tx_readfile` of source/bforce/prot_common.c for a
-- file on the disk.
pub mod Honest
mod Tests
use binkleyforce.Base.{
  ℕ, ◌+◌, ◌*◌, ◌/◌, Bool, true, false, not, ◌&&◌, Option, none, some, ◌++◌, ◌==◌, ltb, leb,
  if◌then◌else◌, Bytes, length, take, drop,
}
use binkleyforce.Binkp.{Fstat, fstat_skipped, fstat_refused}
use binkleyforce.Hydra.{hydra_putlong, hydra_align_block_size}

-- The states of `e_hydra_txstate` that the sending of data goes through.
pub data TxState : Type 0 where
  htx_data : TxState
  htx_data_ack : TxState
  htx_eof : TxState

-- The variables of `hydra_batch`, the fields of `s_hydrainfo` and those of `pi->send` of this side. `file`
-- is what the file holds, and `ftell_pos` the position in it.
pub record Outgoing : Type 0 where
  pub txstate : TxState
  pub txtries : ℕ
  pub sendtimer : ℕ
  pub deadtimer : ℕ
  pub txlastack : ℕ
  pub txwindow : ℕ
  pub send_block_size : ℕ
  pub send_good_blocks : ℕ
  pub timeout_send : ℕ
  pub timeout_dead : ℕ
  pub file : Bytes
  pub opened : Bool
  pub ftell_pos : ℕ
  pub bytes_sent : ℕ
  pub eofseen : Bool
  pub status : Fstat

-- What the disk answers: to `ftell` (not below zero), `stat` (the file is there) and `fread` (no error).
pub record ReadDisk : Type 0 where
  pub ftell_ok : Bool
  pub is_there : Bool
  pub fread_ok : Bool

-- The bytes, or `none` for a negative number. Where a read that fails leaves the position is not
-- followed.
unfoldable pub p_tx_readfile : ReadDisk → ℕ → Outgoing → Outgoing × Option Bytes
p_tx_readfile disk buflen st =
    let cleared = record st { eofseen = false } in
    let bytes = take buflen (drop st.ftell_pos st.file) in
    if not st.opened
    then (st, none)
    else if not disk.ftell_ok
    then (record cleared { status = fstat_refused }, none)
    else if not (st.bytes_sent == st.ftell_pos)
    then (cleared, none)
    else if not disk.is_there
    then (record cleared { status = fstat_skipped }, none)
    else if ltb (length bytes) buflen && not disk.fread_ok
    then (record cleared { status = fstat_refused }, none)
    else (
      record cleared {
        ftell_pos = st.ftell_pos + length bytes;
        eofseen = ltb (length bytes) buflen;
      },
      some bytes,
    )

-- The next state is HTX_EOF.
abbrev pub to_eof : Outgoing → Outgoing
to_eof st = record st { txtries = 0; txstate = htx_eof }

-- One good block more, after which the blocks may grow.
unfoldable pub count_block : Outgoing → Outgoing
unfolding hydra_align_block_size
count_block st =
    let good = st.send_good_blocks + 1 in
    if ltb st.send_block_size 2048 && leb 4096 (good * st.send_block_size)
    then record st {
      send_good_blocks = 0;
      send_block_size = hydra_align_block_size (st.send_block_size * 2);
    }
    else record st { send_good_blocks = good }

-- A full window, or the end of the file.
unfoldable pub after_block : ℕ → Outgoing → Outgoing
after_block now st =
    let patience = if ltb 0 st.txtries then st.timeout_send / 2 else st.timeout_send in
    if ltb 0 st.txwindow && leb (st.txlastack + st.txwindow) st.bytes_sent
    then record st { sendtimer = now + patience; txstate = htx_data_ack }
    else if st.eofseen
    then to_eof st
    else st

-- A block that was read: the data of its packet.
unfoldable pub block_packet : ℕ → Bytes → Outgoing → Outgoing × Option Bytes
unfolding count_block after_block hydra_putlong
block_packet now bytes st =
    let sent = record st {
      deadtimer = now + st.timeout_dead;
      bytes_sent = st.bytes_sent + length bytes;
    } in
    (after_block now (count_block sent), some (hydra_putlong st.bytes_sent ++ bytes))

unfoldable pub read_block : ℕ → Outgoing × Option Bytes → Outgoing × Option Bytes
unfolding block_packet
read_block now (st, none) = (to_eof st, none)
read_block now (st, some bytes) =
    if ltb 0 (length bytes) then block_packet now bytes st else (to_eof st, none)

-- HTX_DATA, with the data of the packet that is put in the buffer. `free` is true if nothing waits to
-- be written.
unfoldable pub tx_data : ℕ → ReadDisk → Bool → Outgoing → Outgoing × Option Bytes
unfolding p_tx_readfile read_block
tx_data now disk free st =
    if st.eofseen
    then (to_eof st, none)
    else if free
    then read_block now (p_tx_readfile disk st.send_block_size (record st { sendtimer = 0 }))
    else (st, none)
