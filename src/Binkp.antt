-- ===== src/Binkp.antt =====
-- The state of a BinkP session (source/bforce/prot_binkp.c, source/include/prot_binkp.h and
-- source/include/prot_common.h), for its sender and its receiver. A null pointer is `none`.
pub mod Frame
pub mod Info
pub mod Remote
pub mod Send
pub mod Receive
pub mod Loop
pub mod Cipher
mod Tests
use binkleyforce.Base.{
  ℕ, zero, suc, ◌+◌, Bool, true, false, Option, none, some, List, [], ◌∷◌, Bytes, ◌==◌, ◌&&◌,
  if◌then◌else◌,
}
use binkleyforce.Base.Int.{ℤ}
use binkleyforce.Crypt.{Keys}
use binkleyforce.Address.{Faddr}
use binkleyforce.Session.{SysAddr, Conf}

-- `e_binkp_mode`.
pub data Mode : Type 0 where
  bmode_failoff : Mode
  bmode_incoming_handshake : Mode
  bmode_outgoing_handshake : Mode
  bmode_transfer : Mode
  bmode_complete : Mode

-- `e_file_receive_status`.
pub data FileReceiveStatus : Type 0 where
  frs_nothing : FileReceiveStatus
  frs_data : FileReceiveStatus
  frs_didget : FileReceiveStatus
  frs_skipping : FileReceiveStatus

-- `e_bpmsg`.
pub data Bpmsg : Type 0 where
  bpmsg_nul : Bpmsg
  bpmsg_adr : Bpmsg
  bpmsg_pwd : Bpmsg
  bpmsg_file : Bpmsg
  bpmsg_ok : Bpmsg
  bpmsg_eob : Bpmsg
  bpmsg_got : Bpmsg
  bpmsg_err : Bpmsg
  bpmsg_bsy : Bpmsg
  bpmsg_get : Bpmsg
  bpmsg_skip : Bpmsg

-- The codes `FSTAT_…`; a file that was never touched has none of them.
pub data Fstat : Type 0 where
  fstat_none : Fstat
  fstat_process : Fstat
  fstat_waitack : Fstat
  fstat_success : Fstat
  fstat_skipped : Fstat
  fstat_refused : Fstat

-- The codes `PRC_…` that this file returns.
pub data Prc : Type 0 where
  prc_noerror : Prc
  prc_error : Prc
  prc_remoteaborted : Prc
  prc_localaborted : Prc

-- A block: a command with its argument, or data.
pub data Block : Type 0 where
  command : Bpmsg → Bytes → Block
  data_block : Bytes → Block

abbrev pub is_handshake : Mode → Bool
is_handshake bmode_incoming_handshake = true
is_handshake bmode_outgoing_handshake = true
is_handshake _ = false

abbrev pub is_incoming : Mode → Bool
is_incoming bmode_incoming_handshake = true
is_incoming _ = false

abbrev pub is_outgoing : Mode → Bool
is_outgoing bmode_outgoing_handshake = true
is_outgoing _ = false

abbrev pub is_transfer : Mode → Bool
is_transfer bmode_transfer = true
is_transfer _ = false

abbrev pub is_waitack : Fstat → Bool
is_waitack fstat_waitack = true
is_waitack _ = false

abbrev pub is_success : Fstat → Bool
is_success fstat_success = true
is_success _ = false

-- `s_finfo`, as far as this protocol reads it; `opened` is `fp != NULL`.
pub record FileInfo : Type 0 where
  pub net_name : Bytes
  pub mod_time : ℕ
  pub bytes_total : ℕ
  pub bytes_sent : ℕ
  pub bytes_received : ℕ
  pub bytes_skipped : ℕ
  pub status : Fstat
  pub waitack : Bool
  pub netspool : Bool
  pub opened : Bool

-- `s_bpfinfo`.
pub record BpFileInfo : Type 0 where
  pub fn : Bytes
  pub sz : ℕ
  pub tm : ℕ
  pub offs : ℕ

-- `s_filehint`.
pub record FileHint : Type 0 where
  pub hint_fn : Bytes
  pub hint_sz : ℕ
  pub hint_tm : ℕ

-- `s_binkp_sysinfo`.
pub record SysInfo : Type 0 where
  pub passwd : Bytes
  pub systname : Bytes
  pub location : Bytes
  pub sysop : Bytes
  pub phone : Bytes
  pub flags : Bytes
  pub progname : Bytes
  pub protname : Bytes
  pub timestr : Bytes
  pub opt : Bytes
  pub majorver : ℤ
  pub minorver : ℤ
  pub options : ℕ
  pub challenge : Bytes
  pub has_trf : Bool
  pub trf_pkt : ℤ
  pub trf_other : ℤ
  pub keys_out : Keys
  pub keys_in : Keys

-- `s_protinfo`: `send` points into the list of the files sent, so it is an index; the file that is
-- received is held alone. `World` is all that lies outside: the disk and the lock files.
pub record ProtInfo (World : Type 0) : Type 0 where
  pub send : Option ℕ
  pub sentfiles : List FileInfo
  pub recv : Option FileInfo
  pub world : World

-- `s_binkp_state` with the parts of the global `state` that the handshake changes. No command in
-- `extracmd` is the -1 that its first byte holds then.
pub record BinkpState (World : Type 0) : Type 0 where
  pub mode : Mode
  pub phase : ℕ
  pub subphase : ℕ
  pub remote_data : SysInfo
  pub pi : ProtInfo World
  pub address_established : Bool
  pub extracmd : Option (Bpmsg × Bytes)
  pub extraislast : Bool
  pub password_received : Bool
  pub non_reliable : Bool
  pub multi_batch : Bool
  pub complete : Bool
  pub batchsendcomplete : ℕ
  pub batchreceivecomplete : ℕ
  pub waiting_got : Bool
  pub batch_send_count : ℕ
  pub batch_recv_count : ℕ
  pub frs : FileReceiveStatus
  pub continuesend : Bool
  pub rc : Prc
  pub remoteaddrs : List SysAddr
  pub protected : Bool

-- What a session reads and never changes: the configuration, `local_data`, our addresses, the
-- address called, whether its nodelist flags hold "NR", whether the overrides of an address do,
-- and the range of `unsigned long`; and the functions of other files: the digest and the locks.
pub record Env (World : Type 0) : Type 0 where
  pub conf : Conf
  pub local_data : SysInfo
  pub localaddrs : List SysAddr
  pub called : Faddr
  pub node_nr : Bool
  pub override_nr : Faddr → Bool
  pub ulong : ℕ
  pub md5_cram : Bytes → Bytes → Bytes
  pub out_bsy_lock : World → Faddr → World × Bool

-- What writing a piece of a file returns: the count, -2, or another negative number.
pub data Written : Type 0 where
  written : Written
  write_refused : Written
  write_failed : Written

-- What `p_rx_fopen` returns: 0, 1, 2 or anything else.
pub data Opened : Type 0 where
  rx_accept : Opened
  rx_skip : Opened
  rx_refuse : Opened
  rx_error : Opened

-- The operations of source/bforce/prot_common.c on the files of a transfer. A `Bool` is true for a
-- result that is not zero; `p_tx_readfile` gives no bytes for a negative count. `unset` is what the
-- memory of a variable `s_bpfinfo` holds before anything is assigned.
pub record FileOps (World : Type 0) : Type 0 where
  pub p_tx_fopen : ProtInfo World → Option FileHint → ProtInfo World × Bool
  pub p_tx_rewind : ProtInfo World → ℕ → ProtInfo World × Bool
  pub p_tx_fclose : ProtInfo World → ProtInfo World
  pub p_tx_readfile : ProtInfo World → ℕ → ProtInfo World × Option Bytes
  pub p_rx_fopen : ProtInfo World → Bytes → ℕ → ℕ → ProtInfo World × Opened
  pub p_rx_writefile : ProtInfo World → Bytes → ProtInfo World × Written
  pub p_rx_fclose : ProtInfo World → ProtInfo World × Bool
  pub unset : World → BpFileInfo

abbrev pub same_bytes : Bytes → Bytes → Bool
same_bytes [] [] = true
same_bytes (a ∷ s) (b ∷ t) = a == b && same_bytes s t
same_bytes _ _ = false

-- True where `p_compfinfo` returns zero.
unfoldable pub p_compfinfo : FileInfo → Bytes → ℕ → ℕ → Bool
p_compfinfo finf fn sz tm =
    sz == finf.bytes_total && tm == finf.mod_time && same_bytes fn finf.net_name

module _ {ℓ} {A : Type ℓ} where
  abbrev pub get_elem? : List A → ℕ → Option A
  get_elem? [] i = none
  get_elem? (x ∷ xs) zero = some x
  get_elem? (x ∷ xs) (suc i) = get_elem? xs i

  abbrev pub modify : (A → A) → List A → ℕ → List A
  modify f [] i = []
  modify f (x ∷ xs) zero = f x ∷ xs
  modify f (x ∷ xs) (suc i) = x ∷ modify f xs i

module _ {World : Type 0} where
  -- `*pi->send`.
  abbrev pub send_info : ProtInfo World → Option FileInfo
  send_info p = elim p.send [ none ↦ none | some i ↦ get_elem? p.sentfiles i ]

  -- An assignment through `pi->send`.
  abbrev pub set_send : (FileInfo → FileInfo) → ProtInfo World → ProtInfo World
  set_send f p = elim p.send [ none ↦ p | some i ↦ record p { sentfiles = modify f p.sentfiles i } ]

  -- An assignment through `pi->recv`.
  abbrev pub set_recv : (FileInfo → FileInfo) → ProtInfo World → ProtInfo World
  set_recv f p = elim p.recv [ none ↦ p | some r ↦ record p { recv = some (f r) } ]
