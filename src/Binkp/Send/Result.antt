-- ===== src/Binkp/Send/Result.antt =====
-- What `binkp_getforsend` returns, and where it ends when no case of it fits.
use binkleyforce.Base.{true}
use binkleyforce.Binkp.{Block, BinkpState}

-- What the call returns: 0, 1 with a block, 2, 3 with a block, or -1; or it reads a null pointer.
pub data Sending : Type 0 where
  nothing_to_send : Sending
  send_block : Block → Sending
  no_more_to_send : Sending
  send_last : Block → Sending
  send_error : Sending
  send_crash : Sending

-- The lines after both `switch` statements.
abbrev pub unrecognized : {World : Type 0} → BinkpState World → BinkpState World × Sending
unrecognized st = (record st { complete = true }, no_more_to_send)
