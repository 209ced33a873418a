-- ===== src/Binkp/Receive/Reply.antt =====
-- What the receiver returns, and the commands that it leaves for the sender (`extracmd`).
use binkleyforce.Base.{true, false, none, some, Bytes, []}
use binkleyforce.Binkp.{Bpmsg, bpmsg_err, BinkpState, prc_localaborted}

-- The result of `binkp_doreceiveblock`: 0, 1, 2, 3; or it reads a null pointer.
pub data Accepting : Type 0 where
  suspended : Accepting
  accepted : Accepting
  accepted_last : Accepting
  aborting : Accepting
  crashed : Accepting

module _ {World : Type 0} where
  -- `PROTO_ERROR`; the texts of the messages are not kept apart.
  unfoldable pub proto_error : BinkpState World → BinkpState World × Accepting
  proto_error st = (
    record st { rc = prc_localaborted; extracmd = some (bpmsg_err, []); extraislast = true },
    accepted,
  )

  -- A reply after which the session goes on, and one that ends it.
  unfoldable pub queue : BinkpState World → Bpmsg → Bytes → BinkpState World × Accepting
  queue st msg text = (record st { extracmd = some (msg, text); extraislast = false }, accepted)

  unfoldable pub queue_last : BinkpState World → Bpmsg → BinkpState World
  queue_last st msg = record st { extracmd = some (msg, []); extraislast = true }

  -- `if( bstate->extracmd[0] != -1 ) return 0;` in the state that the call leaves so far.
  abbrev pub if_free :
      BinkpState World → BinkpState World × Accepting → BinkpState World × Accepting
  if_free st go = elim st.extracmd [ some c ↦ (st, suspended) | none ↦ go ]
