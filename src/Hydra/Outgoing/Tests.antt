-- ===== src/Hydra/Outgoing/Tests.antt =====
-- An instance of the theorem on the data that is sent (source/bforce/prot_hydra.c).
use binkleyforce.Base.{◌≡◌, refl, arith, true, false, some, [], ◌∷◌, ◌++◌, Bytes}
use binkleyforce.Base.Int.{pos}
use binkleyforce.Binkp.{fstat_process}
use binkleyforce.Hydra.Reception.{read_long}
use binkleyforce.Hydra.Incoming.Front.{IsHonest}
use binkleyforce.Hydra.Outgoing.{Outgoing, htx_data, ReadDisk, tx_data}
use binkleyforce.Hydra.Outgoing.Honest.{tx_data-IsHonest}

abbrev four_bytes : Bytes
four_bytes = 10 ∷ 20 ∷ 30 ∷ 40 ∷ []

-- Sent from the second byte on.
abbrev resumed : Outgoing
resumed = record {
  txstate = htx_data;
  txtries = 0;
  sendtimer = 0;
  deadtimer = 0;
  txlastack = 1;
  txwindow = 0;
  send_block_size = 2;
  send_good_blocks = 0;
  timeout_send = 30;
  timeout_dead = 120;
  file = four_bytes;
  opened = true;
  ftell_pos = 1;
  bytes_sent = 1;
  eofseen = false;
  status = fstat_process;
}

abbrev good_disk : ReadDisk
good_disk = record { ftell_ok = true; is_there = true; fread_ok = true }

sent : (tx_data 5 good_disk true resumed).1 ≡ some (1 ∷ 0 ∷ 0 ∷ 0 ∷ 20 ∷ 30 ∷ [])
unfolding tx_data
sent = refl

tx_data-IsHonest_example :
    IsHonest false four_bytes ((1 ∷ 0 ∷ 0 ∷ 0 ∷ 20 ∷ 30 ∷ []) ++ (b'F' ∷ [])) 6
    × (read_long false ((1 ∷ 0 ∷ 0 ∷ 0 ∷ 20 ∷ 30 ∷ []) ++ (b'F' ∷ [])) ≡ pos 1)
tx_data-IsHonest_example =
    tx_data-IsHonest false 5 good_disk true resumed (1 ∷ 0 ∷ 0 ∷ 0 ∷ 20 ∷ 30 ∷ []) (b'F' ∷ [])
      (omega arith) sent
