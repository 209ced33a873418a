-- ===== src/Hydra/Incoming/Tests.antt =====
-- Instances of the theorems on the side that receives files (source/bforce/prot_hydra.c).
use binkleyforce.Base.{◌≡◌, refl, arith, true, false, some, List, [], ◌∷◌, Bytes}
use binkleyforce.Base.Int.{pos, negsuc}
use binkleyforce.Binkp.{FileInfo, fstat_process}
use binkleyforce.Hydra.Incoming.{recv_eof}
use binkleyforce.Hydra.Reception.{RxState, hrx_skip, Incoming, Disk, read_long, put_offset}
use binkleyforce.Hydra.Incoming.Front.{Event, data_packet, junk_packet, rx_turn}
use binkleyforce.Hydra.Incoming.Skipped.{is_skipping, recv_eof-skipped}
use binkleyforce.Hydra.Incoming.Offsets.{read_long-put_offset}

abbrev new_file : FileInfo
new_file = record {
  net_name = b'a' ∷ [];
  mod_time = 0;
  bytes_total = 3;
  bytes_sent = 0;
  bytes_received = 0;
  bytes_skipped = 0;
  status = fstat_process;
  waitack = false;
  netspool = false;
  opened = true;
}

abbrev in_state : RxState → Incoming
in_state rx = record {
  rxstate = rx;
  rxtries = 0;
  recvtimer = 0;
  deadtimer = 0;
  last_datapos = negsuc 0;
  rxlastack = 0;
  rxwindow = 0;
  recv_rpos_id = 100;
  recv_block_size = 1024;
  timeout_recv = 30;
  timeout_dead = 120;
  recv = some new_file;
  written = [];
  closed = [];
  queued = [];
}

abbrev good_disk : Disk
good_disk = record {
  ftell_ok = true;
  is_there = true;
  fwrite_ok = true;
  close_ok = true;
  closed_size = some 3;
  is_request = false;
  move_ok = true;
}

abbrev source : Bytes
source = 10 ∷ 20 ∷ 30 ∷ []

-- A broken packet, the RPOS packet that asks again, and the data.
abbrev after_junk : List Event
after_junk = junk_packet ∷ rx_turn 1 ∷ data_packet 2 good_disk (0 ∷ 0 ∷ 0 ∷ 0 ∷ source) 7 ∷ []

recv_eof-skipped_example :
    ((recv_eof false 3 good_disk (put_offset (negsuc 1)) 4 (in_state hrx_skip)).0.queued ≡ [])
    × ((recv_eof false 3 good_disk (put_offset (negsuc 1)) 4 (in_state hrx_skip)).0.closed ≡ [])
    × (is_skipping
          (recv_eof false 3 good_disk (put_offset (negsuc 1)) 4 (in_state hrx_skip)).0.rxstate
        ≡ true)
recv_eof-skipped_example =
    recv_eof-skipped 3 good_disk (put_offset (negsuc 1)) 4 (in_state hrx_skip) refl

read_long-put_offset_example :
    (read_long true (put_offset (pos 1)) ≡ pos 1)
    × (read_long true (put_offset (negsuc 1)) ≡ negsuc 1)
    × (read_long false (put_offset (pos 1)) ≡ pos 1)
    × (read_long false (put_offset (negsuc 1)) ≡ pos 4294967294)
read_long-put_offset_example = read_long-put_offset 1 (omega arith)
