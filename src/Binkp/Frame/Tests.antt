-- ===== src/Binkp/Frame/Tests.antt =====
-- Runs of the header of a block (source/bforce/prot_binkp.c).
use binkleyforce.Base.{◌≡◌, refl, arith, true, List, [], ◌∷◌, ◌++◌, Bytes, get_or}
use binkleyforce.Binkp.Frame.{write_header, read_header, Reader, take_in}
use binkleyforce.Binkp.Frame.RoundTrip.{take_all, read_header-write_header, take_all-write_header}

read_header-write_header_run :
    read_header (get_or (write_header true 300) 0 0) (get_or (write_header true 300) 1 0)
    ≡ (true, 300)
read_header-write_header_run = read_header-write_header true 300 (omega arith)

abbrev pieces : List Bytes
pieces = (0x80 ∷ []) ∷ (3 ∷ []) ∷ (2 ∷ b'a' ∷ []) ∷ (b'b' ∷ []) ∷ []

abbrev idle : Reader
idle = record { readbuf = []; want_read = 2 }

take_all-write_header_example :
    (take_all idle pieces).readbuf ≡ write_header true 3 ++ (2 ∷ b'a' ∷ b'b' ∷ [])
    × ((take_all idle pieces).want_read ≡ 0)
unfolding write_header take_in read_header
take_all-write_header_example =
    take_all-write_header true (2 ∷ b'a' ∷ b'b' ∷ []) pieces (omega arith) refl
      (omega arith, (omega arith, (omega arith, (omega arith, tt))))
