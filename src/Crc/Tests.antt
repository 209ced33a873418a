-- ===== src/Crc/Tests.antt =====
-- Check values of the three checksums, and the theorems at concrete buffers.
use binkleyforce.Base.{◌-◌, ◌^◌, ◌≡◌, ◌↔◌, refl, [], ◌∷◌, ◌++◌, arith, Bytes, true}
use binkleyforce.Crc.Tables.{table_crc32_ccitt, table_crc16_xmodem, table_crc16_ccitt}
use binkleyforce.Crc.Reference.{crc_down, crc_up}
use binkleyforce.Crc.Equivalence.{getcrc32ccitt-reference, getcrc16ccitt-reference}
use binkleyforce.Crc.Xmodem.{getcrc16xmodem-reference}
use binkleyforce.Crc.Residue.{from_bytes, crc32_test_trailer, crc16_test_trailer}
use binkleyforce.Crc.{
  update_crc32_ccitt, update_crc16_xmodem, update_crc16_ccitt, getcrc32ccitt, getcrc16xmodem,
  getcrc16ccitt, crc32_test, crc16_test,
}

-- The digits 1 to 9 in ASCII.
abbrev check_input : Bytes
check_input = 49 ∷ 50 ∷ 51 ∷ 52 ∷ 53 ∷ 54 ∷ 55 ∷ 56 ∷ 57 ∷ []

check_crc32 : getcrc32ccitt check_input ≡ 0x340bc6d9
unfolding getcrc32ccitt update_crc32_ccitt table_crc32_ccitt
check_crc32 = refl

check_xmodem : getcrc16xmodem check_input ≡ 0x31c3
unfolding getcrc16xmodem update_crc16_xmodem table_crc16_xmodem
check_xmodem = refl

check_crc16 : getcrc16ccitt check_input ≡ 0x6f91
unfolding getcrc16ccitt update_crc16_ccitt table_crc16_ccitt
check_crc16 = refl

getcrc32ccitt-reference_example :
    getcrc32ccitt check_input ≡ crc_down 0xedb88320 0xffffffff check_input
getcrc32ccitt-reference_example = getcrc32ccitt-reference check_input (omega arith)

getcrc16ccitt-reference_run : getcrc16ccitt check_input ≡ crc_down 0x8408 0xffff check_input
getcrc16ccitt-reference_run = getcrc16ccitt-reference check_input (omega arith)

getcrc16xmodem-reference_run : getcrc16xmodem check_input ≡ crc_up 0x1021 0 check_input
getcrc16xmodem-reference_run = getcrc16xmodem-reference check_input (omega arith)

crc32_test_trailer_run :
    (crc32_test (getcrc32ccitt (check_input ++ (0x26 ∷ 0x39 ∷ 0xf4 ∷ 0xcb ∷ []))) ≡ true)
    ↔ (from_bytes (0x26 ∷ 0x39 ∷ 0xf4 ∷ 0xcb ∷ []) ≡ 2 ^ 32 - 1 - getcrc32ccitt check_input)
crc32_test_trailer_run =
    crc32_test_trailer check_input (0x26 ∷ 0x39 ∷ 0xf4 ∷ 0xcb ∷ []) (omega arith) (omega arith) refl

crc16_test_trailer_run :
    (crc16_test (getcrc16ccitt (check_input ++ (0x6e ∷ 0x90 ∷ []))) ≡ true)
    ↔ (from_bytes (0x6e ∷ 0x90 ∷ []) ≡ 2 ^ 16 - 1 - getcrc16ccitt check_input)
crc16_test_trailer_run =
    crc16_test_trailer check_input (0x6e ∷ 0x90 ∷ []) (omega arith) (omega arith) refl
