-- ===== src/Crc.antt =====
-- source/bforce/u_crc.c: the three table-driven checksums. A buffer is a list of bytes, and an
-- `unsigned long` register is a number that stays below 2 ^ 32.
pub mod Tables
pub mod Reference
pub mod Equivalence
pub mod Xmodem
pub mod Residue
mod Tests
use binkleyforce.Base.{
  ℕ, ◌+◌, ◌*◌, ◌/◌, ◌%◌, ◌^◌, List, [], ◌∷◌, get_or, bit_and, bit_xor, Bytes, Bool, ◌==◌,
}
use binkleyforce.Crc.Tables.{table_crc32_ccitt, table_crc16_xmodem, table_crc16_ccitt}

-- One round of the loop of `getcrc32ccitt`. `(int) crc` keeps the low 32 bits.
pub update_crc32_ccitt : ℕ → ℕ → ℕ
update_crc32_ccitt crc b =
    bit_xor (get_or table_crc32_ccitt (bit_and (bit_xor (crc % 2 ^ 32) b) 0xff) 0)
      (bit_and (crc / 2 ^ 8) 0x00ffffff)

pub loop_crc32_ccitt : ℕ → Bytes → ℕ
loop_crc32_ccitt crc [] = crc
loop_crc32_ccitt crc (b ∷ buffer) = loop_crc32_ccitt (update_crc32_ccitt crc b) buffer

unfoldable pub getcrc32ccitt : Bytes → ℕ
unfolding loop_crc32_ccitt
getcrc32ccitt buffer = loop_crc32_ccitt 0xffffffff buffer

-- One round of the loop of `getcrc16xmodem`; the assignment to `unsigned short` cuts at 16 bits.
pub update_crc16_xmodem : ℕ → ℕ → ℕ
update_crc16_xmodem crc b =
    bit_xor (get_or table_crc16_xmodem (bit_and (bit_xor (bit_and (crc / 2 ^ 8) 0xff) b) 0xff) 0)
      (crc * 2 ^ 8)
    % 2 ^ 16

pub loop_crc16_xmodem : ℕ → Bytes → ℕ
loop_crc16_xmodem crc [] = crc
loop_crc16_xmodem crc (b ∷ buffer) = loop_crc16_xmodem (update_crc16_xmodem crc b) buffer

unfoldable pub getcrc16xmodem : Bytes → ℕ
unfolding loop_crc16_xmodem
getcrc16xmodem buffer = loop_crc16_xmodem 0 buffer

-- One round of the loop of `getcrc16ccitt`.
pub update_crc16_ccitt : ℕ → ℕ → ℕ
update_crc16_ccitt crc b =
    bit_xor (get_or table_crc16_ccitt (bit_and (bit_xor crc b) 0xff) 0)
      (bit_and (crc / 2 ^ 8) 0x00ff)
    % 2 ^ 16

pub loop_crc16_ccitt : ℕ → Bytes → ℕ
loop_crc16_ccitt crc [] = crc
loop_crc16_ccitt crc (b ∷ buffer) = loop_crc16_ccitt (update_crc16_ccitt crc b) buffer

unfoldable pub getcrc16ccitt : Bytes → ℕ
unfolding loop_crc16_ccitt
getcrc16ccitt buffer = loop_crc16_ccitt 0xffff buffer

-- `CRC32TEST` and `CRC16TEST` of include/util.h.
pub crc32_test : ℕ → Bool
crc32_test crc = crc == 0xdebb20e3

pub crc16_test : ℕ → Bool
crc16_test crc = crc == 0xf0b8
