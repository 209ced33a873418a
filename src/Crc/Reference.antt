-- ===== src/Crc/Reference.antt =====
-- The checksums bit by bit: division by the polynomial in a shift register, with no table.
use binkleyforce.Base.{
  ℕ, zero, suc, ◌*◌, ◌/◌, ◌%◌, ◌^◌, [], ◌∷◌, bit_xor, Bytes, ◌==◌, if◌then◌else◌,
}

-- The register shifts towards bit 0, and `poly` is fed back when a one falls out.
unfoldable pub shift_down : ℕ → ℕ → ℕ
shift_down poly r = if r % 2 == 1 then bit_xor (r / 2) poly else r / 2

unfoldable pub shift_down_by : ℕ → ℕ → ℕ → ℕ
unfolding shift_down
shift_down_by poly zero r = r
shift_down_by poly (suc n) r = shift_down_by poly n (shift_down poly r)

-- Each byte enters at the low end, lowest bit first.
unfoldable pub crc_down : ℕ → ℕ → Bytes → ℕ
unfolding shift_down_by
crc_down poly r [] = r
crc_down poly r (b ∷ bs) = crc_down poly (shift_down_by poly 8 (bit_xor r b)) bs

-- The register of 16 bits shifts towards bit 15.
unfoldable pub shift_up : ℕ → ℕ → ℕ
shift_up poly r = if r / 2 ^ 15 % 2 == 1 then bit_xor (r * 2 % 2 ^ 16) poly else r * 2 % 2 ^ 16

unfoldable pub shift_up_by : ℕ → ℕ → ℕ → ℕ
unfolding shift_up
shift_up_by poly zero r = r
shift_up_by poly (suc n) r = shift_up_by poly n (shift_up poly r)

-- Each byte enters at the high end, highest bit first.
unfoldable pub crc_up : ℕ → ℕ → Bytes → ℕ
unfolding shift_up_by
crc_up poly r [] = r
crc_up poly r (b ∷ bs) = crc_up poly (shift_up_by poly 8 (bit_xor r (b * 2 ^ 8))) bs
