-- ===== src/Crypt/Portable.antt =====
-- The cipher does not depend on the width of `unsigned long`: peers whose `long` has 32 and 64 bits
-- understand one another.
use mathlib.Core.Path.{ap₂}
use binkleyforce.Base.{
  ℕ, ◌+◌, ◌*◌, ◌/◌, ◌%◌, ◌^◌, ◌≡◌, refl, sym, ap, ◌∙◌, [], ◌∷◌, arith, Bytes, get_or, bit_and,
  bit_or, bit_xor,
}
use binkleyforce.Base.Bits.{bit_xor_low, bit_and_ones}
use binkleyforce.Crypt.Table.{crc_32_tab}
use binkleyforce.Crypt.RoundTrip.{decrypt_buf-encrypt_buf}
use binkleyforce.Crypt.{
  Keys, crc32, update_keys, absorb, init_keys, decrypt_byte, decrypt_buf, encrypt_buf, int_of_char,
}

-- The keys of a 32-bit and of a 64-bit process that have seen the same bytes.
pub record Agree (narrow wide : Keys) : Type 0 where
  pub same0 : narrow.key0 ≡ wide.key0
  pub same1 : narrow.key1 ≡ wide.key1 % 2 ^ 32
  pub same2 : narrow.key2 ≡ wide.key2

-- Only the low byte of the second argument counts.
crc32_low_byte : (c b d : ℕ) → b % 256 ≡ d % 256 → crc32 c b ≡ crc32 c d
unfolding crc32
crc32_low_byte c b d e =
    let low = λ (x : ℕ). bit_and_ones 8 (bit_xor (c % 2 ^ 32) x) ∙ bit_xor_low 8 (c % 2 ^ 32) x in
    ap (λ i. bit_xor (get_or crc_32_tab i 0) (c / 2 ^ 8))
      (low b ∙ ap (bit_xor (c % 2 ^ 32 % 2 ^ 8)) e ∙ sym (low d))

crc32_alike : (c c' b d : ℕ) → c ≡ c' → b % 256 ≡ d % 256 → crc32 c b ≡ crc32 c' d
crc32_alike c c' b d p e = ap (λ k. crc32 k b) p ∙ crc32_low_byte c' b d e

-- The product is cut at 2 ^ 64 or at 2 ^ 32, and bits 24 to 31 are the same.
update1-low :
    (k w x y : ℕ)
    → k ≡ w % 2 ^ 32
    → x ≡ y
    → ((k + x) % 2 ^ 32 * 134775813 + 1) % 2 ^ 32
      ≡ ((w + y) % 2 ^ 64 * 134775813 + 1) % 2 ^ 64 % 2 ^ 32
update1-low k w x y hk hx = omega arith

shift_low : (k w : ℕ) → k ≡ w % 2 ^ 32 → k / 2 ^ 24 % 2 ^ 32 % 256 ≡ w / 2 ^ 24 % 2 ^ 32 % 256
shift_low k w h = omega arith

update_keys-Agree :
    (narrow wide : Keys) (c : ℕ)
    → Agree narrow wide
    → Agree (update_keys (2 ^ 32) narrow c) (update_keys (2 ^ 64) wide c)
unfolding update_keys
update_keys-Agree narrow wide c a =
    let k0 = ap (λ k. crc32 k c) a.same0 in
    let k1 = update1-low narrow.key1 wide.key1 _ _ a.same1 (ap (λ k. bit_and k 0xff) k0) in
    record { same0 = k0; same1 = k1; same2 = crc32_alike _ _ _ _ a.same2 (shift_low _ _ k1) }

absorb-Agree :
    (narrow wide : Keys) (passwd : Bytes)
    → Agree narrow wide
    → Agree (absorb (2 ^ 32) narrow passwd) (absorb (2 ^ 64) wide passwd)
unfolding absorb
absorb-Agree narrow wide [] a = a
absorb-Agree narrow wide (c ∷ passwd) a =
    absorb-Agree (update_keys (2 ^ 32) narrow (int_of_char c))
      (update_keys (2 ^ 64) wide (int_of_char c)) passwd
      (update_keys-Agree narrow wide (int_of_char c) a)

decrypt_byte-Agree :
    (narrow wide : Keys) → Agree narrow wide → decrypt_byte narrow ≡ decrypt_byte wide
unfolding decrypt_byte
decrypt_byte-Agree narrow wide a =
    ap
      (λ k.
        let temp = bit_or (bit_and (k % 2 ^ 32) 0xffff) 2 in
        bit_and (temp * bit_xor temp 1 % 2 ^ 32 / 2 ^ 8) 0xff)
      a.same2

encrypt_buf-Agree :
    (buf : Bytes) (narrow wide : Keys)
    → Agree narrow wide
    → ((encrypt_buf (2 ^ 32) buf narrow).0 ≡ (encrypt_buf (2 ^ 64) buf wide).0)
      × Agree (encrypt_buf (2 ^ 32) buf narrow).1 (encrypt_buf (2 ^ 64) buf wide).1
unfolding encrypt_buf
encrypt_buf-Agree [] narrow wide a = (refl, a)
encrypt_buf-Agree (c ∷ buf) narrow wide a =
    let rest =
      encrypt_buf-Agree buf (update_keys (2 ^ 32) narrow (int_of_char c))
        (update_keys (2 ^ 64) wide (int_of_char c))
        (update_keys-Agree narrow wide (int_of_char c) a) in
    (ap₂ ◌∷◌ (ap (bit_xor c) (decrypt_byte-Agree narrow wide a)) rest.0, rest.1)

init_keys-Agree : (passwd : Bytes) → Agree (init_keys (2 ^ 32) passwd) (init_keys (2 ^ 64) passwd)
unfolding init_keys
init_keys-Agree passwd =
    absorb-Agree _ _ passwd (record { same0 = refl; same1 = refl; same2 = refl })

-- A process with a 64-bit `unsigned long` decrypts what one with a 32-bit `unsigned long`
-- encrypted under the same password.
pub decrypt-wide-encrypt-narrow :
    (passwd buf : Bytes)
    → (decrypt_buf
        (2 ^ 64)
        (encrypt_buf (2 ^ 32) buf (init_keys (2 ^ 32) passwd)).0
        (init_keys (2 ^ 64) passwd)).0
      ≡ buf
decrypt-wide-encrypt-narrow passwd buf =
    let same = (encrypt_buf-Agree buf _ _ (init_keys-Agree passwd)).0 in
    ap (λ c. (decrypt_buf (2 ^ 64) c (init_keys (2 ^ 64) passwd)).0) same
    ∙ ap (λ r. r.0) (decrypt_buf-encrypt_buf (2 ^ 64) buf (init_keys (2 ^ 64) passwd))
