-- ===== src/Hydra/Decode.antt =====
-- How the four formats are read (source/bforce/prot_hydra.c).
use binkleyforce.Base.{
  ℕ, zero, suc, ◌+◌, ◌-◌, ◌*◌, ◌/◌, ◌%◌, ◌^◌, Bool, ◌&&◌, Option, none, some, [], ◌∷◌, ◌++◌, ◌==◌,
  ltb, leb, if◌then◌else◌, Bytes, bit_and, bit_or, length,
}
use binkleyforce.Text.{head, tail}

-- All return the decoded bytes, or `none` for the null pointer. `szdst` is the room for them.
unfoldable pub hydra_getbinblock : ℕ → Bytes → Option Bytes
hydra_getbinblock szdst src = if ltb szdst (length src) then none else some src

-- The low byte of a digit's value, which is not checked.
unfoldable pub hex_value : ℕ → ℕ
hex_value c = if ltb b'9' c then (c + 256 - 87) % 256 else (c + 256 - 48) % 256

-- The loop: `szsrc` bytes are left, and `szdst` places. A backslash near the end is read together
-- with what lies behind the last byte.
unfoldable pub hex_block : ℕ → ℕ → Bytes → Bytes
unfolding hex_value
hex_block szdst zero memory = []
hex_block zero (suc szsrc) memory = []
hex_block (suc szdst) (suc szsrc) memory =
    let second = tail memory in
    let coded =
      bit_or (hex_value (head second) * 2 ^ 4) (hex_value (head (tail second))) % 256
      ∷ hex_block szdst (szsrc - 2) (tail (tail second)) in
    let backslash = head second ∷ hex_block szdst (szsrc - 1) (tail second) in
    let plain = head memory ∷ hex_block szdst szsrc second in
    if head memory == b'\\' then (if head second == b'\\' then backslash else coded) else plain

-- `beyond` is what stands in the buffer behind the block.
unfoldable pub hydra_gethexblock : ℕ → Bytes → Bytes → Option Bytes
unfolding hex_block
hydra_gethexblock szdst src beyond = some (hex_block szdst (length src) (src ++ beyond))

-- The loop, with `c` and `n`.
unfoldable pub asc_block : ℕ → ℕ → ℕ → Bytes → Bytes
asc_block szdst c n [] = []
asc_block zero c n (b ∷ src) = []
asc_block (suc szdst) c n (b ∷ src) =
    let all = bit_or c (bit_and b 0x7f * 2 ^ n) in
    let more = bit_and all 0xff ∷ asc_block szdst (all / 2 ^ 8) (n + 7 - 8) src in
    let fewer = asc_block (suc szdst) all (n + 7) src in if leb 8 (n + 7) then more else fewer

unfoldable pub hydra_getascblock : ℕ → Bytes → Option Bytes
unfolding asc_block
hydra_getascblock szdst src = some (asc_block szdst 0 0 src)

-- `HYDRA_ISUUE` and `HYDRA_UUDEC`.
unfoldable pub hydra_isuue : ℕ → Bool
hydra_isuue c = ltb b' ' c && ltb c b'a'

unfoldable pub hydra_uudec : ℕ → ℕ
hydra_uudec c = bit_and (c - b'!') 0x3f

abbrev pub prefixed : Bytes → Option Bytes → Option Bytes
prefixed front none = none
prefixed front (some back) = some (front ++ back)

-- The bytes that four, three and two characters give.
unfoldable pub uue_first : ℕ → ℕ → ℕ
unfolding hydra_uudec
uue_first a b = bit_or (hydra_uudec a * 2 ^ 2) (hydra_uudec b / 2 ^ 4) % 256

unfoldable pub uue_second : ℕ → ℕ → ℕ
unfolding hydra_uudec
uue_second b c = bit_or (hydra_uudec b * 2 ^ 4) (hydra_uudec c / 2 ^ 2) % 256

unfoldable pub uue_third : ℕ → ℕ → ℕ
unfolding hydra_uudec
uue_third c d = bit_or (hydra_uudec c * 2 ^ 6) (hydra_uudec d) % 256

-- The decoder itself. One character alone is left by no block that passes the first test.
unfoldable pub uue_block : Bytes → Option Bytes
unfolding uue_first uue_second uue_third hydra_isuue
uue_block [] = some []
uue_block (a ∷ []) = some []
uue_block (a ∷ b ∷ []) = if hydra_isuue a && hydra_isuue b then some (uue_first a b ∷ []) else none
uue_block (a ∷ b ∷ c ∷ []) =
    if hydra_isuue a && hydra_isuue b && hydra_isuue c
    then some (uue_first a b ∷ uue_second b c ∷ [])
    else none
uue_block (a ∷ b ∷ c ∷ d ∷ src) =
    let later = uue_block src in
    if hydra_isuue a && hydra_isuue b && hydra_isuue c && hydra_isuue d
    then prefixed (uue_first a b ∷ uue_second b c ∷ uue_third c d ∷ []) later
    else none

-- The room is compared with the size of the encoded block.
unfoldable pub hydra_getuueblock : ℕ → Bytes → Option Bytes
unfolding uue_block
hydra_getuueblock szdst src =
    if length src % 4 == 1
    then none
    else if ltb szdst (length src / 4 * 4 + length src % 4)
    then none
    else uue_block src
