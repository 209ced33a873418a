-- ===== src/Hydra/Flags.antt =====
-- The names of the options in an INIT packet (source/bforce/prot_hydra.c).
use binkleyforce.Base.{ℕ, ◌^◌, ◌<◌, ◌≡◌, refl, true, ◌==◌, ==_iff}
use binkleyforce.Base.Bits.{all_below, all_below_at}
use binkleyforce.Text.{string_tokens}
use binkleyforce.Hydra.{hydra_putflags, hydra_getflags}

flags_table : all_below 2048 (λ f. hydra_getflags (hydra_putflags f 256) == f) ≡ true
unfolding all_below hydra_getflags hydra_putflags string_tokens
flags_table = refl

-- Every set of the eleven options that is written as names, with room for 256 bytes, is read back.
pub hydra_getflags-hydra_putflags :
    (flags : ℕ) → flags < 2 ^ 11 → hydra_getflags (hydra_putflags flags 256) ≡ flags
hydra_getflags-hydra_putflags flags h =
    (==_iff _ _).0
      (all_below_at 2048 (λ f. hydra_getflags (hydra_putflags f 256) == f) flags flags_table h)
