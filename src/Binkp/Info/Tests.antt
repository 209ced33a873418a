-- ===== src/Binkp/Info/Tests.antt =====
-- Runs of the file information (source/bforce/prot_binkp_misc.c).
use binkleyforce.Base.{◌+◌, ◌*◌, ◌^◌, ◌<◌, ◌↔◌, ◌≡◌, refl, arith, true, false, some, [], ◌∷◌}
use binkleyforce.Text.{print_nat}
use binkleyforce.Binkp.{BpFileInfo}
use binkleyforce.Binkp.Info.{binkp_parsfinfo, print_finfo, print_finfo_offset}
use binkleyforce.Binkp.Info.RoundTrip.{
  over, binkp_parsfinfo-print_finfo, binkp_parsfinfo-print_finfo_offset,
}

-- Memory that is not clear in the size.
abbrev memory : BpFileInfo
memory = record { fn = []; sz = 7 * 2 ^ 32 + 5; tm = 3; offs = 0 }

binkp_parsfinfo-print_finfo_offset_example :
    (binkp_parsfinfo memory (print_finfo_offset (b'f' ∷ b'.' ∷ b'z' ∷ []) 4096 1000000000 512) true
      ≡ some (record {
        fn = b'f' ∷ b'.' ∷ b'z' ∷ [];
        sz = over (7 * 2 ^ 32 + 5) 4096;
        tm = over 3 1000000000;
        offs = over 0 512;
      }))
    × (((over (7 * 2 ^ 32 + 5) 4096 ≡ 4096) × (over 3 1000000000 ≡ 1000000000) × (over 0 512 ≡ 512))
        ↔ ((7 * 2 ^ 32 + 5 < 2 ^ 32) × (3 < 2 ^ 32) × (0 < 2 ^ 32)))
unfolding print_finfo_offset print_nat
binkp_parsfinfo-print_finfo_offset_example =
    binkp_parsfinfo-print_finfo_offset memory b'f' (b'.' ∷ b'z' ∷ []) 4096 1000000000 512
      ((refl, refl), ((refl, refl), ((refl, refl), tt))) (omega arith) (omega arith) (omega arith)
      (omega arith)

binkp_parsfinfo-print_finfo_run :
    binkp_parsfinfo memory (print_finfo (b'f' ∷ b'.' ∷ b'z' ∷ []) 4096 1000000000) false
    ≡ some (record {
      fn = b'f' ∷ b'.' ∷ b'z' ∷ [];
      sz = over (7 * 2 ^ 32 + 5) 4096;
      tm = over 3 1000000000;
      offs = 0;
    })
unfolding print_finfo print_nat
binkp_parsfinfo-print_finfo_run =
    binkp_parsfinfo-print_finfo memory b'f' (b'.' ∷ b'z' ∷ []) 4096 1000000000
      ((refl, refl), ((refl, refl), ((refl, refl), tt))) (omega arith) (omega arith) (omega arith)
