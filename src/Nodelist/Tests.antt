-- ===== src/Nodelist/Tests.antt =====
-- A run of the flags, and the theorem at a concrete input.
use binkleyforce.Base.{◌≡◌, refl, true, false, [], ◌∷◌, ◌++◌, Bytes}
use binkleyforce.Nodelist.{nodelist_checkflag, nodelist_checkflag_found}

abbrev ibn : Bytes
ibn = b'I' ∷ b'B' ∷ b'N' ∷ []

abbrev cm : Bytes
cm = b'C' ∷ b'M' ∷ []

abbrev port : Bytes
port = b':' ∷ b'2' ∷ b'4' ∷ []

-- The last field is found by its front, and a flag in the middle of a word, where its first letter
-- stands twice.
false_flags_run :
    (nodelist_checkflag (cm ++ b',' ∷ ibn) (b'I' ∷ []) ≡ true)
    × (nodelist_checkflag (b'X' ∷ b'A' ∷ b'A' ∷ []) (b'A' ∷ []) ≡ true)
    × (nodelist_checkflag (cm ++ b',' ∷ ibn) (b'M' ∷ b'O' ∷ []) ≡ false)
unfolding nodelist_checkflag
false_flags_run = (refl, refl, refl)

nodelist_checkflag_found_example :
    (nodelist_checkflag (ibn ++ port) ibn ≡ true)
    × (nodelist_checkflag (cm ++ b',' ∷ (ibn ++ port)) ibn ≡ true)
nodelist_checkflag_found_example =
    nodelist_checkflag_found cm ibn port (λ e. cc) (refl, (refl, (refl, tt)))
      (refl, (refl, (refl, tt))) refl
