-- ===== src/Versions/Tests.antt =====
-- The theorems of this part at versions.
use robotdreams.Base.{◌≡◌, refl, codes, eqb, atoi, split, All, [], ◌∷◌, pos}
use robotdreams.Versions.{ParsedVersion, after, compare_versions, compare_parts}
use robotdreams.Versions.Symmetry.{compare_versions-flip, compare_parts_twins, flip, IsPlain}

abbrev candidate : ParsedVersion
candidate = record { major = 1; minor = 2; patch = 0; pre = codes "rc" }

abbrev release : ParsedVersion
release = record { major = 1; minor = 2; patch = 0; pre = [] }

candidate-IsPlain : All IsPlain (split b'.' candidate.pre)
unfolding split atoi
candidate-IsPlain = (λ n e. cc, tt)

release-IsPlain : All IsPlain (split b'.' release.pre)
unfolding split atoi
release-IsPlain = (λ n e. cc, tt)

compare_versions-flip_example :
    compare_versions release candidate ≡ flip (compare_versions candidate release)
compare_versions-flip_example =
    compare_versions-flip candidate release candidate-IsPlain release-IsPlain

compare_parts_twins_example :
    (compare_parts (codes "1" ∷ []) (codes "01" ∷ []) ≡ after)
    × (compare_parts (codes "01" ∷ []) (codes "1" ∷ []) ≡ after)
unfolding atoi eqb
compare_parts_twins_example =
    compare_parts_twins (codes "1") (codes "01") [] [] (pos 1) refl refl refl
