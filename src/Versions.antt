-- ===== src/Versions.antt =====
-- internal/selfupdate/version.go: the order of versions.
pub mod Symmetry
mod Tests
use robotdreams.Base.{
  ℕ, ℤ, pos, negsuc, Text, is_empty, eqb, text_ltb, cut, split, trim_space, atoi, ltb, ◌==◌, Bool,
  true, false, Option, none, some, List, [], ◌∷◌, if◌then◌else◌,
}

-- -1, 0 and 1.
pub data Order : Type 0 where
  before : Order
  same : Order
  after : Order

pub record ParsedVersion : Type 0 where
  pub major : ℕ
  pub minor : ℕ
  pub patch : ℕ
  pub pre : Text

-- What stands before a byte, and what after it; without the byte, all and nothing.
abbrev around : ℕ → Text → Text × Text
around b s = elim (cut b s) [ none ↦ (s, []) | some p ↦ p ]

abbrev number : Option ℤ → Option ℕ
number (some (pos n)) = some n
number _ = none

abbrev version_of : Text → Option ℕ → Option ℕ → Option ℕ → Option ParsedVersion
version_of pre (some a) (some b) (some c) =
    some (record { major = a; minor = b; patch = c; pre = pre })
version_of pre _ _ _ = none

abbrev version_parts : Text → List Text → Option ParsedVersion
version_parts pre (a ∷ b ∷ c ∷ []) =
    version_of pre (number (atoi a)) (number (atoi b)) (number (atoi c))
version_parts pre _ = none

unfoldable pub trim_version_prefix : Text → Text
trim_version_prefix [] = []
trim_version_prefix (c ∷ []) = c ∷ []
trim_version_prefix (c ∷ d ∷ v) = if c == b'v' then d ∷ v else c ∷ d ∷ v

-- `none` for every error.
unfoldable pub parse_version : Text → Option ParsedVersion
unfolding trim_version_prefix
parse_version text =
    let v = trim_version_prefix (trim_space text) in
    let halves = around b'-' (around b'+' v).0 in
    if is_empty v then none else version_parts halves.1 (split b'.' halves.0)

abbrev pub int_ltb : ℤ → ℤ → Bool
int_ltb (pos a) (pos b) = ltb a b
int_ltb (pos a) (negsuc b) = false
int_ltb (negsuc a) (pos b) = true
int_ltb (negsuc a) (negsuc b) = ltb b a

abbrev pub either : Bool → Order
either true = before
either false = after

-- Two identifiers that differ: numbers by value and before all else, the rest as texts.
abbrev pub compare_identifiers : Text → Text → Option ℤ → Option ℤ → Order
compare_identifiers a b (some m) (some n) = either (int_ltb m n)
compare_identifiers a b (some m) none = before
compare_identifiers a b none (some n) = after
compare_identifiers a b none none = either (text_ltb a b)

-- The loop over the identifiers that both have.
unfoldable pub compare_parts : List Text → List Text → Order
compare_parts [] [] = same
compare_parts [] (b ∷ bs) = before
compare_parts (a ∷ xs) [] = after
compare_parts (a ∷ xs) (b ∷ bs) =
    let rest = compare_parts xs bs in
    if eqb a b then rest else compare_identifiers a b (atoi a) (atoi b)

unfoldable pub compare_prerelease : Text → Text → Order
unfolding compare_parts
compare_prerelease a b =
    if eqb a b
    then same
    else if is_empty a
    then after
    else if is_empty b
    then before
    else compare_parts (split b'.' a) (split b'.' b)

-- One of the three numbers decides, or what follows.
abbrev pub number_first : ℕ → ℕ → Order → Order
number_first a b rest = if a == b then rest else either (ltb a b)

unfoldable pub compare_versions : ParsedVersion → ParsedVersion → Order
unfolding compare_prerelease
compare_versions a b =
    number_first a.major b.major
      (number_first a.minor b.minor (number_first a.patch b.patch (compare_prerelease a.pre b.pre)))

-- `Compare`: an error where one of the texts is no version.
unfoldable pub compare : Text → Text → Option Order
unfolding parse_version compare_versions
compare a b = elim (parse_version a) [
  | none ↦ none
  | some pa ↦ elim (parse_version b) [ none ↦ none | some pb ↦ some (compare_versions pa pb) ]
]
