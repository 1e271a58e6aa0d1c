-- ===== src/Base/Texts.antt =====
-- Go strings as lists of bytes, and the functions of the `strings` package that the code calls.
use Prim.Native.Char.{code}
use Prim.Native.Nat.{ℕ}
use Prim.Native.String.{String}
use mathlib.Core.Path.{◌≡◌, refl, ap, ap₂, ◌∙◌}
use mathlib.Core.Logic.{◌↔◌, inl, inr}
use mathlib.Core.Bool.{Bool, true, false, ◌&&◌, ◌||◌}
use mathlib.Core.Option
use mathlib.Core.Option.{Option, none, some}
use mathlib.Core.List.{List, [], ◌∷◌, ◌++◌}
use native.Mathlib.Omega.{arith}
use robotdreams.Base.Tests.{Bool-cases, Option-cases, ◌==◌, if◌then◌else◌, leb, ltb}

abbrev pub Text : Type 0
Text = List ℕ

-- The bytes of an ASCII literal.
abbrev pub codes : String → Text
codes String.[] = []
codes (String.◌∷◌ c s) = code c ∷ codes s

unfoldable pub eqb : Text → Text → Bool
eqb [] [] = true
eqb (x ∷ xs) (y ∷ ys) = x == y && eqb xs ys
eqb _ _ = false

abbrev pub is_empty : Text → Bool
is_empty [] = true
is_empty (x ∷ xs) = false

eqb→eq : (a b : Text) → eqb a b ≡ true → a ≡ b
unfolding eqb
eqb→eq [] [] h = refl
eqb→eq [] (y ∷ b) h = cc
eqb→eq (x ∷ a) [] h = cc
eqb→eq (x ∷ a) (y ∷ b) h = ground (arith, eqb→eq a b)

pub eqb_refl : (a : Text) → eqb a a ≡ true
unfolding eqb
eqb_refl [] = refl
eqb_refl (x ∷ a) = ground (arith, eqb_refl a)

pub eqb_iff : (a b : Text) → (eqb a b ≡ true) ↔ (a ≡ b)
eqb_iff a b = (eqb→eq a b, λ e. rw e (eqb_refl b))

-- strings.HasPrefix
unfoldable pub has_prefix : Text → Text → Bool
has_prefix s [] = true
has_prefix [] (p ∷ ps) = false
has_prefix (c ∷ s) (p ∷ ps) = c == p && has_prefix s ps

-- strings.CutPrefix: what follows the prefix
unfoldable pub cut_prefix : Text → Text → Option Text
cut_prefix s [] = some s
cut_prefix [] (p ∷ ps) = none
cut_prefix (c ∷ s) (p ∷ ps) = if c == p then cut_prefix s ps else none

-- strings.CutSuffix at a one-byte suffix
unfoldable pub cut_last : ℕ → Text → Option Text
cut_last b [] = none
cut_last b (c ∷ []) = if c == b then some [] else none
cut_last b (c ∷ d ∷ s) = Option.map (λ t. c ∷ t) (cut_last b (d ∷ s))

-- strings.Cut at a one-byte separator
unfoldable pub cut : ℕ → Text → Option (Text × Text)
cut b [] = none
cut b (c ∷ s) = if c == b then some ([], s) else Option.map (λ r. (c ∷ r.0, r.1)) (cut b s)

-- strings.Contains at a one-byte needle
unfoldable pub contains_byte : ℕ → Text → Bool
contains_byte b [] = false
contains_byte b (c ∷ s) = c == b || contains_byte b s

abbrev cons_head : ℕ → List Text → List Text
cons_head c [] = (c ∷ []) ∷ []
cons_head c (w ∷ ws) = (c ∷ w) ∷ ws

-- strings.Split at a one-byte separator
unfoldable pub split : ℕ → Text → List Text
split b [] = [] ∷ []
split b (c ∷ s) = if c == b then [] ∷ split b s else cons_head c (split b s)

-- strings.Join
unfoldable pub join : Text → List Text → Text
join sep [] = []
join sep (w ∷ []) = w
join sep (w ∷ v ∷ ws) = w ++ (sep ++ join sep (v ∷ ws))

-- ASCII white space, as unicode.IsSpace has it
abbrev is_space : ℕ → Bool
is_space c = c == 32 || (leb 9 c && leb c 13)

unfoldable pub trim_left : Text → Text
trim_left [] = []
trim_left (c ∷ s) = if is_space c then trim_left s else c ∷ s

abbrev trim_right_cons : ℕ → Text → Text
trim_right_cons c [] = if is_space c then [] else c ∷ []
trim_right_cons c (d ∷ t) = c ∷ d ∷ t

unfoldable pub trim_right : Text → Text
trim_right [] = []
trim_right (c ∷ s) = trim_right_cons c (trim_right s)

-- strings.TrimSpace on ASCII text
unfoldable pub trim_space : Text → Text
unfolding trim_left trim_right
trim_space s = trim_right (trim_left s)

-- `a < b` on Go strings: byte by byte, a proper prefix first
unfoldable pub text_ltb : Text → Text → Bool
text_ltb [] [] = false
text_ltb [] (y ∷ ys) = true
text_ltb (x ∷ xs) [] = false
text_ltb (x ∷ xs) (y ∷ ys) = ltb x y || (x == y && text_ltb xs ys)

pub has_prefix_self_append : (p s : Text) → has_prefix (p ++ s) p ≡ true
unfolding has_prefix
has_prefix_self_append [] s = refl
has_prefix_self_append (c ∷ p) s = ground (arith, has_prefix_self_append p s)

-- A prefix test finds the rest.
pub has_prefix→append : (s p : Text) → has_prefix s p ≡ true → (r : Text) × (s ≡ p ++ r)
unfolding has_prefix
has_prefix→append s [] h = (s, refl)
has_prefix→append [] (p ∷ ps) h = cc
has_prefix→append (c ∷ s) (p ∷ ps) h =
    let (r, e) = has_prefix→append s ps (ground arith) in (r, ap₂ ◌∷◌ (ground arith) e)

pub has_prefix_refl : (s : Text) → has_prefix s s ≡ true
unfolding has_prefix
has_prefix_refl [] = refl
has_prefix_refl (c ∷ s) = ground (arith, has_prefix_refl s)

-- Prefixes of prefixes are prefixes.
pub has_prefix_trans :
    (s p q : Text) → has_prefix s p ≡ true → has_prefix p q ≡ true → has_prefix s q ≡ true
unfolding has_prefix
has_prefix_trans s p [] h k = refl
has_prefix_trans s [] (c ∷ q) h k = cc
has_prefix_trans [] (d ∷ p) (c ∷ q) h k = cc
has_prefix_trans (e ∷ s) (d ∷ p) (c ∷ q) h k = ground (arith, has_prefix_trans s p q)

-- To cut a prefix off is to undo its putting on.
pub cut_prefix-append : (p r : Text) → cut_prefix (p ++ r) p ≡ some r
unfolding cut_prefix
cut_prefix-append [] r = refl
cut_prefix-append (c ∷ p) r = ground (arith, cut_prefix-append p r)

pub cut_prefix→append : (s p r : Text) → cut_prefix s p ≡ some r → s ≡ p ++ r
unfolding cut_prefix
cut_prefix→append s [] r h = ground arith
cut_prefix→append [] (c ∷ p) r h = cc
cut_prefix→append (d ∷ s) (c ∷ p) r h =
    ap₂ ◌∷◌ (ground arith) (cut_prefix→append s p r (ground arith))

-- A cut gives back the text around the separator, and splits at the first one.
pub cut→append : (b : ℕ) (s l r : Text) → cut b s ≡ some (l, r) → s ≡ l ++ b ∷ r
unfolding cut
cut→append b [] l r h = cc
cut→append b (c ∷ s) l r h = elim (Bool-cases (c == b)) [
  | inl e ↦ ground arith
  | inr ne ↦ elim (Option-cases (cut b s)) [
    | inl n ↦ absurd (ground arith)
    | inr (q, f) ↦
        let g : s ≡ q.0 ++ b ∷ q.1 = cut→append b s q.0 q.1 f in
        let a : c ∷ q.0 ≡ l = ground arith in
        let k : q.1 ≡ r = ground arith in ap (◌∷◌ c) g ∙ ap₂ (λ x y. x ++ b ∷ y) a k
  ]
]

pub cut-append : (b : ℕ) (l r : Text) → contains_byte b l ≡ false → cut b (l ++ b ∷ r) ≡ some (l, r)
unfolding cut contains_byte
cut-append b [] r h = ground arith
cut-append b (c ∷ l) r h = ground (arith, cut-append b l r)
