-- ===== src/Base/Numbers.antt =====
-- Go's int with its sign, and the decimal texts of strconv.Atoi and of the verb %d.
use Prim.Native.Nat.{ℕ, zero, suc, ◌+◌, ◌-◌, ◌*◌, ◌/◌, ◌%◌, ◌^◌, ◌<◌}
use mathlib.Core.Path.{◌≡◌, refl, ap, ◌∙◌}
use mathlib.Core.Logic.{inl, inr, ◌≢◌}
use mathlib.Core.Bool.{Bool, true, false, ◌&&◌}
use mathlib.Core.Option.{Option, none, some}
use mathlib.Core.List.{[], ◌∷◌, ◌++◌}
use native.Mathlib.Omega.{arith}
use robotdreams.Base.Tests.{ltb, leb, ◌==◌, if◌then◌else◌, Bool-cases, lt→ltb}
use robotdreams.Base.Texts.{Text}

-- `negsuc n` is -(n + 1).
pub data ℤ : Type 0 where
  pos : ℕ → ℤ
  negsuc : ℕ → ℤ

abbrev pub is_negative : ℤ → Bool
is_negative (pos n) = false
is_negative (negsuc n) = true

-- A product with a count; no limit that a program can hold makes it overflow.
unfoldable pub times : ℤ → ℕ → ℤ
times (pos n) k = pos (n * k)
times (negsuc n) zero = pos 0
times (negsuc n) (suc k) = negsuc (suc n * suc k - 1)

abbrev is_digit : ℕ → Bool
is_digit c = leb b'0' c && leb c b'9'

unfoldable pub all_digits : Text → Bool
all_digits [] = true
all_digits (c ∷ s) = is_digit c && all_digits s

unfoldable pub value_from : ℕ → Text → ℕ
value_from acc [] = acc
value_from acc (c ∷ s) = value_from (acc * 10 + (c - b'0')) s

-- The digits after the sign, which must be there.
unfoldable pub magnitude : Text → Option ℕ
unfolding all_digits value_from
magnitude [] = none
magnitude (c ∷ s) = if all_digits (c ∷ s) then some (value_from 0 (c ∷ s)) else none

abbrev bounded_pos : Option ℕ → Option ℤ
bounded_pos none = none
bounded_pos (some n) = if ltb n (2 ^ 63) then some (pos n) else none

abbrev bounded_neg : Option ℕ → Option ℤ
bounded_neg none = none
bounded_neg (some zero) = some (pos 0)
bounded_neg (some (suc n)) = if ltb n (2 ^ 63) then some (negsuc n) else none

-- strconv.Atoi, where an int has 64 bits; every failure is `none`.
unfoldable pub atoi : Text → Option ℤ
unfolding magnitude
atoi [] = none
atoi (c ∷ s) =
    if c == b'-'
    then bounded_neg (magnitude s)
    else if c == b'+'
    then bounded_pos (magnitude s)
    else bounded_pos (magnitude (c ∷ s))

-- The digits of a number, with a turn for each.
unfoldable pub digits_of : ℕ → ℕ → Text
digits_of zero n = []
digits_of (suc fuel) n =
    let more = digits_of fuel (n / 10) ++ (b'0' + n % 10) ∷ [] in
    if ltb n 10 then (b'0' + n) ∷ [] else more

unfoldable pub itoa : ℕ → Text
unfolding digits_of
itoa n = digits_of (suc n) n

value_from-append :
    (acc : ℕ) (s t : Text) → value_from acc (s ++ t) ≡ value_from (value_from acc s) t
unfolding value_from
value_from-append acc [] t = refl
value_from-append acc (c ∷ s) t = value_from-append (acc * 10 + (c - b'0')) s t

value_from-digits_of : (fuel n : ℕ) → n < fuel → value_from 0 (digits_of fuel n) ≡ n
unfolding digits_of value_from
value_from-digits_of zero n h = absurd (omega arith)
value_from-digits_of (suc fuel) n h = elim (Bool-cases (ltb n 10)) [
  | inl b ↦ rw (b, digits_of) (omega arith)
  | inr b ↦
      rw (b, digits_of)
        (value_from-append 0 (digits_of fuel (n / 10)) ((b'0' + n % 10) ∷ [])
          ∙ (let ih = value_from-digits_of fuel (n / 10) (ground arith) in rw ih (omega arith)))
]

all_digits-append :
    (s t : Text) → all_digits s ≡ true → all_digits t ≡ true → all_digits (s ++ t) ≡ true
unfolding all_digits
all_digits-append [] t h k = k
all_digits-append (c ∷ s) t h k = ground (arith, all_digits-append s t)

all_digits-digits_of : (fuel n : ℕ) → all_digits (digits_of fuel n) ≡ true
unfolding digits_of all_digits
all_digits-digits_of zero n = refl
all_digits-digits_of (suc fuel) n = elim (Bool-cases (ltb n 10)) [
  | inl b ↦ rw (b, digits_of) (ground arith)
  | inr b ↦
      rw (b, digits_of)
        (all_digits-append (digits_of fuel (n / 10)) ((b'0' + n % 10) ∷ [])
          (all_digits-digits_of fuel (n / 10)) (ground arith))
]

atoi_of_digits :
    (s : Text) (n : ℕ)
    → s ≢ []
    → all_digits s ≡ true
    → value_from 0 s ≡ n
    → n < 2 ^ 63
    → atoi s ≡ some (pos n)
unfolding atoi magnitude all_digits
atoi_of_digits [] n ne d v h = absurd (ne refl)
atoi_of_digits (c ∷ s) n ne d v h =
    let p : (c == b'-') ≡ false = ground arith in
    let q : (c == b'+') ≡ false = ground arith in
    let m : magnitude (c ∷ s) ≡ some n = rw (d, magnitude) (ap some v) in
    let r : ltb n (2 ^ 63) ≡ true = lt→ltb n (2 ^ 63) h in ground arith

snoc-ne : (s : Text) (c : ℕ) → s ++ c ∷ [] ≢ []
snoc-ne [] c e = cc
snoc-ne (d ∷ s) c e = cc

digits_of-ne : (fuel n : ℕ) → 0 < fuel → digits_of fuel n ≢ []
unfolding digits_of
digits_of-ne zero n h e = omega arith
digits_of-ne (suc fuel) n h e = elim (Bool-cases (ltb n 10)) [
  | inl b ↦ let e' : (b'0' + n) ∷ [] ≡ [] = rw b at e in cc
  | inr b ↦
      let e' : digits_of fuel (n / 10) ++ (b'0' + n % 10) ∷ [] ≡ [] = rw b at e in
      snoc-ne (digits_of fuel (n / 10)) (b'0' + n % 10) e'
]

-- Parsing what was printed gives the number back.
pub atoi-itoa : (n : ℕ) → n < 2 ^ 63 → atoi (itoa n) ≡ some (pos n)
unfolding itoa
atoi-itoa n h =
    atoi_of_digits (digits_of (suc n) n) n (digits_of-ne (suc n) n (omega arith))
      (all_digits-digits_of (suc n) n) (value_from-digits_of (suc n) n (omega arith)) h
