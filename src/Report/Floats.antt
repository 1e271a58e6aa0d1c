-- ===== src/Report/Floats.antt =====
-- What pkg/reporting does with a float64. The type and its operations are parameters.
use robotdreams.Base.{leb, not, ℕ, ◌+◌, ◌-◌, ◌*◌, min, [], Bool, ◌≡◌, ◌≤◌, ltb, Text, IsWeakOrder}

-- `share p n` is int(math.Ceil(p / 100 * float64(n))); `format` is FormatFloat with two decimals.
pub record Float (F : Type 0) : Type 0 where
  pub nought : F
  pub plus : F → F → F
  pub minus : F → F → F
  pub per : F → ℕ → F
  pub of_count : ℕ → F
  pub lt : F → F → Bool
  pub le : F → F → Bool
  pub share : ℕ → ℕ → ℕ
  pub format : F → Text

-- What holds of float64 away from NaN, which JSON cannot carry, and of shares up to the whole.
pub record IsOrderly (F : Type 0) ⦃f : Float F⦄ : Type 0 where
  pub weak : IsWeakOrder f.lt
  pub le-eq-not-lt : (a b : F) → f.le a b ≡ not (f.lt b a)
  pub share_le : (p n : ℕ) → p ≤ 100 → f.share p n ≤ n

-- The laws can be met: whole numbers.
instance abbrev pub whole_float : Float ℕ
whole_float = record {
  nought = 0;
  plus = λ a b. a + b;
  minus = λ a b. a - b;
  per = λ a n. a;
  of_count = λ n. n;
  lt = ltb;
  le = leb;
  share = λ p n. min n (p * n);
  format = λ a. [];
}
