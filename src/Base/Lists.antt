-- ===== src/Base/Lists.antt =====
-- Lists measured by native numbers, filtered by Boolean tests, and membership by recursion.
use Prim.Native.Nat.{◌<◌, ℕ, zero, suc, ◌+◌, ◌-◌, ◌≤◌, min}
use mathlib.Core.Path.{◌≡◌, refl, sym, ap, ◌∙◌, subst}
use mathlib.Core.Logic.{◌⊎◌, inl, inr, ◌↔◌}
use mathlib.Core.Bool.{Bool, true, false, ◌||◌, not}
use mathlib.Core.List.{List, [], ◌∷◌, ◌++◌}
use native.Mathlib.Omega.{arith}
use native.Mathlib.Nat.{add-zero}
use robotdreams.Base.Tests.{if◌then◌else◌, Bool-cases}

module _ {ℓ} {A : Type ℓ} where
  abbrev pub length : List A → ℕ
  length [] = 0
  length (x ∷ xs) = suc (length xs)

  abbrev pub take : ℕ → List A → List A
  take zero xs = []
  take (suc n) [] = []
  take (suc n) (x ∷ xs) = x ∷ take n xs

  abbrev pub drop : ℕ → List A → List A
  drop zero xs = xs
  drop (suc n) [] = []
  drop (suc n) (x ∷ xs) = drop n xs

  -- The elements that pass a test, in order.
  abbrev pub keep : (A → Bool) → List A → List A
  keep p [] = []
  keep p (x ∷ xs) = if p x then x ∷ keep p xs else keep p xs

  abbrev pub any : (A → Bool) → List A → Bool
  any p [] = false
  any p (x ∷ xs) = p x || any p xs

  -- The last `n` elements, or all where there are fewer.
  abbrev pub last_n : ℕ → List A → List A
  last_n n xs = drop (length xs - n) xs

  pub length-append : (xs ys : List A) → length (xs ++ ys) ≡ length xs + length ys
  length-append [] ys = omega arith
  length-append (x ∷ xs) ys = omega (arith, length-append xs ys)

  pub length-drop : (n : ℕ) (xs : List A) → length (drop n xs) ≡ length xs - n
  length-drop zero xs = omega arith
  length-drop (suc n) [] = omega arith
  length-drop (suc n) (x ∷ xs) = omega (arith, length-drop n xs)

  pub drop-drop : (a b : ℕ) (xs : List A) → drop a (drop b xs) ≡ drop (a + b) xs
  drop-drop a zero xs = rw add-zero
  drop-drop a (suc b) [] = drop-nil a ∙ sym (drop-nil (a + suc b))
    where
      drop-nil : (n : ℕ) → drop n [] ≡ []
      drop-nil zero = refl
      drop-nil (suc n) = refl
  drop-drop a (suc b) (x ∷ xs) =
      let e : a + suc b ≡ suc (a + b) = omega arith in rw e (drop-drop a b xs)

  pub drop-append_le :
      (n : ℕ) (xs ys : List A) → n ≤ length xs → drop n (xs ++ ys) ≡ drop n xs ++ ys
  drop-append_le zero xs ys h = refl
  drop-append_le (suc n) [] ys h = absurd (omega arith)
  drop-append_le (suc n) (x ∷ xs) ys h = drop-append_le n xs ys (omega arith)

  -- To keep the last `n` again after more was appended is to keep the last `n` of the whole.
  pub last_n-append : (n : ℕ) (xs ys : List A) → last_n n (last_n n xs ++ ys) ≡ last_n n (xs ++ ys)
  last_n-append n xs ys =
      let b = length xs - n in
      let e : drop b xs ++ ys ≡ drop b (xs ++ ys) = sym (drop-append_le b xs ys (omega arith)) in
      let k : length (drop b (xs ++ ys)) ≡ length (xs ++ ys) - b = length-drop b (xs ++ ys) in
      rw (e, k, drop-drop) (ap (λ m. drop m (xs ++ ys)) (omega (arith, length-append xs ys)))

  pub length-last_n : (n : ℕ) (xs : List A) → length (last_n n xs) ≡ min n (length xs)
  length-last_n n xs = omega (arith, length-drop (length xs - n) xs)

  pub length-last_n-le : (n : ℕ) (xs : List A) → length (last_n n xs) ≤ n
  length-last_n-le n xs = omega (arith, length-drop (length xs - n) xs)

  any-append_right : (p : A → Bool) (xs ys : List A) → any p ys ≡ true → any p (xs ++ ys) ≡ true
  any-append_right p [] ys h = h
  any-append_right p (x ∷ xs) ys h = ground (arith, any-append_right p xs ys h)

  -- The last element is among the last `n`.
  pub any-last_n :
      (p : A → Bool) (n : ℕ) (xs : List A) (x : A)
      → 0 < n
      → p x ≡ true
      → any p (last_n n (xs ++ x ∷ [])) ≡ true
  any-last_n p n xs x pos h =
      let l : length (xs ++ x ∷ []) ≡ length xs + 1 = length-append xs (x ∷ []) in
      rw (drop-append_le (length (xs ++ x ∷ []) - n) xs (x ∷ []) (omega (arith, l)))
        (any-append_right p (drop (length (xs ++ x ∷ []) - n) xs) (x ∷ []) (ground arith))

  pub length-keep-le : (p : A → Bool) (xs : List A) → length (keep p xs) ≤ length xs
  length-keep-le p [] = omega arith
  length-keep-le p (x ∷ xs) = ground (arith, length-keep-le p xs)

  pub length-take : (n : ℕ) (xs : List A) → length (take n xs) ≡ min n (length xs)
  length-take zero xs = omega arith
  length-take (suc n) [] = omega arith
  length-take (suc n) (x ∷ xs) = omega (arith, length-take n xs)

  -- What passes a test and what fails it are all there is.
  pub length-keep-not :
      (p : A → Bool) (xs : List A)
      → length (keep p xs) + length (keep (λ x. not (p x)) xs) ≡ length xs
  length-keep-not p [] = refl
  length-keep-not p (x ∷ xs) = ground (arith, length-keep-not p xs)

  pub length-take-le : (n : ℕ) (xs : List A) → length (take n xs) ≤ n
  length-take-le zero xs = omega arith
  length-take-le (suc n) [] = omega arith
  length-take-le (suc n) (x ∷ xs) = omega (arith, length-take-le n xs)

module _ {A : Type 0} where
  abbrev pub In : A → List A → Type 0
  In x [] = ⊥
  In x (y ∷ ys) = (x ≡ y) ⊎ In x ys

  abbrev pub All : (A → Type 0) → List A → Type 0
  All P [] = Unit
  All P (x ∷ xs) = P x × All P xs

  pub In-append_left : (x : A) (xs ys : List A) → In x xs → In x (xs ++ ys)
  In-append_left x [] ys h = elim h [ ]
  In-append_left x (z ∷ xs) ys (inl e) = inl e
  In-append_left x (z ∷ xs) ys (inr h) = inr (In-append_left x xs ys h)

  pub In-append_right : (x : A) (xs ys : List A) → In x ys → In x (xs ++ ys)
  In-append_right x [] ys h = h
  In-append_right x (z ∷ xs) ys h = inr (In-append_right x xs ys h)

  pub In-append_cases : (x : A) (xs ys : List A) → In x (xs ++ ys) → In x xs ⊎ In x ys
  In-append_cases x [] ys h = inr h
  In-append_cases x (z ∷ xs) ys (inl e) = inl (inl e)
  In-append_cases x (z ∷ xs) ys (inr h) = elim (In-append_cases x xs ys h) [
    | inl a ↦ inl (inr a)
    | inr b ↦ inr b
  ]

  -- What passes the test is what was in the list and passes it.
  pub In-keep_iff :
      (p : A → Bool) (x : A) (xs : List A) → In x (keep p xs) ↔ (In x xs × (p x ≡ true))
  In-keep_iff p x [] = (λ h. absurd h, λ h. h.0)
  In-keep_iff p x (y ∷ ys) = let ih = In-keep_iff p x ys in (from ih, to ih)
    where
      from :
          In x (keep p ys) ↔ (In x ys × (p x ≡ true))
          → In x (keep p (y ∷ ys))
          → In x (y ∷ ys) × (p x ≡ true)
      from ih h = ground (arith, ih.0)

      to :
          In x (keep p ys) ↔ (In x ys × (p x ≡ true))
          → In x (y ∷ ys) × (p x ≡ true)
          → In x (keep p (y ∷ ys))
      to ih h = ground (arith, ih.1)

  pub All_of_in : (P : A → Type 0) (xs : List A) (x : A) → All P xs → In x xs → P x
  All_of_in P [] x _ h = elim h [ ]
  All_of_in P (y ∷ ys) x (p, q) (inl e) = subst P (sym e) p
  All_of_in P (y ∷ ys) x (p, q) (inr h) = All_of_in P ys x q h

  pub All-append : (P : A → Type 0) (xs ys : List A) → All P xs → All P ys → All P (xs ++ ys)
  All-append P [] ys _ k = k
  All-append P (x ∷ xs) ys (p, h) k = (p, All-append P xs ys h k)

  pub All-take : (P : A → Type 0) (n : ℕ) (xs : List A) → All P xs → All P (take n xs)
  All-take P zero xs a = tt
  All-take P (suc n) [] a = tt
  All-take P (suc n) (x ∷ xs) (p, a) = (p, All-take P n xs a)

  pub In-of_take : (x : A) (n : ℕ) (xs : List A) → In x (take n xs) → In x xs
  In-of_take x zero xs h = absurd h
  In-of_take x (suc n) [] h = absurd h
  In-of_take x (suc n) (y ∷ ys) (inl e) = inl e
  In-of_take x (suc n) (y ∷ ys) (inr h) = inr (In-of_take x n ys h)

  pub In-of_drop : (x : A) (n : ℕ) (xs : List A) → In x (drop n xs) → In x xs
  In-of_drop x zero xs h = h
  In-of_drop x (suc n) [] h = h
  In-of_drop x (suc n) (y ∷ ys) h = inr (In-of_drop x n ys h)

  pub All-drop : (P : A → Type 0) (n : ℕ) (xs : List A) → All P xs → All P (drop n xs)
  All-drop P zero xs a = a
  All-drop P (suc n) [] a = tt
  All-drop P (suc n) (x ∷ xs) (p, a) = All-drop P n xs a

  pub All-keep : (P : A → Type 0) (p : A → Bool) (xs : List A) → All P xs → All P (keep p xs)
  All-keep P p [] a = tt
  All-keep P p (x ∷ xs) (h, a) = elim (Bool-cases (p x)) [
    | inl b ↦ rw b (h, All-keep P p xs a)
    | inr b ↦ rw b (All-keep P p xs a)
  ]

  pub All-keep_passed : (p : A → Bool) (xs : List A) → All (λ x. p x ≡ true) (keep p xs)
  All-keep_passed p [] = tt
  All-keep_passed p (x ∷ xs) = elim (Bool-cases (p x)) [
    | inl b ↦ rw b (b, All-keep_passed p xs)
    | inr b ↦ rw b (All-keep_passed p xs)
  ]

  pub All-weaken : (P Q : A → Type 0) → ((x : A) → P x → Q x) → (xs : List A) → All P xs → All Q xs
  All-weaken P Q f [] a = tt
  All-weaken P Q f (x ∷ xs) (p, a) = (f x p, All-weaken P Q f xs a)

  -- Any two elements stand in a relation.
  abbrev pub IsApart : (A → A → Type 0) → List A → Type 0
  IsApart R [] = Unit
  IsApart R (x ∷ xs) = All (R x) xs × IsApart R xs
