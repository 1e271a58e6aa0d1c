-- ===== src/Report/Checks.antt =====
-- The problems that the validations of pkg/reporting collect. The wording of a message is left out.
use robotdreams.Report.Sets.{contains_text}
use robotdreams.Base.{
  ℕ, suc, ◌≡◌, refl, Text, Assoc, is_empty, text_ltb, map, order_by, Bool, true, false, not, ◌&&◌,
  List, [], ◌∷◌, ◌++◌, All,
}

-- A field and its value, or a field, an index in it and the value there.
pub data Problem : Type 0 where
  bad : Text → Text → Problem
  bad_at : Text → ℕ → Text → Problem

-- A problem unless a test passes.
abbrev pub unless : Bool → Problem → List Problem
unless true p = []
unless false p = p ∷ []

-- The loops that number their elements and remember the names that they have seen.
unfoldable pub each :
    {A : Type 0}
    → (ℕ → List Text → A → List Problem)
    → (A → Text)
    → ℕ
    → List Text
    → List A
    → List Problem
each check name n seen [] = []
each check name n seen (x ∷ xs) = check n seen x ++ each check name (suc n) (name x ∷ seen) xs

-- Elements that each have to pass a test.
abbrev pub each_in : Text → (Text → Bool) → List Text → List Problem
each_in place test vals = each (λ n seen v. unless (test v) (bad_at place n v)) (λ v. v) 0 [] vals

-- A name may be neither empty nor repeated.
abbrev pub name_check : Text → ℕ → List Text → Text → List Problem
name_check place n seen v =
    unless (not (is_empty v) && not (contains_text seen v)) (bad_at place n v)

unfoldable pub vocabulary_check : Text → List Text → List Problem
unfolding each
vocabulary_check place vals = each (name_check place) (λ v. v) 0 [] vals

-- The keys of a map, sorted.
unfoldable pub sorted_keys : {V : Type 0} → Assoc V → List Text
sorted_keys m = order_by text_ltb (map (λ e. e.0) m)

pub append-nil : (xs ys : List Problem) → xs ++ ys ≡ [] → (xs ≡ []) × (ys ≡ [])
append-nil [] ys h = (refl, h)
append-nil (x ∷ xs) ys h = cc

pub unless-nil : (b : Bool) (p : Problem) → unless b p ≡ [] → b ≡ true
unless-nil true p h = refl
unless-nil false p h = cc

-- A loop without a problem has checked every element.
pub each-nil :
    {A : Type 0}
    → (check : ℕ → List Text → A → List Problem) (name : A → Text) (P : A → Type 0)
      (passes : (n : ℕ) (seen : List Text) (x : A) → check n seen x ≡ [] → P x) (n : ℕ)
      (seen : List Text) (xs : List A)
    → each check name n seen xs ≡ []
    → All P xs
unfolding each
each-nil check name P passes n seen [] h = tt
each-nil check name P passes n seen (x ∷ xs) h =
    let s = append-nil (check n seen x) (each check name (suc n) (name x ∷ seen) xs) h in
    (passes n seen x s.0, each-nil check name P passes (suc n) (name x ∷ seen) xs s.1)
