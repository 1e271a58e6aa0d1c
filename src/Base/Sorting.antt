-- ===== src/Base/Sorting.antt =====
-- sort.SliceStable and SQL's ORDER BY, by an order that is given as a test: insertion from the right,
-- so that elements neither of which goes before the other keep their order.
use Prim.Native.Nat.{ℕ, zero, suc}
use mathlib.Core.Path.{◌≡◌, refl}
use mathlib.Core.Logic.{◌⊎◌, inl, inr}
use mathlib.Core.Bool.{Bool, true, false}
use mathlib.Core.List.{List, [], ◌∷◌}
use native.Mathlib.Omega.{arith}
use robotdreams.Base.Tests.{if◌then◌else◌, Bool-cases}
use robotdreams.Base.Lists.{
  IsApart, All-take, All-weaken, All-keep, In, All, All_of_in, length, keep, take, drop,
}

module _ {A : Type 0} (before : A → A → Bool) where
  unfoldable pub insert_by : A → List A → List A
  insert_by s [] = s ∷ []
  insert_by s (t ∷ ts) = if before t s then t ∷ insert_by s ts else s ∷ t ∷ ts

  unfoldable pub order_by : List A → List A
  unfolding insert_by
  order_by [] = []
  order_by (s ∷ ss) = insert_by s (order_by ss)

  In-insert_by : (x s : A) (ss : List A) → In x (s ∷ ss) → In x (insert_by s ss)
  unfolding insert_by
  In-insert_by x s [] h = h
  In-insert_by x s (t ∷ ts) h = elim (Bool-cases (before t s)) [
    | inl b ↦
        rw (b, insert_by)
          (elim h [
            | inl e ↦ inr (In-insert_by x s ts (inl e))
            | inr r ↦ elim r [ inl e ↦ inl e | inr q ↦ inr (In-insert_by x s ts (inr q)) ]
          ])
    | inr b ↦ rw (b, insert_by) h
  ]

  In-of_insert_by : (x s : A) (ss : List A) → In x (insert_by s ss) → In x (s ∷ ss)
  unfolding insert_by
  In-of_insert_by x s [] h = h
  In-of_insert_by x s (t ∷ ts) h = elim (Bool-cases (before t s)) [
    | inr b ↦ let h' : In x (s ∷ t ∷ ts) = rw b at h in h'
    | inl b ↦
        let h' : In x (t ∷ insert_by s ts) = rw b at h in
        elim h' [
          | inl e ↦ inr (inl e)
          | inr q ↦ elim (In-of_insert_by x s ts q) [ inl e ↦ inl e | inr r ↦ inr (inr r) ]
        ]
  ]

  -- Sorting neither drops nor invents.
  pub In-order_by : (x : A) (ss : List A) → In x ss → In x (order_by ss)
  unfolding order_by
  In-order_by x [] h = h
  In-order_by x (s ∷ ss) (inl e) = In-insert_by x s (order_by ss) (inl e)
  In-order_by x (s ∷ ss) (inr h) = In-insert_by x s (order_by ss) (inr (In-order_by x ss h))

  pub In-of_order_by : (x : A) (ss : List A) → In x (order_by ss) → In x ss
  unfolding order_by
  In-of_order_by x [] h = h
  In-of_order_by x (s ∷ ss) h = elim (In-of_insert_by x s (order_by ss) h) [
    | inl e ↦ inl e
    | inr q ↦ inr (In-of_order_by x ss q)
  ]

  length-insert_by : (s : A) (ss : List A) → length (insert_by s ss) ≡ suc (length ss)
  unfolding insert_by
  length-insert_by s [] = refl
  length-insert_by s (t ∷ ts) = ground (arith, length-insert_by s ts)

  pub length-order_by : (ss : List A) → length (order_by ss) ≡ length ss
  unfolding order_by
  length-order_by [] = refl
  length-order_by (s ∷ ss) = omega (arith, length-insert_by s (order_by ss), length-order_by ss)

  -- No element goes before an earlier one.
  abbrev pub IsOrdered : List A → Type 0
  IsOrdered [] = Unit
  IsOrdered (x ∷ xs) = All (λ y. before y x ≡ false) xs × IsOrdered xs

  -- What the test has to satisfy: it is a strict weak order.
  pub record IsWeakOrder : Type 0 where
    pub asym : (x y : A) → before x y ≡ true → before y x ≡ false
    pub cotrans : (x y z : A) → before x y ≡ false → before y z ≡ false → before x z ≡ false

  All-insert_by : (P : A → Type 0) (s : A) (ss : List A) → P s → All P ss → All P (insert_by s ss)
  unfolding insert_by
  All-insert_by P s [] p a = (p, tt)
  All-insert_by P s (t ∷ ts) p (q, a) = elim (Bool-cases (before t s)) [
    | inl b ↦ rw (b, insert_by) (q, All-insert_by P s ts p a)
    | inr b ↦ rw (b, insert_by) (p, (q, a))
  ]

  insert_by-IsOrdered :
      IsWeakOrder → (s : A) (ss : List A) → IsOrdered ss → IsOrdered (insert_by s ss)
  unfolding insert_by
  insert_by-IsOrdered w s [] o = (tt, tt)
  insert_by-IsOrdered w s (t ∷ ts) (a, o) = elim (Bool-cases (before t s)) [
    | inl b ↦
        rw (b, insert_by)
          (
            All-insert_by (λ y. before y t ≡ false) s ts (w.asym t s b) a,
            insert_by-IsOrdered w s ts o,
          )
    | inr b ↦
        rw (b, insert_by)
          (
            (
              b,
              All-weaken (λ y. before y t ≡ false) (λ y. before y s ≡ false)
                  (λ y h. w.cotrans y t s h b) ts a,
            ),
            (a, o),
          )
  ]

  pub order_by-IsOrdered : IsWeakOrder → (ss : List A) → IsOrdered (order_by ss)
  unfolding order_by
  order_by-IsOrdered w [] = tt
  order_by-IsOrdered w (s ∷ ss) = insert_by-IsOrdered w s (order_by ss) (order_by-IsOrdered w ss)

  pub take-IsOrdered : (n : ℕ) (xs : List A) → IsOrdered xs → IsOrdered (take n xs)
  take-IsOrdered zero xs o = tt
  take-IsOrdered (suc n) [] o = tt
  take-IsOrdered (suc n) (x ∷ xs) (a, o) =
      (All-take (λ y. before y x ≡ false) n xs a, take-IsOrdered n xs o)

  -- What is cut off a sorted list goes before nothing that is left.
  pub take-cut :
      (n : ℕ) (xs : List A) (x : A)
      → IsOrdered xs
      → In x xs
      → In x (take n xs) ⊎ All (λ y. before x y ≡ false) (take n xs)
  take-cut zero xs x o h = inr tt
  take-cut (suc n) [] x o h = inr tt
  take-cut (suc n) (y ∷ ys) x (a, o) (inl e) = inl (inl e)
  take-cut (suc n) (y ∷ ys) x (a, o) (inr h) = elim (take-cut n ys x o h) [
    | inl t ↦ inl (inr t)
    | inr t ↦ inr (All_of_in (λ y'. before y' y ≡ false) ys x a h, t)
  ]

  pub drop-IsOrdered : (n : ℕ) (xs : List A) → IsOrdered xs → IsOrdered (drop n xs)
  drop-IsOrdered zero xs o = o
  drop-IsOrdered (suc n) [] o = tt
  drop-IsOrdered (suc n) (x ∷ xs) (a, o) = drop-IsOrdered n xs o

  pub keep-IsOrdered : (p : A → Bool) (xs : List A) → IsOrdered xs → IsOrdered (keep p xs)
  keep-IsOrdered p [] o = tt
  keep-IsOrdered p (x ∷ xs) (a, o) = elim (Bool-cases (p x)) [
    | inl b ↦ rw b (All-keep (λ y. before y x ≡ false) p xs a, keep-IsOrdered p xs o)
    | inr b ↦ rw b (keep-IsOrdered p xs o)
  ]

  pub All-order_by : (P : A → Type 0) (ss : List A) → All P ss → All P (order_by ss)
  unfolding order_by
  All-order_by P [] a = tt
  All-order_by P (s ∷ ss) (p, a) = All-insert_by P s (order_by ss) p (All-order_by P ss a)

  module _ (R : A → A → Type 0) (symm : (x y : A) → R x y → R y x) where
    insert_by-IsApart :
        (s : A) (ss : List A) → All (R s) ss → IsApart R ss → IsApart R (insert_by s ss)
    unfolding insert_by
    insert_by-IsApart s [] a d = (tt, tt)
    insert_by-IsApart s (t ∷ ts) (p, a) (q, d) = elim (Bool-cases (before t s)) [
      | inl b ↦
          rw (b, insert_by) (All-insert_by (R t) s ts (symm s t p) q, insert_by-IsApart s ts a d)
      | inr b ↦ rw (b, insert_by) ((p, a), (q, d))
    ]

    pub order_by-IsApart : (ss : List A) → IsApart R ss → IsApart R (order_by ss)
    unfolding order_by
    order_by-IsApart [] d = tt
    order_by-IsApart (s ∷ ss) (a, d) =
        insert_by-IsApart s (order_by ss) (All-order_by (R s) ss a) (order_by-IsApart ss d)
