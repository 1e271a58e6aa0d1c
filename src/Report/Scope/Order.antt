-- ===== src/Report/Scope/Order.antt =====
-- The order of paths of pkg/reporting/scope.go.
use robotdreams.Base.{
  ◌≤◌, ◌≡◌, refl, arith, Text, eqb_iff, eqb_refl, length, List, [], ◌∷◌, ◌++◌, true,
}
use robotdreams.Report.Scope.{split_scope, scope_within, is_prefix, scope_depth}

-- One path is within another just where its segments are the other's and more.
is_prefix→append :
    (ps zs : List Text) → is_prefix ps zs ≡ true → (rest : List Text) × (zs ≡ ps ++ rest)
unfolding is_prefix
is_prefix→append [] zs h = (zs, refl)
is_prefix→append (p ∷ ps) [] h = cc
is_prefix→append (p ∷ ps) (c ∷ zs) h =
    let e : p ≡ c = (eqb_iff p c).0 (ground arith) in
    let ih = is_prefix→append ps zs (ground arith) in (ih.0, cc)

is_prefix-append : (ps rest : List Text) → is_prefix ps (ps ++ rest) ≡ true
unfolding is_prefix
is_prefix-append [] rest = refl
is_prefix-append (p ∷ ps) rest = rw (eqb_refl p) (is_prefix-append ps rest)

is_prefix_trans :
    (xs ys zs : List Text)
    → is_prefix xs ys ≡ true
    → is_prefix ys zs ≡ true
    → is_prefix xs zs ≡ true
unfolding is_prefix
is_prefix_trans [] ys zs h k = refl
is_prefix_trans (a ∷ xs) [] zs h k = cc
is_prefix_trans (a ∷ xs) (b ∷ ys) [] h k = cc
is_prefix_trans (a ∷ xs) (b ∷ ys) (c ∷ zs) h k =
    let e : a ≡ b = (eqb_iff a b).0 (ground arith) in
    let ih = is_prefix_trans xs ys zs (ground arith) (ground arith) in ground arith

is_prefix_antisym : (xs ys : List Text) → is_prefix xs ys ≡ true → is_prefix ys xs ≡ true → xs ≡ ys
unfolding is_prefix
is_prefix_antisym [] [] h k = refl
is_prefix_antisym [] (b ∷ ys) h k = cc
is_prefix_antisym (a ∷ xs) [] h k = cc
is_prefix_antisym (a ∷ xs) (b ∷ ys) h k =
    let e : a ≡ b = (eqb_iff a b).0 (ground arith) in
    let ih = is_prefix_antisym xs ys (ground arith) (ground arith) in cc

is_prefix→le : (ps zs : List Text) → is_prefix ps zs ≡ true → length ps ≤ length zs
unfolding is_prefix
is_prefix→le [] zs h = omega arith
is_prefix→le (p ∷ ps) [] h = cc
is_prefix→le (p ∷ ps) (c ∷ zs) h = let ih = is_prefix→le ps zs (ground arith) in omega arith

-- To be within is transitive, and two paths that are within each other have the same segments.
pub scope_within_order :
    (a b c : Text)
    → scope_within a b ≡ true
    → (scope_within b c ≡ true → scope_within a c ≡ true)
      × ((scope_within b a ≡ true → split_scope a ≡ split_scope b)
          × (scope_depth a ≤ scope_depth b))
unfolding scope_within scope_depth
scope_within_order a b c h = (
  is_prefix_trans (split_scope a) (split_scope b) (split_scope c) h,
  (
    is_prefix_antisym (split_scope a) (split_scope b) h,
    is_prefix→le (split_scope a) (split_scope b) h,
  ),
)
