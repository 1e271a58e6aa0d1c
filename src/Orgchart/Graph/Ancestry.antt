-- ===== src/Orgchart/Graph/Ancestry.antt =====
-- hasAncestorLocked: its loop ends on a chain that ends, and it decides who stands above whom.
use mathlib.Core.HLevel.{⊥_prop}
use mathlib.Core.Logic.{∥∥₁_elim}
use robotdreams.Base.{
  ℕ, zero, suc, ◌<◌, ◌≡◌, refl, ◌≢◌, ◌↔◌, Text, eqb, eqb_iff, is_empty, lookup, length, none, some,
  arith, Bool, true, false, not, ◌||◌, Option-cases, Bool-cases, inl, inr, [],
}
use robotdreams.Orgchart.Graph.{Graph, Worker, has_ancestor}
use robotdreams.Orgchart.Graph.Chains.{manager_of_some, Links, Climbs, IsAcyclic, Links-le-length}

-- One turn of the loop, by what its tests find.
climb_step :
    (fuel : ℕ) (g : Graph) (w v : Worker) (a : Text)
    → is_empty w.reports_to ≡ false
    → eqb w.reports_to a ≡ false
    → lookup w.reports_to g ≡ some v
    → has_ancestor (suc fuel) g w a ≡ has_ancestor fuel g v a
unfolding has_ancestor
climb_step fuel g w v a ne na e = rw (ne, na, e)

pub has_ancestor_ends :
    (fuel : ℕ) (g : Graph) (w : Worker) (a : Text) (m : ℕ)
    → Links g m w.reports_to
    → m < fuel
    → (b : Bool) × (has_ancestor fuel g w a ≡ some b)
unfolding has_ancestor
has_ancestor_ends zero g w a m l h = absurd (omega arith)
has_ancestor_ends (suc fuel) g w a zero l h =
    elim (Bool-cases (is_empty w.reports_to || not (eqb w.reports_to a))) [
      | inl e ↦ (false, ground arith)
      | inr ne ↦ (true, ground arith)
    ]
has_ancestor_ends (suc fuel) g w a (suc m) (p, f, l) h = elim (Bool-cases (is_empty w.reports_to)) [
  | inl e ↦ (false, rw e)
  | inr ne ↦ elim (Bool-cases (eqb w.reports_to a)) [
    | inl e ↦ (true, rw (ne, e))
    | inr na ↦
        let (v, e, s) = manager_of_some g w.reports_to p f in
        let (b, r) = has_ancestor_ends fuel g v a m (rw s l) (omega arith) in (b, rw (ne, na, e) r)
  ]
]

-- A climb that reports the ancestor has passed it.
pub has_ancestor-true :
    (fuel : ℕ) (g : Graph) (w : Worker) (a : Text)
    → has_ancestor fuel g w a ≡ some true
    → (n : ℕ) × Climbs g n w.reports_to a
unfolding has_ancestor
has_ancestor-true zero g w a h = cc
has_ancestor-true (suc fuel) g w a h = elim (Bool-cases (eqb w.reports_to a)) [
  | inl e ↦ (0, (eqb_iff _ a).0 e)
  | inr na ↦ elim (Option-cases (lookup w.reports_to g)) [
    | inl e ↦ absurd (ground arith)
    | inr (v, e) ↦
        let (n, c) = has_ancestor-true fuel g v a (ground arith) in
        (suc n, (v.reports_to, ground arith, c))
  ]
]

-- A climb that reports that it did not meet the ancestor would have met it anywhere on the chain.
pub has_ancestor-false :
    (fuel : ℕ) (g : Graph) (w : Worker) (a : Text) (n : ℕ)
    → lookup [] g ≡ none
    → a ≢ []
    → has_ancestor fuel g w a ≡ some false
    → ¬ Climbs g n w.reports_to a
unfolding has_ancestor
has_ancestor-false zero g w a n nb na h c = cc
has_ancestor-false (suc fuel) g w a zero nb na h c = ground (arith, eqb_iff w.reports_to a)
has_ancestor-false (suc fuel) g w a (suc n) nb na h (p, e, c) =
    let (v, f, s) = manager_of_some g w.reports_to p e in
    has_ancestor-false fuel g v a n nb na (ground (arith, eqb_iff w.reports_to a)) (rw s c)

-- In a graph whose chains end and that has no worker without an id, the climb with one more turn
-- than there are workers returns, and it returns true exactly where the given id, which is not
-- empty, stands on the chain of managers of the worker.
pub has_ancestor_decides :
    (g : Graph) (w : Worker) (a : Text)
    → lookup [] g ≡ none
    → IsAcyclic g
    → a ≢ []
    → (b : Bool) × (has_ancestor (suc (length g)) g w a ≡ some b)
      × ((b ≡ true) ↔ ∥ ((n : ℕ) × Climbs g n w.reports_to a) ∥₁)
has_ancestor_decides g w a nb ac na = conclude (ac w.reports_to)
  where
    answer :
        (b : Bool)
        → has_ancestor (suc (length g)) g w a ≡ some b
        → (b ≡ true) ↔ ∥ ((n : ℕ) × Climbs g n w.reports_to a) ∥₁
    answer true e = (λ _. ∣ has_ancestor-true _ g w a e ∣₁, λ _. refl)
    answer false e =
        (λ h. cc, λ t. absurd (∥∥₁_elim t ⊥_prop (λ c. has_ancestor-false _ g w a c.0 nb na e c.1)))

    conclude :
        (n : ℕ) × Links g n w.reports_to
        → (b : Bool) × (has_ancestor (suc (length g)) g w a ≡ some b)
          × ((b ≡ true) ↔ ∥ ((n : ℕ) × Climbs g n w.reports_to a) ∥₁)
    conclude (n, l) =
        let (b, e) =
          has_ancestor_ends (suc (length g)) g w a n l
            (omega (arith, Links-le-length n g w.reports_to l)) in
        (b, e, answer b e)
