-- ===== src/Orgchart/Graph/Moves.antt =====
-- Reassign against a specification that mentions no loop.
use robotdreams.Base.{
  ℕ, suc, ◌≡◌, ◌≢◌, Text, eqb, eqb_iff, is_empty, lookup, insert, length, none, some, arith, Bool,
  true, false, Option-cases, Bool-cases, inl, inr, [], Result, ok, err,
}
use robotdreams.Orgchart.Graph.{
  Graph, Worker, Error, reassign, has_ancestor, with_parent, not_found, cycle, parent_not_found,
}
use robotdreams.Orgchart.Graph.Chains.{Climbs, Links-le-length}
use robotdreams.Orgchart.Graph.Ancestry.{has_ancestor_ends, has_ancestor-true}
use robotdreams.Orgchart.Graph.Forest.{IsForest}
use robotdreams.Orgchart.Graph.Edits.{other_avoids}

-- What a move of `k` under `p` should answer: the graph with that one edge changed, unless `k` or
-- `p` is no worker, or `k` is `p` or stands above it.
pub data Move (g : Graph) (k p : Text) : Result Error Graph → Type 0 where
  no_worker : lookup k g ≡ none → Move g k p (err not_found)
  to_root :
      (w : Worker) → lookup k g ≡ some w → p ≡ [] → Move g k p (ok (insert k (with_parent w []) g))
  no_parent :
      (w : Worker)
      → lookup k g ≡ some w
      → p ≢ []
      → lookup p g ≡ none
      → Move g k p (err parent_not_found)
  own_report :
      (w : Worker) (n : ℕ) → lookup k g ≡ some w → p ≢ [] → Climbs g n p k → Move g k p (err cycle)
  moved :
      (w v : Worker)
      → lookup k g ≡ some w
      → lookup p g ≡ some v
      → p ≢ []
      → ((n : ℕ) → ¬ Climbs g n p k)
      → Move g k p (ok (insert k (with_parent w p) g))

module _ {g : Graph} (f : IsForest g) (k p : Text) where
  Answers : Type 0
  Answers = (r : Result Error Graph) × (reassign g k p ≡ some r) × Move g k p r

  -- both are workers, and `p` is not `k`
  tested :
      (w v : Worker)
      → lookup k g ≡ some w
      → lookup p g ≡ some v
      → p ≢ []
      → eqb p k ≡ false
      → Answers
  unfolding Answers reassign
  tested w v a b np ne =
      let (m, l) = f.acyclic v.reports_to in
      let (found, e) =
        has_ancestor_ends (suc (length g)) g v k m l
          (omega (arith, Links-le-length m g v.reports_to l)) in
      decided found e
    where
      decided : (found : Bool) → has_ancestor (suc (length g)) g v k ≡ some found → Answers
      decided true e =
          let (n, c) = has_ancestor-true _ g v k e in
          (err cycle, ground arith, own_report w (suc n) a np (v.reports_to, ground arith, c))
      decided false e = (
        ok (insert k (with_parent w p) g),
        ground arith,
        moved w v a b np (other_avoids f k p v (λ z. ground (arith, f.no_blank)) b ne _ e),
      )

  -- On a forest, Reassign returns, and what it answers is what the move should answer.
  pub reassign-Move : (r : Result Error Graph) × (reassign g k p ≡ some r) × Move g k p r
  unfolding Answers reassign
  reassign-Move = elim (Option-cases (lookup k g)) [
    | inl e ↦ (err not_found, ground arith, no_worker e)
    | inr (w, e) ↦ elim (Bool-cases (is_empty p)) [
      | inl b ↦ (ok (insert k (with_parent w []) g), ground arith, to_root w e (ground arith))
      | inr nb ↦
          let np : p ≢ [] = λ z. ground arith in
          elim (Bool-cases (eqb p k)) [
            | inl s ↦ (err cycle, ground arith, own_report w 0 e np ((eqb_iff p k).0 s))
            | inr ne ↦ elim (Option-cases (lookup p g)) [
              | inl a ↦ (err parent_not_found, ground arith, no_parent w e np a)
              | inr (v, a) ↦ tested w v e a np ne
            ]
          ]
    ]
  ]
