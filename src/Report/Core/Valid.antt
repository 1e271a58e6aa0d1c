-- ===== src/Report/Core/Valid.antt =====
-- What a definition without a problem, as validateCore of pkg/reporting/definition.go sees it, has.
use robotdreams.Report.Sets.{IsOnce, contains_text}
use robotdreams.Base.{
  ◌⊎◌, ℕ, suc, ◌≡◌, ◌<◌, ◌↔◌, refl, sym, inl, inr, arith, Bool-cases, Text, eqb, eqb_iff, is_empty,
  true, false, not, ◌&&◌, Option, some, List, [], ◌∷◌, All, All-weaken, length, codes,
}
use robotdreams.Report.Floats.{Float}
use robotdreams.Report.Model.{Definition, Instance, PlanFacet}
use robotdreams.Report.Contributors.{Period, contributors_in}
use robotdreams.Report.Plan.{aggregate_plan_in, plan_of, origin_stamped_items}
use robotdreams.Report.Plan.Limits.{items_in}
use robotdreams.Report.Plan.Counts.{plan_of_columns, states_of}
use robotdreams.Report.Checks.{each, unless-nil, append-nil, name_check, vocabulary_check}
use robotdreams.Report.Core.{
  validate_core, check_header, check_policies, check_plan, check_plans, check_contract,
  check_facets,
}

fresh_name :
    (v : Text) (vs : List Text) → All (λ w. eqb v w ≡ false) vs → contains_text vs v ≡ false
fresh_name v [] a = refl
fresh_name v (w ∷ ws) (p, a) =
    let ih = fresh_name v ws a in
    elim (Bool-cases (eqb w v)) [
      | inr b ↦ rw b ih
      | inl b ↦ let q : eqb v w ≡ true = (eqb_iff v w).1 (sym ((eqb_iff w v).0 b)) in cc
    ]

vocabulary_from :
    (place : Text) (n : ℕ) (seen vals : List Text)
    → each (name_check place) (λ v. v) n seen vals ≡ []
    → IsOnce vals × All (λ v. (is_empty v ≡ false) × (contains_text seen v ≡ false)) vals
unfolding each
vocabulary_from place n seen [] h = (tt, tt)
vocabulary_from place n seen (v ∷ vs) h =
    let s =
      append-nil (name_check place n seen v)
        (each (name_check place) (λ w. w) (suc n) (v ∷ seen) vs) h in
    let u = unless-nil (not (is_empty v) && not (contains_text seen v)) _ s.0 in
    let ih = vocabulary_from place (suc n) (v ∷ seen) vs s.1 in
    (
      (
        fresh_name v vs (
            All-weaken (λ w. (is_empty w ≡ false) × (contains_text (v ∷ seen) w ≡ false))
              (λ w. eqb v w ≡ false) (λ w p. let q = p.1 in ground arith) vs ih.1),
        ih.0,
      ),
      (
        (ground arith, ground arith),
        All-weaken (λ w. (is_empty w ≡ false) × (contains_text (v ∷ seen) w ≡ false))
            (λ w. (is_empty w ≡ false) × (contains_text seen w ≡ false))
            (λ w p. let q = p.1 in (p.0, ground arith)) vs ih.1,
      ),
    )

-- A vocabulary without a problem names nothing twice and nothing empty.
abbrev pub IsVocabulary : List Text → Type 0
IsVocabulary vals = IsOnce vals × All (λ v. is_empty v ≡ false) vals

vocabulary_check-IsVocabulary :
    (place : Text) (vals : List Text) → vocabulary_check place vals ≡ [] → IsVocabulary vals
unfolding vocabulary_check
vocabulary_check-IsVocabulary place vals h =
    let r = vocabulary_from place 0 [] vals h in
    (r.0, All-weaken _ (λ v. is_empty v ≡ false) (λ v p. p.0) vals r.1)

vocabulary_to :
    (place : Text) (n : ℕ) (seen vals : List Text)
    → IsOnce vals
    → All (λ v. (is_empty v ≡ false) × (contains_text seen v ≡ false)) vals
    → each (name_check place) (λ v. v) n seen vals ≡ []
unfolding each
vocabulary_to place n seen [] o a = refl
vocabulary_to place n seen (v ∷ vs) (d, o) ((e, g), a) =
    let t : (not (is_empty v) && not (contains_text seen v)) ≡ true = rw (e, g) refl in
    let ih = vocabulary_to place (suc n) (v ∷ seen) vs o (not_the_first v seen vs d a) in
    rw (t, ih) refl
  where
    not_the_first :
        (v : Text) (seen vs : List Text)
        → contains_text vs v ≡ false
        → All (λ w. (is_empty w ≡ false) × (contains_text seen w ≡ false)) vs
        → All (λ w. (is_empty w ≡ false) × (contains_text (v ∷ seen) w ≡ false)) vs
    not_the_first v seen [] d a = tt
    not_the_first v seen (w ∷ ws) d ((p, q), a) =
        let x : eqb w v ≡ false = ground arith in
        let y : contains_text ws v ≡ false = ground arith in
        let z : eqb v w ≡ false = elim (Bool-cases (eqb v w)) [
          | inr b ↦ b
          | inl b ↦ let r : eqb w v ≡ true = (eqb_iff w v).1 (sym ((eqb_iff v w).0 b)) in cc
        ] in
        ((p, rw z q), not_the_first v seen ws y a)

-- The check of a vocabulary reports a problem unless no value is empty and none is repeated.
pub vocabulary_check_iff :
    (place : Text) (vals : List Text) → (vocabulary_check place vals ≡ []) ↔ IsVocabulary vals
unfolding vocabulary_check
vocabulary_check_iff place vals = (
  vocabulary_check-IsVocabulary place vals,
  λ v. vocabulary_to place 0 [] vals v.0 (
      All-weaken (λ w. is_empty w ≡ false)
        (λ w. (is_empty w ≡ false) × (contains_text [] w ≡ false)) (λ w p. (p, refl)) vals v.1),
)

check_plan_vocabularies :
    (pf : PlanFacet)
    → check_plan pf ≡ []
    → IsVocabulary pf.states
      × (IsVocabulary pf.lanes × (IsVocabulary pf.horizons × IsVocabulary pf.commitments))
unfolding check_plan
check_plan_vocabularies pf h =
    let a = append-nil _ _ h in
    let b = append-nil (vocabulary_check (codes "states") pf.states) _ a.1 in
    let c = append-nil (vocabulary_check (codes "lanes") pf.lanes) _ b.1 in
    let d = append-nil (vocabulary_check (codes "horizons") pf.horizons) _ c.1 in
    let e = append-nil (vocabulary_check (codes "commitments") pf.commitments) _ d.1 in
    (
      vocabulary_check-IsVocabulary _ pf.states b.0,
      (
        vocabulary_check-IsVocabulary _ pf.lanes c.0,
        (
          vocabulary_check-IsVocabulary _ pf.horizons d.0,
          vocabulary_check-IsVocabulary _ pf.commitments e.0,
        ),
      ),
    )

module _ {F : Type 0} where
  -- The parts of the validation.
  validate_core_parts :
      (d : Definition F)
      → validate_core d ≡ []
      → (check_header d ≡ [])
        × ((check_policies d.scope.aggregation d.facets.plan ≡ [])
            × ((check_plans d.facets.plan ≡ [])
                × ((check_contract d.contract ≡ []) × (check_facets d ≡ []))))
  unfolding validate_core
  validate_core_parts d h =
      let a = append-nil (check_header d) _ h in
      let b = append-nil (check_policies d.scope.aggregation d.facets.plan) _ a.1 in
      let c = append-nil (check_plans d.facets.plan) _ b.1 in
      let e = append-nil (check_contract d.contract) (check_facets d) c.1 in
      (a.0, (b.0, (c.0, (e.0, e.1))))

  pub validate_core-IsOnce :
      (def : Definition F) (facet : PlanFacet)
      → validate_core def ≡ []
      → def.facets.plan ≡ some facet
      → IsOnce facet.states
  validate_core-IsOnce def facet v e =
      let plans : check_plan facet ≡ [] = rw e at (validate_core_parts def v).1.1.0 in
      (check_plan_vocabularies facet plans).0.0

module _ {F : Type 0} ⦃f : Float F⦄ where
  -- The board of a definition that validates: its columns are the declared states, each counts all
  -- items of its state, and as shown those that the board lists; the total counts all items, and a
  -- board that says it is cut lists fewer.
  pub aggregate_plan_in-validate_core :
      (def : Definition F) (facet : PlanFacet) (scope : Text) (instances : List (Instance F))
      (period : Option Period)
      → validate_core def ≡ []
      → def.facets.plan ≡ some facet
      → let contrib = contributors_in def scope instances period in
        let all = origin_stamped_items def contrib in
        let view = plan_of def facet scope contrib in
        (aggregate_plan_in def scope instances period ≡ some view)
        × ((states_of view.states ≡ facet.states)
            × (All
                  (λ c. (c.items ≡ items_in c.state all) × (c.shown ≡ items_in c.state view.items))
                  view.states
                × ((view.total ≡ length all)
                    × ((view.truncated ≡ false) ⊎ (length view.items < view.total)))))
  unfolding aggregate_plan_in
  aggregate_plan_in-validate_core def facet scope instances period v e =
      let once = validate_core-IsOnce def facet v e in
      (rw e refl, plan_of_columns def facet scope (contributors_in def scope instances period) once)
