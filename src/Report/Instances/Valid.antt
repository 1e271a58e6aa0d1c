-- ===== src/Report/Instances/Valid.antt =====
-- What the items of an instance without a problem have, and what that means for the board.
use mathlib.Core.Option
use robotdreams.Report.Sets.{IsOnce, contains_text}
use robotdreams.Base.{
  ℕ, suc, ◌+◌, ◌≡◌, refl, sym, ◌∙◌, ap, inl, inr, arith, Bool-cases, Text, eqb, eqb_iff, is_empty,
  true, false, not, ◌&&◌, Option, none, some, List, [], ◌∷◌, All, All_of_in, All-append, All-weaken,
  map, length, In,
}
use robotdreams.Report.Floats.{Float}
use robotdreams.Report.Model.{Definition, Instance, Item, PlanFacet, index_of, state_rank}
use robotdreams.Report.Contributors.{contributors_in, is_counted}
use robotdreams.Report.Contributors.Newest.{contributors_in_newest}
use robotdreams.Report.Plan.{PlanColumn, aggregate_plan_in, plan_of, origin_stamped_items, stamp}
use robotdreams.Report.Plan.Limits.{items_in}
use robotdreams.Report.Plan.Counts.{states_of}
use robotdreams.Report.Checks.{each, each-nil, unless, unless-nil, append-nil}
use robotdreams.Report.Core.{validate_core}
use robotdreams.Report.Core.Valid.{aggregate_plan_in-validate_core, validate_core-IsOnce}
use robotdreams.Report.Instances.{
  field_problems, instance_problems, items_problems, item_problems, item_ids, has_rank,
}

has_rank-contains_text :
    (ss : List Text) (s : Text) → has_rank (index_of ss s) ≡ true → contains_text ss s ≡ true
unfolding index_of
has_rank-contains_text [] s h = cc
has_rank-contains_text (t ∷ ts) s h = elim (Bool-cases (eqb t s)) [
  | inl b ↦ rw b refl
  | inr b ↦
      let h' : has_rank (Option.map suc (index_of ts s)) ≡ true = rw b at h in
      let ih = has_rank-contains_text ts s (of_map (index_of ts s) h') in rw (b, ih) refl
]
  where
    of_map : (o : Option ℕ) → has_rank (Option.map suc o) ≡ true → has_rank o ≡ true
    of_map none h = h
    of_map (some n) h = refl

module _ {F : Type 0} where
  -- The items of all columns together.
  unfoldable pub all_columns : List (PlanColumn F) → ℕ
  all_columns [] = 0
  all_columns (c ∷ cs) = c.items + all_columns cs

  unfoldable all_states : List Text → List (Item F) → ℕ
  unfolding items_in
  all_states [] its = 0
  all_states (s ∷ ss) its = items_in s its + all_states ss its

  all_states-nil : (ss : List Text) (its : List (Item F)) → its ≡ [] → all_states ss its ≡ 0
  unfolding all_states items_in
  all_states-nil [] its e = refl
  all_states-nil (s ∷ ss) its e =
      let n : items_in s its ≡ 0 = ap (items_in s) e in omega (arith, n, all_states-nil ss its e)

  -- An item of another state is in none of them.
  all_states_other :
      (ss : List Text) (it : Item F) (its : List (Item F))
      → contains_text ss it.state ≡ false
      → all_states ss (it ∷ its) ≡ all_states ss its
  unfolding all_states
  all_states_other [] it its h = refl
  all_states_other (s ∷ ss) it its h =
      let a : eqb s it.state ≡ false = ground arith in
      let b : contains_text ss it.state ≡ false = ground arith in
      let ih = all_states_other ss it its b in
      let n : eqb it.state s ≡ false = flip it.state s a in rw n (omega (arith, ih))
    where
      flip : (x y : Text) → eqb y x ≡ false → eqb x y ≡ false
      flip x y h = elim (Bool-cases (eqb x y)) [
        | inr b ↦ b
        | inl b ↦ let q : eqb y x ≡ true = (eqb_iff y x).1 (sym ((eqb_iff x y).0 b)) in cc
      ]

  all_states_own :
      (ss : List Text) (it : Item F) (its : List (Item F))
      → IsOnce ss
      → contains_text ss it.state ≡ true
      → all_states ss (it ∷ its) ≡ suc (all_states ss its)
  unfolding all_states
  all_states_own [] it its o h = cc
  all_states_own (s ∷ ss) it its (n, o) h = elim (Bool-cases (eqb it.state s)) [
    | inl b ↦
        let e : it.state ≡ s = (eqb_iff it.state s).0 b in
        let r = all_states_other ss it its (ap (contains_text ss) e ∙ n) in rw b (omega (arith, r))
    | inr b ↦
        let t = eqb_iff s it.state in
        let u = eqb_iff it.state s in
        let c : contains_text ss it.state ≡ true = elim (Bool-cases (eqb s it.state)) [
          | inl q ↦ let e = u.1 (sym (t.0 q)) in cc
          | inr q ↦ let h' : contains_text ss it.state ≡ true = rw q at h in h'
        ] in
        rw b (omega (arith, all_states_own ss it its o c))
  ]

  all_states_lem :
      (ss : List Text) (its : List (Item F))
      → IsOnce ss
      → All (λ it. contains_text ss it.state ≡ true) its
      → all_states ss its ≡ length its
  all_states_lem ss [] o a = all_states-nil ss [] refl
  all_states_lem ss (it ∷ its) o (p, a) =
      all_states_own ss it its o p ∙ ap suc (all_states_lem ss its o a)

  all_columns_lem :
      (cols : List (PlanColumn F)) (its : List (Item F))
      → All (λ c. c.items ≡ items_in c.state its) cols
      → all_columns cols ≡ all_states (states_of cols) its
  unfolding all_columns all_states
  all_columns_lem [] its a = refl
  all_columns_lem (c ∷ cs) its (p, a) = omega (arith, p, all_columns_lem cs its a)

module _ {F : Type 0} ⦃f : Float F⦄ where
  -- An item without a problem stands in a declared state.
  item_problems-nil :
      (facet : PlanFacet) (ids : List Text) (n : ℕ) (seen : List Text) (i : Item F)
      → item_problems facet ids n seen i ≡ []
      → contains_text facet.states i.state ≡ true
  unfolding item_problems state_rank
  item_problems-nil facet ids n seen i k =
      let a = append-nil _ _ k in
      let b = append-nil _ _ a.1 in
      let c =
        append-nil (unless (not (is_empty i.state) && has_rank (state_rank facet i.state)) _) _
          b.1 in
      let t = unless-nil (not (is_empty i.state) && has_rank (state_rank facet i.state)) _ c.0 in
      has_rank-contains_text facet.states i.state (ground arith)

  -- The items of an instance without a problem stand in declared states.
  items_problems-nil :
      (def : Definition F) (facet : PlanFacet) (its : List (Item F))
      → def.facets.plan ≡ some facet
      → items_problems def its ≡ []
      → All (λ it. contains_text facet.states it.state ≡ true) its
  unfolding items_problems
  items_problems-nil def facet [] e h = tt
  items_problems-nil def facet (it ∷ its) e h =
      let ids = item_ids (it ∷ its) in
      let h' : each (item_problems facet ids) (λ i. i.id) 0 [] (it ∷ its) ≡ [] = rw e at h in
      each-nil (item_problems facet ids) (λ i. i.id)
        (λ i. contains_text facet.states i.state ≡ true) (item_problems-nil facet ids) 0 []
        (it ∷ its) h'

  instance_problems-nil :
      (def : Definition F) (i : Instance F)
      → instance_problems def i ≡ []
      → items_problems def i.items ≡ []
  unfolding instance_problems
  instance_problems-nil def i h =
      (append-nil (field_problems def i) (items_problems def i.items) h).1

  All-stamp :
      (states : List Text) (scope name : Text) (its : List (Item F))
      → All (λ it. contains_text states it.state ≡ true) its
      → All (λ it. contains_text states it.state ≡ true) (map (stamp scope name) its)
  All-stamp states scope name [] a = tt
  All-stamp states scope name (it ∷ its) (p, a) = (p, All-stamp states scope name its a)

  stamped_states :
      (def : Definition F) (facet : PlanFacet) (contrib : List (Instance F))
      → def.facets.plan ≡ some facet
      → All (λ i. instance_problems def i ≡ []) contrib
      → All (λ it. contains_text facet.states it.state ≡ true) (origin_stamped_items def contrib)
  unfolding origin_stamped_items
  stamped_states def facet [] e a = tt
  stamped_states def facet (i ∷ is) e (p, a) =
      All-append (λ it. contains_text facet.states it.state ≡ true)
        (map (stamp i.scope def.name) i.items) (origin_stamped_items def is)
        (All-stamp facet.states i.scope def.name i.items
          (items_problems-nil def facet i.items e (instance_problems-nil def i p)))
        (stamped_states def facet is e a)

  -- Where no period is asked for, and the definition validates and every instance does, but for a
  -- cycle among its items, the columns of the board hold together as many items as its total says.
  pub all_columns-aggregate_plan_in :
      (def : Definition F) (facet : PlanFacet) (scope : Text) (instances : List (Instance F))
      → validate_core def ≡ []
      → def.facets.plan ≡ some facet
      → All (λ i. instance_problems def i ≡ []) instances
      → let view = plan_of def facet scope (contributors_in def scope instances none) in
        (aggregate_plan_in def scope instances none ≡ some view)
        × (all_columns view.states ≡ view.total)
  all_columns-aggregate_plan_in def facet scope instances v e a =
      let contrib = contributors_in def scope instances none in
      let all = origin_stamped_items def contrib in
      let view = plan_of def facet scope contrib in
      let r = aggregate_plan_in-validate_core def facet scope instances none v e in
      let fine =
        All-weaken (λ c. (is_counted def scope c ≡ true) × In c instances)
          (λ c. instance_problems def c ≡ [])
          (λ c p. All_of_in (λ i. instance_problems def i ≡ []) instances c a p.1) contrib
          (contributors_in_newest def scope instances).1.0 in
      let once = (validate_core-IsOnce def facet v e) in
      let counts =
        All-weaken _ (λ c. c.items ≡ items_in c.state all) (λ c p. p.0) view.states r.1.1.0 in
      (
        r.0,
        all_columns_lem view.states all counts
            ∙ (ap (λ ss. all_states ss all) r.1.0
                ∙ (all_states_lem facet.states all once (stamped_states def facet contrib e fine)
                    ∙ sym r.1.1.1.0)),
      )
