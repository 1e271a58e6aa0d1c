-- ===== src/Report/Refs/Declared.antt =====
-- What the references of a definition without a problem reach.
use robotdreams.Report.Sets.{contains_text}
use robotdreams.Base.{
  ◌≡◌, refl, sym, ◌∙◌, ap, inl, inr, arith, Bool-cases, Option-cases, Text, eqb, eqb_iff, eqb_refl,
  codes, lookup, true, Option, none, some, List, [], ◌∷◌, All, map,
}
use robotdreams.Report.Floats.{Float}
use robotdreams.Report.Model.{Definition, Instance, KpiSpec, SummaryFacet}
use robotdreams.Report.Policy.{Policy, parse_policy, text_at}
use robotdreams.Report.Kpis.{
  KpiValue, aggregate_kpi, aggregate_kpis, kpi_names, spec_of, contract_names, chosen, against,
  unit_of, apply_kpi_policy, collect, known_policy, policy_text, target_of,
}
use robotdreams.Report.Checks.{each-nil, unless-nil, append-nil, sorted_keys}
use robotdreams.Report.Refs.{validate_refs, summary_refs, names_of, refs_known, time_kpi_refs}

refs_known-nil :
    (place : Text) (known names : List Text)
    → refs_known place known names ≡ []
    → All (λ n. contains_text known n ≡ true) names
refs_known-nil place known names h =
    each-nil _ (λ v. v) (λ n. contains_text known n ≡ true)
      (λ n seen v k. unless-nil (contains_text known v) _ k) 0 [] names h

contains_text_more :
    (names known : List Text)
    → All (λ n. contains_text known n ≡ true) names
    → (m : Text) → All (λ n. contains_text (m ∷ known) n ≡ true) names
contains_text_more [] known a m = tt
contains_text_more (n ∷ ns) known (p, a) m = (ground arith, contains_text_more ns known a m)

contains_text_own : (names : List Text) → All (λ n. contains_text names n ≡ true) names
contains_text_own [] = tt
contains_text_own (n ∷ ns) =
    (rw (eqb_refl n) refl, contains_text_more ns ns (contains_text_own ns) n)

module _ {F : Type 0} ⦃f : Float F⦄ where
  -- A declared name has a spec, and the spec has that name.
  abbrev HasSpec : List (KpiSpec F) → Text → Type 0
  HasSpec specs name = (k : KpiSpec F) × ((spec_of name specs ≡ some k) × (k.name ≡ name))

  spec_of-name :
      (name : Text) (specs : List (KpiSpec F)) (k : KpiSpec F)
      → spec_of name specs ≡ some k
      → k.name ≡ name
  unfolding spec_of
  spec_of-name name [] k h = cc
  spec_of-name name (s ∷ ss) k h = elim (Option-cases (spec_of name ss)) [
    | inr (l, e) ↦ let h' : some l ≡ some k = rw e at h in spec_of-name name ss k (e ∙ h')
    | inl e ↦ elim (Bool-cases (eqb s.name name)) [
      | inl b ↦
          let h' : some s ≡ some k = rw (e, b) at h in
          let q : s ≡ k = cc in ap (λ x. x.name) (sym q) ∙ (eqb_iff s.name name).0 b
      | inr b ↦ let h' : none ≡ some k = rw (e, b) at h in cc
    ]
  ]

  spec_of_later :
      (name : Text) (s k : KpiSpec F) (ss : List (KpiSpec F))
      → spec_of name ss ≡ some k
      → spec_of name (s ∷ ss) ≡ some k
  unfolding spec_of
  spec_of_later name s k ss e = rw e refl

  spec_of_first :
      (name : Text) (s : KpiSpec F) (ss : List (KpiSpec F))
      → spec_of name ss ≡ none
      → eqb s.name name ≡ true
      → spec_of name (s ∷ ss) ≡ some s
  unfolding spec_of
  spec_of_first name s ss e b = rw (e, b) refl

  spec_of_declared :
      (name : Text) (specs : List (KpiSpec F))
      → contains_text (contract_names specs) name ≡ true
      → HasSpec specs name
  spec_of_declared name [] h = cc
  spec_of_declared name (s ∷ ss) h = elim (Bool-cases (eqb s.name name)) [
    | inr b ↦
        let h' : contains_text (contract_names ss) name ≡ true = rw b at h in
        let ih = spec_of_declared name ss h' in
        (ih.0, (spec_of_later name s ih.0 ss ih.1.0, ih.1.1))
    | inl b ↦ elim (Option-cases (spec_of name ss)) [
      | inl e ↦ (s, (spec_of_first name s ss e b, (eqb_iff s.name name).0 b))
      | inr (l, e) ↦ (l, (spec_of_later name s l ss e, spec_of-name name ss l e))
    ]
  ]

  summary_kpis :
      (def : Definition F) (s : SummaryFacet F)
      → validate_refs def ≡ []
      → def.facets.summary ≡ some s
      → All (λ n. contains_text (contract_names def.contract.kpis) n ≡ true) s.kpis
  unfolding validate_refs summary_refs names_of
  summary_kpis def s h e =
      let c = names_of def in
      let a =
        append-nil (refs_known (codes "kpis") c.kpis (sorted_keys def.scope.aggregation.kpis)) _
          h in
      let b = append-nil (time_kpi_refs c def.scope.aggregation.time) _ a.1 in
      let d = append-nil (summary_refs c def.facets.summary) _ b.1 in
      let d' : summary_refs c (some s) ≡ [] = rw e at d.0 in
      let g = append-nil (refs_known (codes "summary.kpis") c.kpis s.kpis) _ d' in
      refs_known-nil (codes "summary.kpis") c.kpis s.kpis g.0

  kpi_names_declared :
      (def : Definition F)
      → validate_refs def ≡ []
      → All (λ n. contains_text (contract_names def.contract.kpis) n ≡ true) (kpi_names def)
  unfolding kpi_names
  kpi_names_declared def h = elim (Option-cases def.facets.summary) [
    | inl e ↦ rw e (contains_text_own (contract_names def.contract.kpis))
    | inr (s, e) ↦ rw e (pick s.kpis (summary_kpis def s h e))
  ]
    where
      pick :
          (names : List Text)
          → All (λ n. contains_text (contract_names def.contract.kpis) n ≡ true) names
          → All
              (λ n. contains_text (contract_names def.contract.kpis) n ≡ true)
              (chosen names (contract_names def.contract.kpis))
      pick [] a = contains_text_own (contract_names def.contract.kpis)
      pick (n ∷ ns) a = a

  -- What the view says of an indicator that has a spec.
  abbrev pub IsSpecified : List (KpiSpec F) → KpiValue F → Type 0
  IsSpecified specs kv = (k : KpiSpec F) × ((spec_of kv.name specs ≡ some k) × (kv.unit ≡ k.unit))

  against-IsSpecified :
      (specs : List (KpiSpec F)) (p : Policy) (spec : Option (KpiSpec F)) (kv : KpiValue F)
      (vals : List F)
      → IsSpecified specs kv
      → IsSpecified specs (against p spec kv vals)
  against-IsSpecified specs p spec kv [] h = h
  against-IsSpecified specs p spec kv (v ∷ vs) h = h

  aggregate_kpi-IsSpecified :
      (def : Definition F) (contrib : List (Instance F)) (name : Text)
      → HasSpec def.contract.kpis name
      → IsSpecified def.contract.kpis (aggregate_kpi def contrib name)
  unfolding aggregate_kpi
  aggregate_kpi-IsSpecified def contrib name (k, (e, q)) =
      let text = policy_text (text_at name def.scope.aggregation.kpis) in
      let known = known_policy text (parse_policy text) in
      let spec = spec_of name def.contract.kpis in
      let kv : KpiValue F = record {
        name = name;
        value = apply_kpi_policy known.0 (collect (λ i. lookup name i.kpis) contrib);
        unit = unit_of spec;
        policy = known.1;
        target = none;
        variance = none;
        direction = [];
      } in
      against-IsSpecified def.contract.kpis known.0 spec kv (collect (target_of name spec) contrib)
        (k, (e, ap unit_of e))

  map-IsSpecified :
      (def : Definition F) (contrib : List (Instance F)) (names : List Text)
      → All (λ n. contains_text (contract_names def.contract.kpis) n ≡ true) names
      → All (IsSpecified def.contract.kpis) (map (aggregate_kpi def contrib) names)
  map-IsSpecified def contrib [] a = tt
  map-IsSpecified def contrib (n ∷ ns) (p, a) = (
    aggregate_kpi-IsSpecified def contrib n (spec_of_declared n def.contract.kpis p),
    map-IsSpecified def contrib ns a,
  )

  -- Where the references of a definition validate, every indicator that is rolled up has a spec in
  -- the data contract and the unit that it declares.
  pub aggregate_kpis-validate_refs :
      (def : Definition F) (contrib : List (Instance F))
      → validate_refs def ≡ []
      → All (IsSpecified def.contract.kpis) (aggregate_kpis def contrib)
  unfolding aggregate_kpis
  aggregate_kpis-validate_refs def contrib h =
      map-IsSpecified def contrib (kpi_names def) (kpi_names_declared def h)
