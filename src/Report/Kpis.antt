-- ===== src/Report/Kpis.antt =====
-- The indicators of pkg/reporting/aggregate.go: many values of one indicator become one.
pub mod Bounds
use robotdreams.Base.{
  ℕ, zero, suc, ◌-◌, Text, codes, is_empty, eqb, lookup, ltb, length, map, order_by, Option, none,
  some, List, [], ◌∷◌, if◌then◌else◌,
}
use robotdreams.Report.Floats.{Float}
use robotdreams.Report.Model.{Definition, Instance, KpiSpec}
use robotdreams.Report.Policy.{Policy, parse_policy, bare, text_at}

abbrev at_least_one : ℕ → ℕ
at_least_one rank = if ltb rank 1 then 1 else rank

abbrev pub policy_text : Text → Text
policy_text s = if is_empty s then codes "latest" else s

abbrev pub known_policy : Text → Option Policy → Policy × Text
known_policy s none = (bare (codes "latest"), codes "latest")
known_policy s (some p) = (p, s)

abbrev pub chosen : List Text → List Text → List Text
chosen [] declared = declared
chosen (n ∷ ns) declared = n ∷ ns

pub record KpiValue (F : Type 0) : Type 0 where
  pub name : Text
  pub value : F
  pub unit : Text
  pub policy : Text
  pub target : Option F
  pub variance : Option F
  pub direction : Text

module _ {F : Type 0} ⦃f : Float F⦄ where
  unfoldable pub total : F → List F → F
  total t [] = t
  total t (v ∷ vs) = total (f.plus t v) vs

  unfoldable pub minimum : F → List F → F
  minimum m [] = m
  minimum m (v ∷ vs) = minimum (if f.lt v m then v else m) vs

  unfoldable pub maximum : F → List F → F
  maximum m [] = m
  maximum m (v ∷ vs) = maximum (if f.lt m v then v else m) vs

  abbrev pub last_of : F → List F → F
  last_of v [] = v
  last_of v (w ∷ ws) = last_of w ws

  unfoldable pub rank_of : ℕ → List F → ℕ
  rank_of p vals = at_least_one (f.share p (length vals))

  -- The value at an index that is in range.
  abbrev pub value_at : List F → ℕ → F
  value_at [] i = f.nought
  value_at (v ∷ vs) zero = v
  value_at (v ∷ vs) (suc i) = value_at vs i

  unfoldable pub percentile : List F → ℕ → F
  unfolding rank_of
  percentile vals p = value_at (order_by f.lt vals) (rank_of p vals - 1)

  unfoldable pub apply_nonempty : Policy → F → List F → F
  unfolding total minimum maximum percentile
  apply_nonempty p v vs =
      if eqb p.name (codes "sum")
      then total f.nought (v ∷ vs)
      else if eqb p.name (codes "avg")
      then f.per (total f.nought (v ∷ vs)) (length (v ∷ vs))
      else if eqb p.name (codes "min")
      then minimum v vs
      else if eqb p.name (codes "max")
      then maximum v vs
      else if eqb p.name (codes "p50")
      then percentile (v ∷ vs) 50
      else if eqb p.name (codes "p95")
      then percentile (v ∷ vs) 95
      else last_of v vs

  unfoldable pub apply_kpi_policy : Policy → List F → F
  unfolding apply_nonempty
  apply_kpi_policy p [] = if eqb p.name (codes "count") then f.of_count 0 else f.nought
  apply_kpi_policy p (v ∷ vs) =
      if eqb p.name (codes "count") then f.of_count (length (v ∷ vs)) else apply_nonempty p v vs

  -- What the instances have of a field, in order.
  abbrev pub collect : (Instance F → Option F) → List (Instance F) → List F
  collect field [] = []
  collect field (i ∷ is) = elim (field i) [
    | none ↦ collect field is
    | some v ↦ v ∷ collect field is
  ]

  -- The spec of a name; of several, the last.
  unfoldable pub spec_of : Text → List (KpiSpec F) → Option (KpiSpec F)
  spec_of name [] = none
  spec_of name (k ∷ ks) = elim (spec_of name ks) [
    | some later ↦ some later
    | none ↦ if eqb k.name name then some k else none
  ]

  -- An instance's own target, or the declared one.
  abbrev pub target_of : Text → Option (KpiSpec F) → Instance F → Option F
  target_of name spec i = elim (lookup name i.targets) [
    | some t ↦ some t
    | none ↦ elim spec [ none ↦ none | some k ↦ k.target ]
  ]

  abbrev pub unit_of : Option (KpiSpec F) → Text
  unit_of none = []
  unit_of (some k) = k.unit

  abbrev direction_of : Option (KpiSpec F) → Text
  direction_of none = []
  direction_of (some k) = k.direction

  abbrev pub against : Policy → Option (KpiSpec F) → KpiValue F → List F → KpiValue F
  against policy spec kv [] = kv
  against policy spec kv (t ∷ ts) =
      let target = apply_kpi_policy policy (t ∷ ts) in
      record kv {
        target = some target;
        variance = some (f.minus kv.value target);
        direction = direction_of spec;
      }

  unfoldable pub aggregate_kpi : Definition F → List (Instance F) → Text → KpiValue F
  unfolding apply_kpi_policy spec_of
  aggregate_kpi def contrib name =
      let text = policy_text (text_at name def.scope.aggregation.kpis) in
      let known = known_policy text (parse_policy text) in
      let spec = spec_of name def.contract.kpis in
      let kv : KpiValue F = record {
        name = name;
        value = apply_kpi_policy known.0 (collect (λ i. lookup name i.kpis) contrib);
        unit = unit_of spec;
        policy = known.1;
        target = none;
        variance = none;
        direction = [];
      } in
      against known.0 spec kv (collect (target_of name spec) contrib)

  abbrev pub contract_names : List (KpiSpec F) → List Text
  contract_names = map (λ k. k.name)

  unfoldable pub kpi_names : Definition F → List Text
  kpi_names def = elim def.facets.summary [
    | none ↦ contract_names def.contract.kpis
    | some s ↦ chosen s.kpis (contract_names def.contract.kpis)
  ]

  unfoldable pub aggregate_kpis : Definition F → List (Instance F) → List (KpiValue F)
  unfolding aggregate_kpi kpi_names
  aggregate_kpis def contrib = map (aggregate_kpi def contrib) (kpi_names def)
