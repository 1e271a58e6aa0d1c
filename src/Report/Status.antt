-- ===== src/Report/Status.antt =====
-- The statuses of pkg/reporting/aggregate.go.
pub mod Worst
use robotdreams.Base.{
  ℕ, Text, codes, is_empty, eqb, lookup, ltb, Bool, Option, none, some, List, [], ◌∷◌,
  if◌then◌else◌,
}
use robotdreams.Report.Floats.{Float}
use robotdreams.Report.Model.{
  Definition, Instance, StatusRule, status_ok, status_warn, status_critical,
}
use robotdreams.Report.Policy.{parse_policy, or_default}

unfoldable pub status_rank : Text → ℕ
status_rank s = if eqb s status_critical then 2 else if eqb s status_warn then 1 else 0

unfoldable pub worse_of : Text → Text → Text
worse_of worst s = if ltb (status_rank worst) (status_rank s) then s else worst

module _ {F : Type 0} ⦃f : Float F⦄ where
  -- Whether a value has passed a threshold, on the side that the rule calls bad.
  unfoldable pub is_worse : StatusRule F → F → F → Bool
  is_worse r v threshold =
      if eqb r.direction (codes "below") then f.le v threshold else f.le threshold v

  unfoldable pub status_by_rule : StatusRule F → F → Text
  unfolding is_worse
  status_by_rule r v =
      if is_worse r v r.critical_at
      then status_critical
      else if is_worse r v r.warn_at
      then status_warn
      else status_ok

  abbrev status_rule : Definition F → Option (StatusRule F)
  status_rule def = elim def.facets.summary [ none ↦ none | some s ↦ s.status ]

  unfoldable pub instance_status : Definition F → Instance F → Text
  unfolding status_by_rule
  instance_status def i =
      if is_empty i.status
      then elim (status_rule def) [
        | none ↦ status_ok
        | some r ↦ elim (lookup r.source i.kpis) [ none ↦ status_ok | some v ↦ status_by_rule r v ]
      ]
      else i.status

  unfoldable pub worst_from : Definition F → Text → List (Instance F) → Text
  unfolding instance_status worse_of
  worst_from def worst [] = worst
  worst_from def worst (i ∷ is) = worst_from def (worse_of worst (instance_status def i)) is

  unfoldable pub worst_status : Definition F → List (Instance F) → Text
  unfolding worst_from
  worst_status def instances = worst_from def status_ok instances

  -- The last of the instances, which is the newest.
  abbrev pub last_status : Definition F → Text → List (Instance F) → Text
  last_status def s [] = s
  last_status def s (i ∷ is) = last_status def (instance_status def i) is

  unfoldable pub aggregate_status : Definition F → List (Instance F) → Text
  unfolding worst_status instance_status
  aggregate_status def contrib =
      let policy = or_default (codes "worst") (parse_policy def.scope.aggregation.status) in
      if eqb policy.name (codes "latest")
      then last_status def status_ok contrib
      else worst_status def contrib
