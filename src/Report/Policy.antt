-- ===== src/Report/Policy.antt =====
-- pkg/reporting/policy.go: the names of the ways to roll a field up.
use robotdreams.Report.Sets.{contains_text}
use robotdreams.Base.{
  ℕ, ℤ, pos, suc, Text, codes, is_empty, eqb, trim_space, cut, cut_last, atoi, itoa, ◌++◌, Bool,
  ◌||◌, Option, none, some, List, [], ◌∷◌, if◌then◌else◌, lookup, Assoc, ◌==◌,
}
use robotdreams.Report.Model.{AggregationSpec}

-- `n` is 0 where the policy takes no parameter.
pub record Policy : Type 0 where
  pub name : Text
  pub n : ℕ

abbrev pub bare : Text → Policy
bare name = record { name = name; n = 0 }

abbrev pub bare_policies : List Text
bare_policies =
    codes "worst"
    ∷ codes "sum"
    ∷ codes "avg"
    ∷ codes "min"
    ∷ codes "max"
    ∷ codes "p50"
    ∷ codes "p95"
    ∷ codes "latest"
    ∷ codes "count"
    ∷ codes "merge"
    ∷ codes "synthesize"
    ∷ []

-- What stands between the parentheses has to be a positive number.
abbrev parameter : Text → Option ℤ → Option Policy
parameter name (some (pos (suc n))) = some (record { name = name; n = suc n })
parameter name _ = none

abbrev takes_parameter : Text → Bool
takes_parameter name = eqb name (codes "sample") || eqb name (codes "top")

-- `none` for every error.
unfoldable pub parse_policy : Text → Option Policy
parse_policy text =
    let s = trim_space text in
    if is_empty s then none else elim (cut b'(' s) [
      | none ↦ if contains_text bare_policies s then some (bare s) else none
      | some (name, rest) ↦ elim (cut_last b')' rest) [
        | none ↦ none
        | some arg ↦ if takes_parameter name then parameter name (atoi (trim_space arg)) else none
      ]
    ]

-- fmt.Sprintf("%s(%d)") where there is a parameter, as AggregatePlanIn writes it.
unfoldable pub show_policy : Policy → Text
show_policy p = if p.n == 0 then p.name else p.name ++ (b'(' ∷ (itoa p.n ++ b')' ∷ []))

abbrev pub or_default : Text → Option Policy → Policy
or_default name none = bare name
or_default name (some p) = p

-- TimeStatusPolicy, TimeHeadlinePolicy and TimeKPIPolicy of definition.go.
unfoldable pub time_status_policy : AggregationSpec → Policy
unfolding parse_policy
time_status_policy a = elim a.time [
  | none ↦ bare (codes "worst")
  | some t ↦ or_default (codes "worst") (parse_policy t.status)
]

unfoldable pub time_headline_policy : AggregationSpec → Policy
unfolding parse_policy
time_headline_policy a = elim a.time [
  | none ↦ bare (codes "latest")
  | some t ↦ or_default (codes "latest") (parse_policy t.headline)
]

abbrev pub text_at : Text → Assoc Text → Text
text_at k m = elim (lookup k m) [ none ↦ [] | some v ↦ v ]

unfoldable pub time_kpi_policy : AggregationSpec → Text → Policy
unfolding parse_policy
time_kpi_policy a name = elim a.time [
  | none ↦ bare (codes "latest")
  | some t ↦ or_default (codes "latest") (parse_policy (text_at name t.kpis))
]
