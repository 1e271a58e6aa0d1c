-- ===== src/Report/Refs.antt =====
-- validateRefs of pkg/reporting/definition.go: what a definition refers to, it declares.
pub mod Declared
use robotdreams.Report.Sets.{contains_text}
use robotdreams.Base.{
  ℕ, zero, suc, ◌+◌, Text, codes, is_empty, eqb, cut, length, map, Bool, true, false, not, ◌&&◌,
  ◌||◌, Option, none, some, List, [], ◌∷◌, ◌++◌, if◌then◌else◌,
}
use robotdreams.Report.Model.{
  Definition, SummaryFacet, StatusRule, TimelineFacet, SpanSpec, DetailFacet, PulseFacet, PlanFacet,
  PlanBaseline, TimeAggregationSpec, has_any,
}
use robotdreams.Report.Headline.{placeholder, placeholder_name}
use robotdreams.Report.Checks.{Problem, bad, bad_at, unless, each, each_in, sorted_keys}

-- The names in the placeholders of a template; `skip` counts the bytes of a match.
unfoldable pub placeholders_from : ℕ → Text → List Text
unfolding placeholder placeholder_name
placeholders_from skip [] = []
placeholders_from zero (c ∷ cs) = elim (placeholder (c ∷ cs)) [
  | none ↦ placeholders_from zero cs
  | some inner ↦ placeholder_name inner ∷ placeholders_from (length inner + 3) cs
]
placeholders_from (suc skip) (c ∷ cs) = placeholders_from skip cs

unfoldable pub headline_placeholders : Text → List Text
unfolding placeholders_from
headline_placeholders tmpl = placeholders_from 0 tmpl

-- The names that a data contract and a timeline declare.
pub record Names : Type 0 where
  pub kpis : List Text
  pub series : List Text
  pub events : List Text
  pub tables : List Text
  pub spans : List Text
  pub plan : Bool

abbrev is_declared : {A : Type 0} → Option A → Bool
is_declared none = false
is_declared (some a) = true

abbrev span_names : Option TimelineFacet → List Text
span_names none = []
span_names (some t) = map (λ s. s.name) t.spans

-- What stands for the maps that validateRefs builds.
unfoldable pub names_of : {F : Type 0} → Definition F → Names
names_of d = record {
  kpis = map (λ k. k.name) d.contract.kpis;
  series = map (λ s. s.name) d.contract.series;
  events = map (λ e. e.type) d.contract.events;
  tables = map (λ t. t.name) d.contract.tables;
  spans = span_names d.facets.timeline;
  plan = is_declared d.facets.plan;
}

abbrev refs_known : Text → List Text → List Text → List Problem
refs_known place known names = each_in place (contains_text known) names

abbrev time_kpi_refs : Names → Option TimeAggregationSpec → List Problem
time_kpi_refs c none = []
time_kpi_refs c (some tm) = refs_known (codes "time.kpis") c.kpis (sorted_keys tm.kpis)

abbrev rule_ref : {F : Type 0} → Names → Option (StatusRule F) → List Problem
rule_ref c none = []
rule_ref c (some r) =
    unless (contains_text c.kpis r.source) (bad (codes "summary.status.from") r.source)

unfoldable pub summary_refs : {F : Type 0} → Names → Option (SummaryFacet F) → List Problem
unfolding each headline_placeholders
summary_refs c none = []
summary_refs c (some s) =
    refs_known (codes "summary.kpis") c.kpis s.kpis
    ++ (unless (is_empty s.sparkline || contains_text c.series s.sparkline)
          (bad (codes "summary.sparkline") s.sparkline)
        ++ (rule_ref c s.status
            ++ refs_known (codes "summary.headline") c.kpis (headline_placeholders s.headline)))

abbrev span_refs : Names → ℕ → List Text → SpanSpec → List Problem
span_refs c n seen sp =
    unless (not (is_empty sp.name)) (bad_at (codes "timeline.spans") n [])
    ++ (unless (contains_text c.events sp.start) (bad_at (codes "timeline.spans") n sp.start)
        ++ unless (contains_text c.events sp.end) (bad_at (codes "timeline.spans") n sp.end))

unfoldable pub timeline_refs : Names → Option TimelineFacet → List Problem
unfolding each
timeline_refs c none = []
timeline_refs c (some t) =
    refs_known (codes "timeline.events") c.events t.events
    ++ (each (span_refs c) (λ s. s.name) 0 [] t.spans
        ++ refs_known (codes "timeline.milestones") c.events t.milestones)

abbrev ref_of_kind : Names → Text → Text → Bool
ref_of_kind c kind name =
    if eqb kind (codes "series")
    then contains_text c.series name
    else if eqb kind (codes "table")
    then contains_text c.tables name
    else if eqb kind (codes "spans")
    then contains_text c.spans name
    else if eqb kind (codes "kpi")
    then contains_text c.kpis name
    else false

-- `validatePanelData`: `events`, `items` or a name of a kind.
unfoldable pub is_panel_ref : Names → Text → Bool
is_panel_ref c ref =
    if eqb ref (codes "events")
    then has_any c.events
    else if eqb ref (codes "items")
    then c.plan
    else elim (cut b'/' ref) [
      | none ↦ false
      | some (kind, name) ↦ not (is_empty name) && ref_of_kind c kind name
    ]

abbrev panel_refs : Names → Option DetailFacet → List Problem
panel_refs c none = []
panel_refs c (some d) =
    each (λ n seen p. unless (is_panel_ref c p.ref) (bad_at (codes "detail.panels") n p.ref))
      (λ p. p.title) 0 [] d.panels

abbrev pulse_refs : Names → Option PulseFacet → List Problem
pulse_refs c none = []
pulse_refs c (some p) = refs_known (codes "pulse.events") c.events p.events

unfoldable pub is_baseline_ref : Names → Text → Bool
is_baseline_ref c ref = elim (cut b'/' ref) [
  | none ↦ false
  | some (kind, name) ↦
      not (is_empty name)
      && (if eqb kind (codes "kpi")
          then contains_text c.kpis name
          else eqb kind (codes "series") && contains_text c.series name)
]

abbrev baseline_ref : Names → Option PlanBaseline → List Problem
baseline_ref c none = []
baseline_ref c (some b) = unless (is_baseline_ref c b.ref) (bad (codes "plan.baseline.ref") b.ref)

abbrev plan_refs : Names → Option PlanFacet → List Problem
plan_refs c none = []
plan_refs c (some pf) = baseline_ref c pf.baseline

unfoldable pub validate_refs : {F : Type 0} → Definition F → List Problem
unfolding each summary_refs timeline_refs is_panel_ref is_baseline_ref sorted_keys
validate_refs d =
    let c = names_of d in
    refs_known (codes "kpis") c.kpis (sorted_keys d.scope.aggregation.kpis)
    ++ (time_kpi_refs c d.scope.aggregation.time
        ++ (summary_refs c d.facets.summary
            ++ (timeline_refs c d.facets.timeline
                ++ (panel_refs c d.facets.detail
                    ++ (pulse_refs c d.facets.pulse ++ plan_refs c d.facets.plan)))))
