-- ===== src/Report/Core.antt =====
-- validateCore of pkg/reporting/definition.go: what a definition must satisfy on its own.
pub mod Valid
use robotdreams.Report.Sets.{contains_text}
use robotdreams.Base.{
  ℕ, ℤ, pos, suc, is_negative, Text, Assoc, codes, is_empty, eqb, lookup, trim_space, cut, atoi,
  leb, ◌==◌, Bool, true, false, not, ◌&&◌, ◌||◌, Option, none, some, List, [], ◌∷◌, ◌++◌,
  if◌then◌else◌,
}
use robotdreams.Report.Model.{
  Definition, KpiSpec, EventSpec, PlanFacet, PlanBaseline, SummaryFacet, DetailFacet, PanelSpec,
  PulseFacet, MediaFacet, ConversationFacet, TimeAggregationSpec, AggregationSpec, StatusRule,
  DataContract, has_any,
}
use robotdreams.Report.Policy.{Policy, parse_policy, text_at}
use robotdreams.Report.Plan.{item_policies}
use robotdreams.Report.Scope.{scope_levels}
use robotdreams.Report.Checks.{
  Problem, bad, bad_at, unless, each, each_in, name_check, vocabulary_check, sorted_keys,
}
use robotdreams.Report.Words.{
  categories, severities, primitives, panel_sections, directions, modalities, stances,
  media_archetypes, work_levels, time_kpi_policies, grounding_kinds,
}

abbrev name_byte : ℕ → Bool
name_byte c = (leb b'a' c && leb c b'z') || ((leb b'0' c && leb c b'9') || c == b'-')

abbrev name_bytes : Text → Bool
name_bytes [] = true
name_bytes (c ∷ cs) = name_byte c && name_bytes cs

-- `[a-z0-9-]+`
unfoldable pub is_name : Text → Bool
is_name s = not (is_empty s) && name_bytes s

abbrev pub parsed : Text → (Policy → Bool) → Bool
parsed s test = elim (parse_policy s) [ none ↦ true | some p ↦ test p ]

abbrev is_parsed : Text → Bool
is_parsed s = elim (parse_policy s) [ none ↦ false | some p ↦ true ]

-- `checkPolicy`: an empty policy is the default.
unfoldable pub check_policy : Text → Text → List Problem
check_policy field s = unless (is_empty s || is_parsed s) (bad field s)

-- A policy that parses but does not apply.
abbrev check_applies : Text → Text → List Text → List Problem
check_applies field s names =
    unless (is_empty s || parsed s (λ p. contains_text names p.name)) (bad field s)

abbrev check_keys : Text → Assoc Text → List Text → List Problem
check_keys field m [] = []
check_keys field m (k ∷ ks) = check_policy (field ++ k) (text_at k m) ++ check_keys field m ks

abbrev check_time_keys : Text → Assoc Text → List Text → List Problem
check_time_keys field m [] = []
check_time_keys field m (k ∷ ks) =
    (check_policy (field ++ k) (text_at k m)
      ++ unless (parsed (text_at k m) (λ p. contains_text time_kpi_policies p.name))
          (bad (field ++ k) (text_at k m)))
    ++ check_time_keys field m ks

abbrev check_time : Option TimeAggregationSpec → List Problem
check_time none = []
check_time (some tm) =
    check_policy (codes "time.status") tm.status
    ++ (check_applies (codes "time.status") tm.status (codes "worst" ∷ codes "latest" ∷ [])
        ++ (check_policy (codes "time.headline") tm.headline
            ++ (check_applies (codes "time.headline") tm.headline
                  (codes "latest" ∷ codes "top" ∷ codes "synthesize" ∷ [])
                ++ check_time_keys (codes "time.kpis/") tm.kpis (sorted_keys tm.kpis))))

abbrev check_items : Text → Option PlanFacet → List Problem
check_items items plan =
    if is_empty items
    then []
    else check_policy (codes "items") items
      ++ (check_applies (codes "items") items item_policies
          ++ unless (is_declared plan) (bad (codes "items") (codes "plan")))
  where
    is_declared : Option PlanFacet → Bool
    is_declared none = false
    is_declared (some p) = true

unfoldable pub check_policies : AggregationSpec → Option PlanFacet → List Problem
unfolding check_policy
check_policies a plan =
    check_policy (codes "status") a.status
    ++ (check_policy (codes "headline") a.headline
        ++ (check_policy (codes "timeline") a.timeline
            ++ (check_policy (codes "pulse") a.pulse
                ++ (check_keys (codes "kpis/") a.kpis (sorted_keys a.kpis)
                    ++ (check_time a.time ++ check_items a.items plan)))))

abbrev check_limits : PlanFacet → List Text → List Problem
check_limits pf [] = []
check_limits pf (st ∷ sts) =
    (unless (contains_text pf.states st) (bad (codes "wip_limits") st)
      ++ unless (not_negative (lookup st pf.wip_limits)) (bad (codes "wip_limits") st))
    ++ check_limits pf sts
  where
    not_negative : Option ℤ → Bool
    not_negative none = true
    not_negative (some n) = not (is_negative n)

abbrev check_baseline : Option PlanBaseline → List Problem
check_baseline none = []
check_baseline (some b) = unless (not (is_empty b.name)) (bad (codes "baseline.name") [])

unfoldable pub check_plan : PlanFacet → List Problem
unfolding vocabulary_check sorted_keys
check_plan pf =
    unless (has_any pf.states) (bad (codes "states") [])
    ++ (vocabulary_check (codes "states") pf.states
        ++ (vocabulary_check (codes "lanes") pf.lanes
            ++ (vocabulary_check (codes "horizons") pf.horizons
                ++ (vocabulary_check (codes "commitments") pf.commitments
                    ++ (vocabulary_check (codes "levels") pf.levels
                        ++ (each_in (codes "levels") (contains_text work_levels) pf.levels
                            ++ (check_limits pf (sorted_keys pf.wip_limits)
                                ++ check_baseline pf.baseline)))))))

abbrev check_plans : Option PlanFacet → List Problem
check_plans none = []
check_plans (some pf) = check_plan pf

abbrev check_event : ℕ → List Text → EventSpec → List Problem
check_event n seen e =
    name_check (codes "data.events") n seen e.type
    ++ unless (contains_text severities e.severity) (bad_at (codes "data.events") n e.severity)

module _ {F : Type 0} where
  abbrev without_target : Option F → Bool
  without_target none = true
  without_target (some t) = false

  abbrev check_kpi : ℕ → List Text → KpiSpec F → List Problem
  check_kpi n seen k =
      name_check (codes "data.kpis") n seen k.name
      ++ (unless (is_empty k.direction || contains_text directions k.direction)
            (bad_at (codes "data.kpis") n k.direction)
          ++ unless (without_target k.target || not (is_empty k.direction))
              (bad_at (codes "data.kpis") n (codes "target")))

  unfoldable pub check_contract : DataContract F → List Problem
  unfolding each
  check_contract c =
      each check_kpi (λ k. k.name) 0 [] c.kpis
      ++ (each (λ n seen s. name_check (codes "data.series") n seen s.name) (λ s. s.name) 0 []
            c.series
          ++ (each check_event (λ e. e.type) 0 [] c.events
              ++ each (λ n seen t. name_check (codes "data.tables") n seen t.name) (λ t. t.name) 0
                  [] c.tables))

-- `N/min`, where N is positive.
unfoldable pub is_rate_limit : Text → Bool
is_rate_limit s = elim (cut b'/' s) [
  | none ↦ false
  | some (count, unit) ↦
      is_positive (atoi (trim_space count)) && eqb (trim_space unit) (codes "min")
]
  where
    is_positive : Option ℤ → Bool
    is_positive (some (pos (suc n))) = true
    is_positive _ = false

abbrev check_panel : ℕ → List Text → PanelSpec → List Problem
check_panel n seen p =
    unless (contains_text primitives p.primitive) (bad_at (codes "panels") n p.primitive)
    ++ (unless (is_empty p.stance || contains_text stances p.stance)
          (bad_at (codes "panels") n p.stance)
        ++ unless (is_empty p.section || contains_text panel_sections p.section)
            (bad_at (codes "panels") n p.section))

abbrev check_detail : Option DetailFacet → List Problem
check_detail none = []
check_detail (some d) = each check_panel (λ p. p.title) 0 [] d.panels

abbrev check_pulse : Option PulseFacet → List Problem
check_pulse none = []
check_pulse (some p) =
    unless (is_empty p.rate_limit || is_rate_limit p.rate_limit)
      (bad (codes "rate_limit") p.rate_limit)

abbrev check_media : Option MediaFacet → List Problem
check_media none = []
check_media (some m) = each_in (codes "archetypes") (contains_text media_archetypes) m.archetypes

abbrev check_conversation : Option ConversationFacet → List Problem
check_conversation none = []
check_conversation (some c) =
    each_in (codes "grounding") (contains_text grounding_kinds) c.grounding

module _ {F : Type 0} where
  abbrev check_rule : Option (StatusRule F) → List Problem
  check_rule none = []
  check_rule (some r) =
      unless (contains_text directions r.direction) (bad (codes "direction") r.direction)

  abbrev check_summary : Option (SummaryFacet F) → List Problem
  check_summary none = []
  check_summary (some s) = check_rule s.status

  unfoldable pub check_facets : Definition F → List Problem
  unfolding each is_rate_limit
  check_facets d =
      check_summary d.facets.summary
      ++ (check_detail d.facets.detail
          ++ (check_pulse d.facets.pulse
              ++ (check_media d.facets.media ++ check_conversation d.facets.conversation)))

  unfoldable pub check_header : Definition F → List Problem
  unfolding is_name
  check_header d =
      unless (eqb d.version (codes "v1alpha1")) (bad (codes "version") d.version)
      ++ (unless (eqb d.kind (codes "ReportDefinition")) (bad (codes "kind") d.kind)
          ++ (unless (is_name d.name) (bad (codes "name") d.name)
              ++ (each_in (codes "categories") (contains_text categories) d.categories
                  ++ (each_in (codes "stances") (contains_text stances) d.stances
                      ++ (each_in (codes "modalities") (contains_text modalities) d.modalities
                          ++ each_in (codes "scope.attach") (contains_text scope_levels)
                              d.scope.attach)))))

  unfoldable pub validate_core : Definition F → List Problem
  unfolding check_header check_policies check_plan check_contract check_facets
  validate_core d =
      check_header d
      ++ (check_policies d.scope.aggregation d.facets.plan
          ++ (check_plans d.facets.plan ++ (check_contract d.contract ++ check_facets d)))
