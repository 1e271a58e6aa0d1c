-- ===== src/Report/Aggregate.antt =====
-- AggregateIn of pkg/reporting/aggregate.go: one summary of the instances at or below a scope.
use robotdreams.Base.{
  ℕ, Text, codes, is_empty, text_ltb, map, length, last_n, order_by, Bool, false, Option, none,
  some, List, [], ◌∷◌, ◌++◌, if◌then◌else◌,
}
use robotdreams.Report.Floats.{Float}
use robotdreams.Report.Model.{Definition, Instance, SeriesPoint}
use robotdreams.Report.Status.{aggregate_status}
use robotdreams.Report.Kpis.{KpiValue, aggregate_kpis}
use robotdreams.Report.Headline.{aggregate_headline}
use robotdreams.Report.Contributors.{Period, contributors_in, in_period, points_at, point_before}

abbrev pub sparkline_cap : ℕ
sparkline_cap = 200

pub record ContributorView : Type 0 where
  pub scope : Text
  pub producer : Text
  pub produced_at : ℕ

pub record SummaryView (F : Type 0) : Type 0 where
  pub definition : Text
  pub description : Text
  pub categories : List Text
  pub stances : List Text
  pub facets : List Text
  pub scope : Text
  pub status : Text
  pub headline : Text
  pub headline_partial : Bool
  pub kpis : List (KpiValue F)
  pub sparkline : List (SeriesPoint F)
  pub instances : ℕ
  pub scopes : List Text
  pub contributors : List ContributorView
  pub last_produced_at : ℕ
  pub folded : ℕ

abbrev facet_name : {A : Type 0} → Text → Option A → List Text
facet_name name none = []
facet_name name (some a) = name ∷ []

module _ {F : Type 0} ⦃f : Float F⦄ where
  unfoldable pub facet_names : Definition F → List Text
  facet_names def =
      facet_name (codes "summary") def.facets.summary
      ++ (facet_name (codes "detail") def.facets.detail
          ++ (facet_name (codes "timeline") def.facets.timeline
              ++ (facet_name (codes "pulse") def.facets.pulse
                  ++ (facet_name (codes "media") def.facets.media
                      ++ (facet_name (codes "conversation") def.facets.conversation
                          ++ (facet_name (codes "plan") def.facets.plan))))))

  abbrev pub points_of : Text → List (Instance F) → List (SeriesPoint F)
  points_of name [] = []
  points_of name (i ∷ is) = points_at name i.series ++ points_of name is

  unfoldable pub aggregate_sparkline : Definition F → List (Instance F) → List (SeriesPoint F)
  aggregate_sparkline def contrib = elim def.facets.summary [
    | none ↦ []
    | some s ↦
        if is_empty s.sparkline
        then []
        else last_n sparkline_cap (order_by point_before (points_of s.sparkline contrib))
  ]

  -- The view of no instance at all.
  abbrev pub empty_view : Definition F → Text → ℕ → SummaryView F
  empty_view def scope folded = record {
    definition = def.name;
    description = def.description;
    categories = def.categories;
    stances = def.stances;
    facets = facet_names def;
    scope = scope;
    status = [];
    headline = [];
    headline_partial = false;
    kpis = [];
    sparkline = [];
    instances = 0;
    scopes = [];
    contributors = [];
    last_produced_at = 0;
    folded = folded;
  }

  abbrev contributor_view : Instance F → ContributorView
  contributor_view i = record {
    scope = i.scope;
    producer = i.producer;
    produced_at = i.produced_at;
  }

  abbrev last_produced : Instance F → List (Instance F) → ℕ
  last_produced i [] = i.produced_at
  last_produced i (j ∷ js) = last_produced j js

  unfoldable pub summary_of : Definition F → Text → ℕ → List (Instance F) → SummaryView F
  unfolding aggregate_status aggregate_kpis aggregate_headline aggregate_sparkline
  summary_of def scope folded [] = empty_view def scope folded
  summary_of def scope folded (i ∷ is) =
      let contrib = i ∷ is in
      let kpis = aggregate_kpis def contrib in
      let headline = aggregate_headline def contrib kpis in
      record (empty_view def scope folded) {
        instances = length contrib;
        scopes = order_by text_ltb (map (λ c. c.scope) contrib);
        contributors = map contributor_view contrib;
        last_produced_at = last_produced i is;
        status = aggregate_status def contrib;
        kpis = kpis;
        headline = headline.0;
        headline_partial = headline.1;
        sparkline = aggregate_sparkline def contrib;
      }

  unfoldable pub aggregate_in :
      Definition F → Text → List (Instance F) → Option Period → SummaryView F
  unfolding summary_of contributors_in in_period
  aggregate_in def scope instances none =
      summary_of def scope 0 (contributors_in def scope instances none)
  aggregate_in def scope instances (some p) =
      summary_of def scope (length (in_period def scope instances p))
        (contributors_in def scope instances (some p))
