-- ===== src/Report/Contributors.antt =====
-- The instances behind an aggregate: pkg/reporting/aggregate.go and Period of period.go. A list of
-- instances has no nil pointer, which the code skips.
pub mod Newest
use robotdreams.Base.{
  ℕ, Text, Assoc, codes, is_empty, eqb, text_ltb, lookup, insert, ltb, map, keep, order_by, Bool,
  false, ◌&&◌, ◌||◌, not, Option, none, some, List, [], ◌∷◌, ◌++◌, if◌then◌else◌, ◌==◌,
}
use robotdreams.Report.Floats.{Float}
use robotdreams.Report.Model.{Definition, Instance, KpiSpec, Event, SeriesPoint, has_any}
use robotdreams.Report.Policy.{time_status_policy, time_headline_policy, time_kpi_policy}
use robotdreams.Report.Scope.{scope_within}
use robotdreams.Report.Status.{instance_status, worst_status}
use robotdreams.Report.Kpis.{apply_kpi_policy, collect}
use robotdreams.Report.Headline.{any_precomputed_headline, newest_headlines}

-- The location of the bounds is not kept.
pub record Period : Type 0 where
  pub kind : Text
  pub start : ℕ
  pub end : ℕ

-- `Contains`.
unfoldable pub is_within : Period → ℕ → Bool
is_within p t = not (ltb t p.start) && ltb t p.end

abbrev pub event_before : Event → Event → Bool
event_before a b = ltb a.t b.t

module _ {F : Type 0} ⦃f : Float F⦄ where
  -- An instance of the definition that was made at the scope or below it.
  unfoldable pub is_counted : Definition F → Text → Instance F → Bool
  is_counted def scope i =
      (is_empty i.definition || eqb i.definition def.name) && scope_within scope i.scope

  abbrev pub newer_of : Instance F → Option (Instance F) → Instance F
  newer_of i none = i
  newer_of i (some cur) = if ltb i.produced_at cur.produced_at then cur else i

  unfoldable pub latest_from :
      Definition F → Text → Assoc (Instance F) → List (Instance F) → Assoc (Instance F)
  unfolding is_counted
  latest_from def scope m [] = m
  latest_from def scope m (i ∷ is) =
      latest_from def scope
        (if is_counted def scope i then insert i.scope (newer_of i (lookup i.scope m)) m else m) is

  -- By time, and by path where the times are the same.
  abbrev pub produced_before : Instance F → Instance F → Bool
  produced_before a b =
      if a.produced_at == b.produced_at
      then text_ltb a.scope b.scope
      else ltb a.produced_at b.produced_at

  unfoldable pub latest_per_path : Definition F → Text → List (Instance F) → List (Instance F)
  unfolding latest_from
  latest_per_path def scope instances =
      order_by produced_before (map (λ e. e.1) (latest_from def scope [] instances))

  unfoldable pub in_period : Definition F → Text → List (Instance F) → Period → List (Instance F)
  unfolding is_counted
  in_period def scope instances p =
      keep (λ i. is_counted def scope i && is_within p i.produced_at) instances

  abbrev pub newest_of : Instance F → List (Instance F) → Instance F
  newest_of i [] = i
  newest_of i (j ∷ js) = newest_of j js

  -- One indicator over time.
  abbrev put_over_time : Bool → Text → (List F → F) → List F → Assoc F → Assoc F
  put_over_time is_count name apply vals m =
      if has_any vals || is_count then insert name (apply vals) m else m

  unfoldable pub fold_kpis : Definition F → List (Instance F) → List (KpiSpec F) → Assoc F → Assoc F
  unfolding time_kpi_policy
  fold_kpis def group [] m = m
  fold_kpis def group (spec ∷ specs) m =
      let policy = time_kpi_policy def.scope.aggregation spec.name in
      fold_kpis def group specs (
        put_over_time (eqb policy.name (codes "count")) spec.name (apply_kpi_policy policy)
          (collect (λ i. lookup spec.name i.kpis) group) m)

  unfoldable pub fold_targets :
      Definition F → List (Instance F) → List (KpiSpec F) → Assoc F → Assoc F
  unfolding time_kpi_policy
  fold_targets def group [] m = m
  fold_targets def group (spec ∷ specs) m =
      let policy = time_kpi_policy def.scope.aggregation spec.name in
      fold_targets def group specs (
        put_over_time false spec.name (apply_kpi_policy policy)
          (collect (λ i. lookup spec.name i.targets) group) m)

  abbrev pub points_at : Text → Assoc (List (SeriesPoint F)) → List (SeriesPoint F)
  points_at name m = elim (lookup name m) [ none ↦ [] | some pts ↦ pts ]

  unfoldable pub add_series :
      Assoc (List (SeriesPoint F)) → Assoc (List (SeriesPoint F)) → Assoc (List (SeriesPoint F))
  add_series m [] = m
  add_series m ((name, pts) ∷ rest) = add_series (insert name (points_at name m ++ pts) m) rest

  unfoldable pub fold_series :
      Assoc (List (SeriesPoint F)) → List (Instance F) → Assoc (List (SeriesPoint F))
  unfolding add_series
  fold_series m [] = m
  fold_series m (i ∷ is) = fold_series (add_series m i.series) is

  abbrev pub point_before : SeriesPoint F → SeriesPoint F → Bool
  point_before a b = ltb a.t b.t

  unfoldable pub all_events : List (Instance F) → List Event
  all_events [] = []
  all_events (i ∷ is) = i.events ++ all_events is

  -- Several instances of one path, oldest first, as one.
  unfoldable pub fold_several : Definition F → Instance F → List (Instance F) → Instance F
  unfolding fold_kpis fold_targets fold_series all_events time_status_policy time_headline_policy
  fold_several def i is =
      let group = i ∷ is in
      let newest = newest_of i is in
      let agg = def.scope.aggregation in
      let top = time_headline_policy agg in
      let n = if eqb top.name (codes "top") then top.n else 1 in
      record {
        definition = newest.definition;
        scope = newest.scope;
        producer = newest.producer;
        produced_at = newest.produced_at;
        status =
            if eqb (time_status_policy agg).name (codes "latest")
            then instance_status def newest
            else worst_status def group;
        headline = if any_precomputed_headline group then newest_headlines def group n else [];
        kpis = fold_kpis def group def.contract.kpis [];
        targets = fold_targets def group def.contract.kpis [];
        series = map (λ e. (e.0, order_by point_before e.1)) (fold_series [] group);
        tables = newest.tables;
        events = order_by event_before (all_events group);
        items = newest.items;
      }

  unfoldable pub fold_over_time : Definition F → Instance F → List (Instance F) → Instance F
  unfolding fold_several
  fold_over_time def i [] = i
  fold_over_time def i (j ∷ js) = fold_several def i (j ∷ js)

  -- A group of instances of one path is its path and its members, in order of arrival.
  unfoldable pub add_to_group : Instance F → Assoc (List (Instance F)) → Assoc (List (Instance F))
  add_to_group i [] = (i.scope, i ∷ []) ∷ []
  add_to_group i ((path, group) ∷ groups) =
      if eqb path i.scope
      then (path, group ++ (i ∷ [])) ∷ groups
      else (path, group) ∷ add_to_group i groups

  unfoldable pub by_path : Assoc (List (Instance F)) → List (Instance F) → Assoc (List (Instance F))
  unfolding add_to_group
  by_path groups [] = groups
  by_path groups (i ∷ is) = by_path (add_to_group i groups) is

  abbrev pub older : Instance F → Instance F → Bool
  older a b = ltb a.produced_at b.produced_at

  abbrev fold_sorted : Definition F → List (Instance F) → List (Instance F)
  fold_sorted def [] = []
  fold_sorted def (i ∷ is) = fold_over_time def i is ∷ []

  unfoldable pub fold_groups : Definition F → Assoc (List (Instance F)) → List (Instance F)
  unfolding fold_over_time
  fold_groups def [] = []
  fold_groups def ((path, group) ∷ groups) =
      fold_sorted def (order_by older group) ++ fold_groups def groups

  unfoldable pub contributors_in :
      Definition F → Text → List (Instance F) → Option Period → List (Instance F)
  unfolding latest_per_path in_period by_path fold_groups
  contributors_in def scope instances none = latest_per_path def scope instances
  contributors_in def scope instances (some p) =
      order_by produced_before (fold_groups def (by_path [] (in_period def scope instances p)))
