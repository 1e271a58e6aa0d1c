-- ===== src/Report/Tests.antt =====
-- The theorems of this part at a board of two states and two reports, with whole numbers as values.
use robotdreams.Base.{
  ℕ, ◌≡◌, ◌≤◌, ◌<◌, ◌↔◌, ◌⊎◌, refl, arith, Text, codes, eqb, In, All, length, ltb, true, false,
  none, some, List, [], ◌∷◌, IsOrdered, IsApart, order_by, insert_by, ltb-IsWeakOrder,
}
use robotdreams.Report.Floats.{IsOrderly, whole_float}
use robotdreams.Report.Model.{
  Definition, Instance, Item, Event, PlanFacet, KpiSpec, status_ok, status_critical, status_warn,
  index_of, state_rank,
}
use robotdreams.Report.Policy.{Policy, parse_policy}
use robotdreams.Report.Kpis.{apply_kpi_policy, aggregate_kpis}
use robotdreams.Report.Kpis.Bounds.{apply_kpi_policy_picks}
use robotdreams.Report.Contributors.{contributors_in, produced_before, is_counted}
use robotdreams.Report.Contributors.Newest.{contributors_in_newest, IsOtherPath}
use robotdreams.Report.Events.{merge_events, concat, up_to}
use robotdreams.Report.Events.Bounds.{merge_events-IsBounded, IsBounded}
use robotdreams.Report.Plan.{
  merge_items, item_less, plan_of, aggregate_plan_in, origin_stamped_items,
}
use robotdreams.Report.Plan.Limits.{merge_items_best, items_in}
use robotdreams.Report.Plan.Counts.{states_of}
use robotdreams.Report.Checks.{vocabulary_check, each, sorted_keys}
use robotdreams.Report.Core.{
  validate_core, check_header, check_policies, check_plan, check_contract, check_facets, is_name,
  check_policy,
}
use robotdreams.Report.Core.Valid.{
  aggregate_plan_in-validate_core, vocabulary_check_iff, IsVocabulary,
}
use robotdreams.Report.Refs.{validate_refs, summary_refs, timeline_refs, names_of}
use robotdreams.Report.Refs.Declared.{aggregate_kpis-validate_refs, IsSpecified}
use robotdreams.Report.Instances.{instance_problems, field_problems, items_problems, item_problems}
use robotdreams.Report.Instances.Valid.{all_columns-aggregate_plan_in, all_columns}

abbrev facet : PlanFacet
facet = record {
  states = codes "todo" ∷ codes "done" ∷ [];
  lanes = [];
  horizons = [];
  commitments = [];
  levels = [];
  wip_limits = [];
  size_unit = [];
  baseline = none;
}

abbrev speed : KpiSpec ℕ
speed = record {
  name = codes "speed";
  unit = codes "m";
  window = [];
  target = none;
  direction = [];
}

abbrev board : Definition ℕ
board = record {
  version = codes "v1alpha1";
  kind = codes "ReportDefinition";
  name = codes "board";
  description = [];
  extends = [];
  categories = [];
  modalities = [];
  stances = [];
  scope = record {
    attach = [];
    aggregation = record {
      status = [];
      headline = [];
      kpis = [];
      timeline = [];
      pulse = [];
      items = [];
      time = none;
    };
  };
  contract = record { kpis = speed ∷ []; series = []; events = []; tables = [] };
  facets = record {
    summary = none;
    timeline = none;
    detail = none;
    plan = some facet;
    pulse = none;
    media = none;
    conversation = none;
  };
}

abbrev item_at : Text → Text → Item ℕ
item_at id state = record {
  id = id;
  title = codes "t";
  state = state;
  lane = [];
  owner = [];
  due = none;
  size = 1;
  blocked_by = [];
  horizon = [];
  commitment = [];
  level = [];
  scope = [];
  definition = [];
}

abbrev report_at : Text → ℕ → Text → List (Item ℕ) → Instance ℕ
report_at scope t status items = record {
  definition = codes "board";
  scope = scope;
  producer = codes "eng";
  produced_at = t;
  status = status;
  headline = [];
  kpis = (codes "speed", t) ∷ [];
  targets = [];
  series = [];
  tables = [];
  events = [];
  items = items;
}

abbrev first : Item ℕ
first = item_at (codes "a") (codes "todo")

abbrev second : Item ℕ
second = item_at (codes "b") (codes "done")

abbrev third : Item ℕ
third = item_at (codes "c") (codes "todo")

abbrev north : Instance ℕ
north = report_at (codes "u/n") 5 status_warn (first ∷ second ∷ [])

abbrev south : Instance ℕ
south = report_at (codes "u/s") 7 status_ok (third ∷ [])

abbrev reports : List (Instance ℕ)
reports = north ∷ south ∷ []

whole-IsOrderly : IsOrderly ℕ
whole-IsOrderly = record {
  weak = ltb-IsWeakOrder;
  le-eq-not-lt = λ a b. ground arith;
  share_le = λ p n h. omega arith;
}

board-valid : validate_core board ≡ []
unfolding validate_core eqb is_name each vocabulary_check sorted_keys order_by check_policy
    parse_policy check_header check_policies check_plan check_contract check_facets
board-valid = refl

board_refs-valid : validate_refs board ≡ []
unfolding validate_refs summary_refs timeline_refs names_of each sorted_keys order_by eqb
board_refs-valid = refl

north-valid : instance_problems board north ≡ []
unfolding instance_problems field_problems items_problems item_problems each sorted_keys order_by
    insert_by eqb index_of state_rank
north-valid = refl

south-valid : instance_problems board south ≡ []
unfolding instance_problems field_problems items_problems item_problems each sorted_keys order_by
    insert_by eqb index_of state_rank
south-valid = refl

abbrev median : Policy
median = record { name = codes "p50"; n = 0 }

abbrev values : List ℕ
values = 5 ∷ 7 ∷ []

abbrev picked : ℕ
picked = apply_kpi_policy median values

apply_kpi_policy_picks_example :
    In picked values
    × ((eqb median.name (codes "min") ≡ false) ⊎ All (λ u. ltb u picked ≡ false) values)
unfolding eqb
apply_kpi_policy_picks_example = apply_kpi_policy_picks whole-IsOrderly median 5 (7 ∷ []) refl

contributors_in_newest_example :
    let contrib = contributors_in board (codes "u") reports none in
    (IsOrdered produced_before contrib × IsApart IsOtherPath contrib)
    × (All (λ c. (is_counted board (codes "u") c ≡ true) × In c reports) contrib
        × ((i : Instance ℕ)
            → In i reports
            → is_counted board (codes "u") i ≡ true
            → (c : Instance ℕ) × (In c contrib
                × ((c.scope ≡ i.scope) × (i.produced_at ≤ c.produced_at)))))
contributors_in_newest_example = contributors_in_newest board (codes "u") reports

abbrev batches : List (List (Item ℕ))
batches = (first ∷ second ∷ []) ∷ (third ∷ []) ∷ []

abbrev limit : ℕ
limit = 2

abbrev merged : List (Item ℕ)
merged = merge_items facet limit batches

merge_items_best_example :
    IsOrdered (item_less facet) merged
    × ((length merged ≡ up_to limit (length (concat batches)))
        × (((x : Item ℕ) → In x merged → In x (concat batches))
            × ((x : Item ℕ)
                → In x (concat batches)
                → In x merged ⊎ All (λ y. item_less facet x y ≡ false) merged)))
merge_items_best_example = merge_items_best facet limit batches

aggregate_plan_in-validate_core_example :
    let contrib = contributors_in board (codes "u") reports none in
    let all = origin_stamped_items board contrib in
    let view = plan_of board facet (codes "u") contrib in
    (aggregate_plan_in board (codes "u") reports none ≡ some view)
    × ((states_of view.states ≡ facet.states)
        × (All
              (λ c. (c.items ≡ items_in c.state all) × (c.shown ≡ items_in c.state view.items))
              view.states
            × ((view.total ≡ length all)
                × ((view.truncated ≡ false) ⊎ (length view.items < view.total)))))
aggregate_plan_in-validate_core_example =
    aggregate_plan_in-validate_core board facet (codes "u") reports none board-valid refl

all_columns-aggregate_plan_in_example :
    let view = plan_of board facet (codes "u") (contributors_in board (codes "u") reports none) in
    (aggregate_plan_in board (codes "u") reports none ≡ some view)
    × (all_columns view.states ≡ view.total)
all_columns-aggregate_plan_in_example =
    all_columns-aggregate_plan_in board facet (codes "u") reports board-valid refl
      (north-valid, (south-valid, tt))

abbrev event_at : ℕ → Text → Event
event_at t severity = record {
  t = t;
  type = codes "e";
  severity = severity;
  label = [];
  scope = [];
  definition = [];
  attrs = [];
}

abbrev streams : List (List Event)
streams =
    (event_at 3 status_critical ∷ []) ∷ (event_at 1 status_ok ∷ event_at 2 status_warn ∷ []) ∷ []

merge_events-IsBounded_example : IsBounded 2 (concat streams) (merge_events 2 streams)
merge_events-IsBounded_example = merge_events-IsBounded 2 streams

vocabulary_check_iff_example :
    (vocabulary_check (codes "states") facet.states ≡ []) ↔ IsVocabulary facet.states
vocabulary_check_iff_example = vocabulary_check_iff (codes "states") facet.states

aggregate_kpis-validate_refs_example :
    All (IsSpecified board.contract.kpis) (aggregate_kpis board reports)
aggregate_kpis-validate_refs_example = aggregate_kpis-validate_refs board reports board_refs-valid
