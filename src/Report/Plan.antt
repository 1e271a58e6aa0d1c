-- ===== src/Report/Plan.antt =====
-- The board of pkg/reporting/aggregate.go: the items of many instances by state, in one order, bounded.
pub mod Order
pub mod Counts
pub mod Limits
use robotdreams.Report.Sets.{contains_text}
use robotdreams.Base.{
  ℕ, suc, ◌+◌, ℤ, pos, times, Text, Assoc, codes, is_empty, eqb, text_ltb, lookup, insert, ltb, leb,
  map, length, take, order_by, Bool, true, false, ◌&&◌, ◌||◌, not, Option, none, some, List, [],
  ◌∷◌, ◌++◌, if◌then◌else◌, ◌==◌,
}
use robotdreams.Report.Floats.{Float}
use robotdreams.Report.Model.{
  Definition, Instance, Item, PlanFacet, PlanBaseline, is_blocked, is_terminal, state_rank,
  index_of,
}
use robotdreams.Report.Policy.{Policy, parse_policy, show_policy, bare}
use robotdreams.Report.Contributors.{Period, contributors_in}
use robotdreams.Report.Events.{concat}

abbrev pub plan_item_cap : ℕ
plan_item_cap = 500

abbrev pub item_policies : List Text
item_policies = codes "merge" ∷ codes "sample" ∷ codes "top" ∷ codes "count" ∷ []

unfoldable pub commitment_rank : PlanFacet → Text → ℕ
unfolding index_of
commitment_rank facet c = elim (index_of facet.commitments c) [
  | some i ↦ i
  | none ↦ length facet.commitments + 1
]

-- `a < b` on the ranks of states, where an unknown state has -1.
abbrev pub rank_ltb : Option ℕ → Option ℕ → Bool
rank_ltb none none = false
rank_ltb none (some b) = true
rank_ltb (some a) none = false
rank_ltb (some a) (some b) = ltb a b

-- With a due date before without one, earlier before later.
abbrev pub due_ltb : Option ℕ → Option ℕ → Bool
due_ltb none d = false
due_ltb (some a) none = true
due_ltb (some a) (some b) = ltb a b

abbrev pub differ : Bool → Bool → Bool
differ true b = not b
differ false b = b

-- The columns of the board: how many items a state has, their size, and how many are shown.
pub record PlanColumn (F : Type 0) : Type 0 where
  pub state : Text
  pub items : ℕ
  pub size : F
  pub shown : ℕ
  pub limit : ℤ

pub record PlanBucket (F : Type 0) : Type 0 where
  pub name : Text
  pub items : ℕ
  pub size : F

pub record PlanView (F : Type 0) : Type 0 where
  pub definition : Text
  pub scope : Text
  pub policy : Text
  pub states : List (PlanColumn F)
  pub lanes : List (PlanBucket F)
  pub horizons : List (PlanBucket F)
  pub commitments : List (PlanBucket F)
  pub items : List (Item F)
  pub total : ℕ
  pub blocked : ℕ
  pub truncated : Bool
  pub size_unit : Text
  pub baseline : Option PlanBaseline
  pub instances : ℕ
  pub scopes : List Text
  pub last_produced_at : ℕ

-- The policy of the items where it is one, or merge.
abbrev items_policy : Option Policy → Policy
items_policy none = bare (codes "merge")
items_policy (some p) = if contains_text item_policies p.name then p else bare (codes "merge")

-- `sample` keeps of each state the first `n`; `per` counts what was kept.
abbrev pub or_zero : Option ℕ → ℕ
or_zero none = 0
or_zero (some n) = n

abbrev pub kept_of : Text → Assoc ℕ → ℕ
kept_of state per = or_zero (lookup state per)

module _ {F : Type 0} where
  -- One key after the other: finished last, blocked first, by commitment, by due date, by state, by
  -- scope and by id.
  unfoldable pub item_less : PlanFacet → Item F → Item F → Bool
  unfolding commitment_rank state_rank is_terminal
  item_less facet a b =
      let at = is_terminal facet a.state in
      let bt = is_terminal facet b.state in
      let ac = commitment_rank facet a.commitment in
      let bc = commitment_rank facet b.commitment in
      let ar = state_rank facet a.state in
      let br = state_rank facet b.state in
      if differ at bt
      then bt
      else if differ (is_blocked a) (is_blocked b)
      then is_blocked a
      else if not (ac == bc)
      then ltb ac bc
      else if due_ltb a.due b.due
      then true
      else if due_ltb b.due a.due
      then false
      else if rank_ltb ar br
      then true
      else if rank_ltb br ar
      then false
      else if not (eqb a.scope b.scope)
      then text_ltb a.scope b.scope
      else text_ltb a.id b.id

  unfoldable pub sample_from : ℕ → Assoc ℕ → List (Item F) → List (Item F)
  sample_from n per [] = []
  sample_from n per (it ∷ its) =
      let c = kept_of it.state per in
      let rest = sample_from n (if leb n c then per else insert it.state (c + 1) per) its in
      if leb n c then rest else it ∷ rest

  unfoldable pub bound_items : Policy → List (Item F) → List (Item F)
  unfolding sample_from
  bound_items p ordered =
      if eqb p.name (codes "sample")
      then if p.n == 0 then ordered else sample_from p.n [] ordered
      else if eqb p.name (codes "top")
      then if p.n == 0 then ordered else take p.n ordered
      else take plan_item_cap ordered

  abbrev pub stamp : Text → Text → Item F → Item F
  stamp scope definition it = record it { scope = scope; definition = definition }

  unfoldable pub origin_stamped_items : Definition F → List (Instance F) → List (Item F)
  origin_stamped_items def [] = []
  origin_stamped_items def (i ∷ is) =
      map (stamp i.scope def.name) i.items ++ origin_stamped_items def is

  -- A limit of 0 stands for any that is not positive.
  unfoldable pub merge_items : PlanFacet → ℕ → List (List (Item F)) → List (Item F)
  unfolding item_less concat
  merge_items facet limit batches =
      let out = order_by (item_less facet) (concat batches) in
      if ltb 0 limit && ltb limit (length out) then take limit out else out

  abbrev pub has_column : Text → List (PlanColumn F) → Bool
  has_column state [] = false
  has_column state (c ∷ cs) = eqb c.state state || has_column state cs

  -- byState: of several columns of a state, the last.
  unfoldable pub on_column :
      (PlanColumn F → PlanColumn F) → Text → List (PlanColumn F) → List (PlanColumn F)
  on_column change state [] = []
  on_column change state (c ∷ cs) =
      if eqb c.state state && not (has_column state cs)
      then change c ∷ cs
      else c ∷ on_column change state cs

  -- What counts as shown.
  abbrev show_item : PlanColumn F → PlanColumn F
  show_item c = record c { shown = c.shown + 1 }

  unfoldable pub count_shown : List (PlanColumn F) → List (Item F) → List (PlanColumn F)
  unfolding on_column
  count_shown cols [] = cols
  count_shown cols (it ∷ its) = count_shown (on_column show_item it.state cols) its

module _ {F : Type 0} ⦃f : Float F⦄ where
  abbrev add_item : F → PlanColumn F → PlanColumn F
  add_item size c = record c { items = c.items + 1; size = f.plus c.size size }

  unfoldable pub count_items : List (PlanColumn F) → List (Item F) → List (PlanColumn F)
  unfolding on_column
  count_items cols [] = cols
  count_items cols (it ∷ its) = count_items (on_column (add_item it.size) it.state cols) its

  unfoldable pub new_columns : PlanFacet → ℕ → List Text → List (PlanColumn F)
  new_columns facet contributors [] = []
  new_columns facet contributors (st ∷ sts) =
      let limit : ℤ = elim (lookup st facet.wip_limits) [
        | none ↦ pos 0
        | some w ↦ times w contributors
      ] in
      record { state = st; items = 0; size = f.nought; shown = 0; limit = limit }
      ∷ new_columns facet contributors sts

  unfoldable pub new_buckets : List Text → Assoc (PlanBucket F)
  new_buckets [] = []
  new_buckets (n ∷ ns) = insert n (record { name = n; items = 0; size = f.nought }) (new_buckets ns)

  unfoldable pub tally_bucket : Assoc (PlanBucket F) → Text → F → Assoc (PlanBucket F)
  tally_bucket m key size = if is_empty key then m else elim (lookup key m) [
    | none ↦ m
    | some b ↦ insert key (record b { items = b.items + 1; size = f.plus b.size size }) m
  ]

  -- One key of every item.
  unfoldable pub tally_all :
      (Item F → Text) → Assoc (PlanBucket F) → List (Item F) → Assoc (PlanBucket F)
  unfolding tally_bucket
  tally_all key m [] = m
  tally_all key m (it ∷ its) = tally_all key (tally_bucket m (key it) it.size) its

  -- The map holds every name, so that no pointer in it is nil.
  unfoldable pub bucket_list : List Text → Assoc (PlanBucket F) → List (PlanBucket F)
  bucket_list [] m = []
  bucket_list (n ∷ ns) m = elim (lookup n m) [
    | none ↦ bucket_list ns m
    | some b ↦ b ∷ bucket_list ns m
  ]

  abbrev buckets_of : List Text → (Item F → Text) → List (Item F) → List (PlanBucket F)
  buckets_of names key all = bucket_list names (tally_all key (new_buckets names) all)

  abbrev pub count_blocked : List (Item F) → ℕ
  count_blocked [] = 0
  count_blocked (it ∷ its) = if is_blocked it then suc (count_blocked its) else count_blocked its

  abbrev pub last_time : ℕ → List (Instance F) → ℕ
  last_time t [] = t
  last_time t (i ∷ is) = last_time i.produced_at is

  -- The board without its items, which is all of it under `count`.
  unfoldable pub plan_counts : Definition F → PlanFacet → Text → List (Instance F) → PlanView F
  unfolding count_items new_columns origin_stamped_items bucket_list tally_all new_buckets
  plan_counts def facet scope contrib =
      let all = origin_stamped_items def contrib in
      record {
        definition = def.name;
        scope = scope;
        policy = show_policy (items_policy (parse_policy def.scope.aggregation.items));
        states = count_items (new_columns facet (length contrib) facet.states) all;
        lanes = buckets_of facet.lanes (λ it. it.lane) all;
        horizons = buckets_of facet.horizons (λ it. it.horizon) all;
        commitments = buckets_of facet.commitments (λ it. it.commitment) all;
        items = [];
        total = length all;
        blocked = count_blocked all;
        truncated = false;
        size_unit = facet.size_unit;
        baseline = facet.baseline;
        instances = length contrib;
        scopes = order_by text_ltb (map (λ i. i.scope) contrib);
        last_produced_at = last_time 0 contrib;
      }

  unfoldable pub plan_of : Definition F → PlanFacet → Text → List (Instance F) → PlanView F
  unfolding plan_counts count_shown bound_items item_less origin_stamped_items
  plan_of def facet scope contrib =
      let policy = items_policy (parse_policy def.scope.aggregation.items) in
      let view = plan_counts def facet scope contrib in
      let all = order_by (item_less facet) (origin_stamped_items def contrib) in
      let kept = bound_items policy all in
      if eqb policy.name (codes "count") then view else record view {
        truncated = ltb (length kept) (length all);
        items = kept;
        states = count_shown view.states kept;
      }

  unfoldable pub aggregate_plan_in :
      Definition F → Text → List (Instance F) → Option Period → Option (PlanView F)
  unfolding plan_of contributors_in
  aggregate_plan_in def scope instances period = elim def.facets.plan [
    | none ↦ none
    | some facet ↦ some (plan_of def facet scope (contributors_in def scope instances period))
  ]
