-- ===== src/Orgchart/ChartFile.antt =====
-- internal/orgchart/chartfile.go: the validation of a chart that a file declares, after the YAML is
-- decoded. A map is iterated in the order of its list.
pub mod Accepted
use robotdreams.Report.Sets.{contains_text}
use robotdreams.Base.{
  ℕ, zero, suc, Text, Assoc, is_empty, eqb, text_ltb, lookup, insert, map, length, order_by, Bool,
  true, false, not, ◌&&◌, ◌||◌, Option, none, some, List, [], ◌∷◌, ◌++◌, Result, ok, err,
  if◌then◌else◌,
}
use robotdreams.Orgchart.Graph.{Worker, Status}

pub record ChartWorker : Type 0 where
  pub id : Text
  pub role : Text
  pub reports_to : Text

-- The problems that the file reports, with the index of the worker.
pub data ChartProblem : Type 0 where
  empty_id : ℕ → ChartProblem
  duplicate_id : ℕ → Text → ℕ → ChartProblem
  reports_to_itself : ℕ → Text → ChartProblem
  dangling : ℕ → Text → Text → ChartProblem
  on_cycle : Text → ChartProblem

abbrev pub is_some : {A : Type 0} → Option A → Bool
is_some none = false
is_some (some a) = true

abbrev pub id_problem : ℕ → Text → Option ℕ → List ChartProblem
id_problem n [] found = empty_id n ∷ []
id_problem n (c ∷ cs) none = []
id_problem n (c ∷ cs) (some prev) = duplicate_id n (c ∷ cs) prev ∷ []

-- The index of each id, and what is wrong with the ids.
unfoldable pub index_from : ℕ → Assoc ℕ → List ChartWorker → Assoc ℕ × List ChartProblem
index_from n by_id [] = (by_id, [])
index_from n by_id (w ∷ ws) =
    let found = lookup w.id by_id in
    let skip = is_empty w.id || is_some found in
    let rest = index_from (suc n) (if skip then by_id else insert w.id n by_id) ws in
    (rest.0, id_problem n w.id found ++ rest.1)

unfoldable pub index_unique_ids : List ChartWorker → Assoc ℕ × List ChartProblem
unfolding index_from
index_unique_ids ws = index_from 0 [] ws

abbrev pub reports_problem : ℕ → Assoc ℕ → ChartWorker → List ChartProblem
reports_problem n by_id w =
    if is_empty w.id || is_empty w.reports_to
    then []
    else if eqb w.reports_to w.id
    then reports_to_itself n w.id ∷ []
    else elim (lookup w.reports_to by_id) [ none ↦ dangling n w.id w.reports_to ∷ [] | some i ↦ [] ]

unfoldable pub check_reports_to_resolve : ℕ → Assoc ℕ → List ChartWorker → List ChartProblem
check_reports_to_resolve n by_id [] = []
check_reports_to_resolve n by_id (w ∷ ws) =
    reports_problem n by_id w ++ check_reports_to_resolve (suc n) by_id ws

abbrev is_kept : ChartWorker → Assoc ℕ → Assoc Text → Bool
is_kept w by_id parent =
    (not (is_empty w.id) && (not (is_empty w.reports_to) && not (eqb w.reports_to w.id)))
    && (is_some (lookup w.reports_to by_id) && not (is_some (lookup w.id parent)))

-- Who reports to whom, of what makes sense; the first where an id occurs twice.
unfoldable pub parents_from : Assoc ℕ → Assoc Text → List ChartWorker → Assoc Text
parents_from by_id parent [] = parent
parents_from by_id parent (w ∷ ws) =
    parents_from by_id (if is_kept w by_id parent then insert w.id w.reports_to parent else parent)
      ws

pub data Mark : Type 0 where
  visiting done : Mark

-- The loop of markCycleFrom: the path from the entry of the cycle on; the whole path without it.
unfoldable pub from_entry : Text → List Text → Option (List Text)
from_entry entry [] = none
from_entry entry (p ∷ ps) =
    let rest = from_entry entry ps in if eqb p entry then some (p ∷ ps) else rest

unfoldable pub mark_cycle_from : List Text → Text → List Text → List Text
unfolding from_entry
mark_cycle_from path entry cycle = elim (from_entry entry path) [
  | none ↦ path ++ cycle
  | some ps ↦ ps ++ cycle
]

pub record Climb : Type 0 where
  pub marks : Assoc Mark
  pub path : List Text
  pub cycle : List Text

-- The inner loop, which climbs from one worker; `none` means that the fuel ran out.
unfoldable pub climb : ℕ → Assoc Text → Climb → Text → Option Climb
unfolding mark_cycle_from
climb zero parent c cur = none
climb (suc fuel) parent c cur = elim (lookup cur c.marks) [
  | some done ↦ some c
  | some visiting ↦ some (record c { cycle = mark_cycle_from c.path cur c.cycle })
  | none ↦
      let c' : Climb = record c {
        marks = insert cur visiting c.marks;
        path = c.path ++ cur ∷ [];
      } in
      elim (lookup cur parent) [ none ↦ some c' | some next ↦ climb fuel parent c' next ]
]

abbrev pub all_done : List Text → Assoc Mark → Assoc Mark
all_done [] marks = marks
all_done (p ∷ ps) marks = all_done ps (insert p done marks)

abbrev pub finish : Option Climb → Option (Assoc Mark × List Text)
finish none = none
finish (some c) = some (all_done c.path c.marks, c.cycle)

-- The outer loop over the workers that report to another.
unfoldable pub climb_all : Assoc Text → Assoc Mark → List Text → List Text → Option (List Text)
unfolding climb
climb_all parent marks cycle [] = some cycle
climb_all parent marks cycle (id ∷ ids) = elim (lookup id marks) [
  | some m ↦ climb_all parent marks cycle ids
  | none ↦
      elim (finish (
        climb (suc (suc (length parent))) parent
          (record { marks = marks; path = []; cycle = cycle }) id)) [
            | none ↦ none
            | some (marks', cycle') ↦ climb_all parent marks' cycle' ids
          ]
]

abbrev pub once : List Text → List Text
once [] = []
once (x ∷ xs) = if contains_text xs x then once xs else x ∷ once xs

-- onCycle is a set: its ids, sorted.
unfoldable pub detect_cycles : List ChartWorker → Assoc ℕ → Option (List Text)
unfolding parents_from climb_all
detect_cycles ws by_id =
    let parent = parents_from by_id [] ws in
    elim (climb_all parent [] [] (map (λ e. e.0) parent)) [
      | none ↦ none
      | some cycle ↦ some (order_by text_ltb (once cycle))
    ]

abbrev pub as_worker : Status → ChartWorker → Worker
as_worker blank w = record {
  id = w.id;
  role = w.role;
  reports_to = w.reports_to;
  public_key = [];
  connected_at = 0;
  last_seen_at = 0;
  status = blank;
  metadata = [];
}

abbrev pub verdict : List ChartWorker → List ChartProblem → Result (List ChartProblem) (List Worker)
verdict ws [] = ok (map (as_worker (Status.other [])) ws)
verdict ws (p ∷ ps) = err (p ∷ ps)

-- `none` means that a loop ran out of fuel.
unfoldable pub parse_chart_file :
    List ChartWorker → Option (Result (List ChartProblem) (List Worker))
unfolding index_unique_ids check_reports_to_resolve detect_cycles
parse_chart_file ws =
    let index = index_unique_ids ws in
    elim (detect_cycles ws index.0) [
      | none ↦ none
      | some ids ↦
          some (verdict ws (index.1 ++ (check_reports_to_resolve 0 index.0 ws ++ map on_cycle ids)))
    ]
