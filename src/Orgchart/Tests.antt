-- ===== src/Orgchart/Tests.antt =====
-- The theorems of this part at a chart of a lead, an engineer and a tester.
use robotdreams.Base.{
  ℕ, suc, ◌≡◌, ◌≢◌, ◌↔◌, ◌⊎◌, refl, Text, codes, eqb, lookup, insert, erase, arith, [], ◌∷◌, List,
  some, none, Result, ok, err, In, length, true, Bool,
}
use robotdreams.Orgchart.Graph.{
  Graph, Worker, Error, connected, add_worker, reassign, remove, with_parent, has_ancestor,
  ancestors, ancestors_from, descendants, children, workers, not_found,
}
use robotdreams.Orgchart.ChartFile.{ChartWorker, ChartProblem, parse_chart_file}
use robotdreams.Orgchart.ChartFile.Accepted.{IsChecked, parse_chart_file_returns}
use robotdreams.Orgchart.Graph.Chains.{Climbs}
use robotdreams.Orgchart.Graph.Forest.{IsForest, new_graph-IsForest}
use robotdreams.Orgchart.Graph.Edits.{add_worker-IsForest}
use robotdreams.Orgchart.Graph.History.{
  added, moved, removed, Reachable, fresh, next, Reachable-IsForest,
}
use robotdreams.Orgchart.Graph.Moves.{Move, reassign-Move}
use robotdreams.Orgchart.Graph.Ancestry.{has_ancestor_decides}
use robotdreams.Orgchart.Graph.Managers.{ancestors_returns, ancestors-Chain, Chain}
use robotdreams.Orgchart.Graph.Descent.{descendants_exact}
use robotdreams.Orgchart.Graph.Dangling.{readd_hangs, closed_up}
use robotdreams.Orgchart.Rollup.{RollupSummary, rollup_with_activity, activity_of}
use robotdreams.Orgchart.Rollup.Bounds.{rollup_exact, SeenBy}

abbrev worker_at : Text → Text → ℕ → Worker
worker_at i p seen = record {
  id = i;
  role = codes "ic";
  reports_to = p;
  public_key = [];
  connected_at = 1;
  last_seen_at = seen;
  status = connected;
  metadata = [];
}

abbrev lead : Worker
lead = worker_at (codes "lead") [] 5

abbrev engineer : Worker
engineer = worker_at (codes "eng") (codes "lead") 9

abbrev tester : Worker
tester = worker_at (codes "qa") (codes "eng") 7

abbrev chart1 : Graph
chart1 = insert (codes "lead") lead []

abbrev chart2 : Graph
chart2 = insert (codes "eng") engineer chart1

abbrev chart : Graph
chart = insert (codes "qa") tester chart2

chart1-IsForest : IsForest chart1
unfolding add_worker lookup eqb
chart1-IsForest = add_worker-IsForest new_graph-IsForest lead chart1 refl

chart2-IsForest : IsForest chart2
unfolding add_worker lookup insert eqb
chart2-IsForest = add_worker-IsForest chart1-IsForest engineer chart2 refl

chart-IsForest : IsForest chart
unfolding add_worker lookup insert eqb
chart-IsForest = add_worker-IsForest chart2-IsForest tester chart refl

nobody_under_tester : (j : Text) (w : Worker) → lookup j chart ≡ some w → w.reports_to ≢ codes "qa"
unfolding lookup insert eqb
nobody_under_tester j w h e = ground arith

-- The lead under the tester: refused.
reassign_cycle : reassign chart (codes "lead") (codes "qa") ≡ some (err Error.cycle)
unfolding reassign has_ancestor lookup insert eqb
reassign_cycle = refl

reassign-Move_example :
    (r : Result Error Graph) × (reassign chart (codes "lead") (codes "qa") ≡ some r)
    × Move chart (codes "lead") (codes "qa") r
reassign-Move_example = reassign-Move chart-IsForest (codes "lead") (codes "qa")

has_ancestor_decides_example :
    (b : Bool) × (has_ancestor (suc (length chart)) chart tester (codes "lead") ≡ some b)
    × ((b ≡ true) ↔ ∥ ((n : ℕ) × Climbs chart n tester.reports_to (codes "lead")) ∥₁)
has_ancestor_decides_example =
    has_ancestor_decides chart tester (codes "lead") chart-IsForest.no_blank chart-IsForest.acyclic
      (λ e. cc)

ancestors_returns_example :
    ((lookup (codes "qa") chart ≡ none) × (ancestors chart (codes "qa") ≡ some (err not_found)))
    ⊎ ((w : Worker) × (out : List Worker) × (lookup (codes "qa") chart ≡ some w)
        × (ancestors chart (codes "qa") ≡ some (ok out)))
ancestors_returns_example = ancestors_returns chart (codes "qa") chart-IsForest.keyed

ancestors_of_tester : ancestors chart (codes "qa") ≡ some (ok (engineer ∷ lead ∷ []))
unfolding ancestors ancestors_from lookup insert eqb
ancestors_of_tester = refl

ancestors-Chain_example :
    (out : List Worker) × (ancestors chart (codes "qa") ≡ some (ok out)) × Chain chart tester out
unfolding lookup insert eqb
ancestors-Chain_example = ancestors-Chain chart-IsForest (codes "qa") tester refl

descendants_exact_example :
    (out : List Worker) × (descendants chart (codes "lead") ≡ some (ok out))
    × ((w : Worker)
        → In w out
        → (lookup w.id chart ≡ some w) × ((n : ℕ) × Climbs chart (suc n) w.id (codes "lead")))
    × ((w : Worker) (n : ℕ)
        → lookup w.id chart ≡ some w
        → Climbs chart (suc n) w.id (codes "lead")
        → In w out)
unfolding lookup insert eqb
descendants_exact_example = descendants_exact chart-IsForest (codes "lead") lead refl

abbrev bystander : Worker
bystander = worker_at (codes "x") [] 3

abbrev chart2_with_x : Graph
chart2_with_x = insert (codes "x") bystander chart2

readd_hangs_example :
    reassign (closed_up chart2_with_x lead (codes "eng")) (codes "x") (codes "lead") ≡ none
unfolding lookup insert eqb
readd_hangs_example =
    (readd_hangs chart2_with_x lead engineer bystander refl refl refl refl (λ e. cc) (λ e. cc)
      (λ e. cc) (λ e. cc) (λ e. cc)).3

rollup_exact_example :
    (s : RollupSummary) × (rollup_with_activity chart (codes "lead") [] ≡ ok s)
    × (s.direct_reports ≡ 1)
    × (s.active_count ≡ 1)
    × SeenBy [] s.last_activity (engineer ∷ [])
    × ((s.last_activity ≡ 0)
        ⊎ ((c : Worker) × In c (engineer ∷ [])
            × (s.last_activity ≡ (activity_of [] c).last_seen_at)))
unfolding children workers lookup insert erase eqb activity_of
rollup_exact_example = rollup_exact [] chart (codes "lead") (engineer ∷ []) refl

-- The lead, the engineer and the tester are added, the tester moves to the lead and leaves.
abbrev under_lead : Graph
under_lead = insert (codes "qa") (with_parent tester (codes "lead")) chart

under_lead-Reachable : Reachable under_lead
unfolding add_worker reassign has_ancestor lookup insert eqb
under_lead-Reachable =
    next
      (next (next (next fresh (added {g' = chart1} lead refl)) (added {g' = chart2} engineer refl))
        (added {g' = chart} tester refl))
      (moved (codes "qa") (codes "lead") refl)

nobody_under_moved :
    (j : Text) (w : Worker) → lookup j under_lead ≡ some w → w.reports_to ≢ codes "qa"
unfolding lookup insert eqb
nobody_under_moved j w h e = ground arith

after_leaving-Reachable : Reachable (erase (codes "qa") under_lead)
unfolding remove lookup insert eqb
after_leaving-Reachable = next under_lead-Reachable (removed (codes "qa") nobody_under_moved refl)

Reachable-IsForest_example : IsForest (erase (codes "qa") under_lead)
Reachable-IsForest_example = Reachable-IsForest after_leaving-Reachable

abbrev file : List ChartWorker
file =
    record { id = codes "lead"; role = []; reports_to = [] }
    ∷ record { id = codes "eng"; role = []; reports_to = codes "lead" }
    ∷ []

parse_chart_file_returns_example :
    (r : Result (List ChartProblem) (List Worker)) × ((parse_chart_file file ≡ some r)
      × IsChecked file r)
parse_chart_file_returns_example = parse_chart_file_returns file
