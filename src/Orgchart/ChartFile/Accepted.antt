-- ===== src/Orgchart/ChartFile/Accepted.antt =====
-- The search for cycles ends, and what a chart file that is accepted looks like.
use robotdreams.Report.Sets.{contains_text, IsOnce}
use robotdreams.Base.{
  ℕ, zero, suc, ◌≤◌, ◌<◌, ◌≡◌, ◌≢◌, refl, sym, ◌∙◌, ap, ◌⊎◌, inl, inr, arith, Bool-cases,
  Option-cases, Text, Assoc, is_empty, eqb, eqb_iff, lookup, insert, lookup-insert, keep, map,
  order_by, text_ltb, length, true, false, not, ◌||◌, Option, none, some, List, [], ◌∷◌, ◌++◌, All,
  All-weaken, Result, ok, err, if◌then◌else◌,
}
use robotdreams.Orgchart.Graph.{Worker, Status}
use robotdreams.Orgchart.ChartFile.{
  ChartWorker, ChartProblem, Mark, visiting, done, Climb, climb, climb_all, finish, detect_cycles,
  parents_from, parse_chart_file, verdict, is_some, id_problem, index_from, index_unique_ids,
  check_reports_to_resolve, reports_problem, as_worker, on_cycle, mark_cycle_from, all_done, once,
  reports_to_itself, dangling,
}

-- How many of the workers with a parent have no mark yet.
unmarked : Assoc Text → Assoc Mark → ℕ
unmarked parent marks = length (keep (λ e. not (is_some (lookup e.0 marks))) parent)

unmarked-insert-le :
    (parent : Assoc Text) (k : Text) (m : Mark) (marks : Assoc Mark)
    → unmarked parent (insert k m marks) ≤ unmarked parent marks
unfolding unmarked
unmarked-insert-le [] k m marks = omega arith
unmarked-insert-le ((j, p) ∷ parent) k m marks =
    ground (arith, unmarked-insert-le parent k m marks, lookup-insert k j m marks)

unmarked-insert-lt :
    (parent : Assoc Text) (k p : Text) (m : Mark) (marks : Assoc Mark)
    → lookup k parent ≡ some p
    → lookup k marks ≡ none
    → unmarked parent (insert k m marks) < unmarked parent marks
unfolding unmarked lookup
unmarked-insert-lt [] k p m marks h n = cc
unmarked-insert-lt ((j, q) ∷ parent) k p m marks h n = ground (
  arith,
  eqb_iff j k,
  eqb_iff k j,
  lookup-insert k j m marks,
  unmarked-insert-le parent k m marks,
  unmarked-insert-lt parent k p m marks,
  unmarked,
)

unmarked-le-length :
    (parent : Assoc Text) (marks : Assoc Mark) → unmarked parent marks ≤ length parent
unfolding unmarked
unmarked-le-length [] marks = omega arith
unmarked-le-length ((j, q) ∷ parent) marks = ground (arith, unmarked-le-length parent marks)

-- Each turn but the last marks a worker that has a parent.
climb_ends :
    (fuel : ℕ) (parent : Assoc Text) (c : Climb) (cur : Text)
    → suc (unmarked parent c.marks) < fuel
    → (c' : Climb) × (climb fuel parent c cur ≡ some c')
unfolding climb
climb_ends zero parent c cur h = absurd (omega arith)
climb_ends (suc fuel) parent c cur h = elim (Option-cases (lookup cur c.marks)) [
  | inr (visiting, e) ↦
      (record c { cycle = mark_cycle_from c.path cur c.cycle }, rw (climb, e) refl)
  | inr (done, e) ↦ (c, rw (climb, e) refl)
  | inl e ↦
      let c' : Climb = record c {
        marks = insert cur visiting c.marks;
        path = c.path ++ cur ∷ [];
      } in
      elim (Option-cases (lookup cur parent)) [
        | inl f ↦ (c', rw (climb, e, f) refl)
        | inr (next, f) ↦
            let l = unmarked-insert-lt parent cur next visiting c.marks f e in
            let r = climb_ends fuel parent c' next (omega arith) in (r.0, rw (climb, e, f) r.1)
      ]
]

climb_all_ends :
    (parent : Assoc Text) (marks : Assoc Mark) (cycle ids : List Text)
    → (out : List Text) × (climb_all parent marks cycle ids ≡ some out)
unfolding climb_all
climb_all_ends parent marks cycle [] = (cycle, refl)
climb_all_ends parent marks cycle (id ∷ ids) = elim (Option-cases (lookup id marks)) [
  | inr (m, e) ↦ let r = climb_all_ends parent marks cycle ids in (r.0, rw (climb_all, e) r.1)
  | inl e ↦
      let start : Climb = record { marks = marks; path = []; cycle = cycle } in
      let l = unmarked-le-length parent marks in
      let c = climb_ends (suc (suc (length parent))) parent start id (omega arith) in
      let f : finish (climb (suc (suc (length parent))) parent start id) ≡ finish (some c.0) =
        ap finish c.1 in
      let r = climb_all_ends parent (all_done c.0.path c.0.marks) c.0.cycle ids in
      (r.0, rw (climb_all, e, f) r.1)
]

detect_cycles_ends :
    (ws : List ChartWorker) (by_id : Assoc ℕ)
    → (ids : List Text) × (detect_cycles ws by_id ≡ some ids)
unfolding detect_cycles
detect_cycles_ends ws by_id =
    let parent = parents_from by_id [] ws in
    let r = climb_all_ends parent [] [] (map (λ e. e.0) parent) in
    (order_by text_ltb (once r.0), rw (detect_cycles, r.1) refl)

both-nil : (xs ys : List ChartProblem) → xs ++ ys ≡ [] → (xs ≡ []) × (ys ≡ [])
both-nil [] ys h = (refl, h)
both-nil (x ∷ xs) ys h = cc

id_problem-nil :
    (n : ℕ) (id : Text) (found : Option ℕ)
    → id_problem n id found ≡ []
    → (is_empty id ≡ false) × (is_some found ≡ false)
id_problem-nil n [] found h = cc
id_problem-nil n (c ∷ cs) none h = (refl, refl)
id_problem-nil n (c ∷ cs) (some prev) h = cc

contains_none :
    (k : Text) (ws : List ChartWorker)
    → All (λ v. eqb k v.id ≡ false) ws
    → contains_text (map (λ w. w.id) ws) k ≡ false
contains_none k [] a = refl
contains_none k (w ∷ ws) (p, a) =
    let ih = contains_none k ws a in
    elim (Bool-cases (eqb w.id k)) [
      | inr b ↦ rw b ih
      | inl b ↦ let q : eqb k w.id ≡ true = (eqb_iff k w.id).1 (sym ((eqb_iff w.id k).0 b)) in cc
    ]

-- What a map holds after an insertion.
is_some-insert :
    (i k : Text) (n : ℕ) (m : Assoc ℕ)
    → is_some (lookup k (insert i n m)) ≡ (eqb i k || is_some (lookup k m))
is_some-insert i k n m =
    let l = lookup-insert i k n m in
    elim (Bool-cases (eqb i k)) [
      | inl b ↦ let l' : lookup k (insert i n m) ≡ some n = rw b at l in rw b (ap is_some l')
      | inr b ↦ let l' : lookup k (insert i n m) ≡ lookup k m = rw b at l in rw b (ap is_some l')
    ]

-- Ids without a problem: none is empty, known before or repeated, and what is found is known or one
-- of them.
index_from_lem :
    (n : ℕ) (by_id : Assoc ℕ) (ws : List ChartWorker)
    → (index_from n by_id ws).1 ≡ []
    → (IsOnce (map (λ w. w.id) ws)
        × All (λ w. (is_empty w.id ≡ false) × (is_some (lookup w.id by_id) ≡ false)) ws)
      × ((k : Text)
          → is_some (lookup k (index_from n by_id ws).0) ≡ true
          → (is_some (lookup k by_id) ≡ true) ⊎ (contains_text (map (λ w. w.id) ws) k ≡ true))
unfolding index_from
index_from_lem n by_id [] h = ((tt, tt), λ k q. inl q)
index_from_lem n by_id (w ∷ ws) h =
    let found = lookup w.id by_id in
    let next = if is_empty w.id || is_some found then by_id else insert w.id n by_id in
    let s = both-nil (id_problem n w.id found) (index_from (suc n) next ws).1 h in
    let p = id_problem-nil n w.id found s.0 in
    let e : next ≡ insert w.id n by_id = rw (p.0, p.1) refl in
    let ih = index_from_lem (suc n) next ws s.1 in
    let known : (k : Text) → is_some (lookup k next) ≡ (eqb w.id k || is_some (lookup k by_id)) =
      λ k. ap (λ m. is_some (lookup k m)) e ∙ is_some-insert w.id k n by_id in
    let apart =
      All-weaken (λ v. (is_empty v.id ≡ false) × (is_some (lookup v.id next) ≡ false))
        (λ v.
          ((is_empty v.id ≡ false) × (is_some (lookup v.id by_id) ≡ false))
          × (eqb w.id v.id ≡ false))
        (λ v q. let r = sym (known v.id) ∙ q.1 in ((q.0, ground arith), ground arith)) ws ih.0.1 in
    (
      (
        (
          contains_none w.id ws (All-weaken _ (λ v. eqb w.id v.id ≡ false) (λ v q. q.1) ws apart),
          ih.0.0,
        ),
        (
          p,
          All-weaken _ (λ v. (is_empty v.id ≡ false) × (is_some (lookup v.id by_id) ≡ false))
              (λ v q. q.0) ws apart,
        ),
      ),
      λ k q. elim (ih.1 k q) [
        | inr c ↦ inr (ground arith)
        | inl c ↦
            let r = sym (known k) ∙ c in
            elim (Bool-cases (eqb w.id k)) [ inl b ↦ inr (rw b refl) | inr b ↦ inl (ground arith) ]
      ],
    )

-- A worker of an accepted file: it has an id, and it reports to nobody or to another of the file.
abbrev pub IsPlaced : List ChartWorker → ChartWorker → Type 0
IsPlaced ws w =
    (is_empty w.id ≡ false)
    × ((is_empty w.reports_to ≡ true)
        ⊎ ((eqb w.reports_to w.id ≡ false)
            × (contains_text (map (λ v. v.id) ws) w.reports_to ≡ true)))

reports_problem-nil :
    (n : ℕ) (by_id : Assoc ℕ) (w : ChartWorker)
    → is_empty w.id ≡ false
    → reports_problem n by_id w ≡ []
    → (is_empty w.reports_to ≡ true)
      ⊎ ((eqb w.reports_to w.id ≡ false) × (is_some (lookup w.reports_to by_id) ≡ true))
reports_problem-nil n by_id w i h = elim (Bool-cases (is_empty w.reports_to)) [
  | inl e ↦ inl e
  | inr e ↦ elim (Bool-cases (eqb w.reports_to w.id)) [
    | inl b ↦ let h' : reports_to_itself n w.id ∷ [] ≡ [] = rw (i, e, b) at h in cc
    | inr b ↦ elim (Option-cases (lookup w.reports_to by_id)) [
      | inl f ↦ let h' : dangling n w.id w.reports_to ∷ [] ≡ [] = rw (i, e, b, f) at h in cc
      | inr (j, f) ↦ inr (b, ap is_some f)
    ]
  ]
]

check_reports_to_resolve-nil :
    (n : ℕ) (by_id : Assoc ℕ) (all ws : List ChartWorker)
    → ((k : Text) → is_some (lookup k by_id) ≡ true → contains_text (map (λ v. v.id) all) k ≡ true)
    → All (λ w. is_empty w.id ≡ false) ws
    → check_reports_to_resolve n by_id ws ≡ []
    → All (IsPlaced all) ws
unfolding check_reports_to_resolve
check_reports_to_resolve-nil n by_id all [] k i h = tt
check_reports_to_resolve-nil n by_id all (w ∷ ws) k (i, is) h =
    let s = both-nil (reports_problem n by_id w) (check_reports_to_resolve (suc n) by_id ws) h in
    (
      (
        i,
        elim (reports_problem-nil n by_id w i s.0) [
          | inl e ↦ inl e
          | inr r ↦ inr (r.0, k w.reports_to r.1)
        ],
      ),
      check_reports_to_resolve-nil (suc n) by_id all ws k is s.1,
    )

-- What the file says of a worker, and what the answer says.
abbrev pub listed : ChartWorker → Text × Text × Text
listed w = (w.id, w.role, w.reports_to)

abbrev pub charted : Worker → Text × Text × Text
charted v = (v.id, v.role, v.reports_to)

-- What is said of an answer: an accepted file is well formed, and one that is refused has a problem.
abbrev pub IsChecked : List ChartWorker → Result (List ChartProblem) (List Worker) → Type 0
IsChecked ws (ok out) =
    (map charted out ≡ map listed ws) × (IsOnce (map (λ w. w.id) ws) × All (IsPlaced ws) ws)
IsChecked ws (err ps) = ps ≢ []

same_entries :
    (ws : List ChartWorker) → map charted (map (as_worker (Status.other [])) ws) ≡ map listed ws
same_entries [] = refl
same_entries (w ∷ ws) = ap (λ l. listed w ∷ l) (same_entries ws)

verdict-IsChecked :
    (ws : List ChartWorker) (ps : List ChartProblem)
    → (ps ≡ [] → IsOnce (map (λ w. w.id) ws) × All (IsPlaced ws) ws)
    → IsChecked ws (verdict ws ps)
verdict-IsChecked ws [] h = (same_entries ws, h refl)
verdict-IsChecked ws (p ∷ ps) h = λ e. cc

-- The validation of a chart file ends, with cycles or without. If it accepts the file, the workers
-- are those of the file in its order, each with its id, its role and whom it reports to; no id is
-- empty or repeated, and each reports to nobody or to another worker of the file. If not, it names a
-- problem.
pub parse_chart_file_returns :
    (ws : List ChartWorker)
    → (r : Result (List ChartProblem) (List Worker)) × ((parse_chart_file ws ≡ some r)
        × IsChecked ws r)
unfolding parse_chart_file index_unique_ids lookup
parse_chart_file_returns ws =
    let index = index_from 0 [] ws in
    let d = detect_cycles_ends ws index.0 in
    let checks = check_reports_to_resolve 0 index.0 ws in
    let ps = index.1 ++ (checks ++ map on_cycle d.0) in
    (
      verdict ws ps,
      (
        rw (parse_chart_file, d.1) refl,
        verdict-IsChecked ws ps (λ v.
            let a = both-nil index.1 (checks ++ map on_cycle d.0) v in
            let b = both-nil checks (map on_cycle d.0) a.1 in
            let i = index_from_lem 0 [] ws a.0 in
            (
              i.0.0,
              check_reports_to_resolve-nil 0 index.0 ws ws
                  (λ k q. elim (i.1 k q) [ inl n ↦ absurd (cc) | inr c ↦ c ])
                  (All-weaken _ (λ w. is_empty w.id ≡ false) (λ w q. q.0) ws i.0.1) b.0,
            )),
      ),
    )
