-- ===== src/Orgchart/Graph.antt =====
-- internal/orgchart/graph.go: the workers by id, each with the id of the worker it reports to.
-- A worker is a value here, so the copies that `clone` makes are the value itself. Each operation
-- runs under the graph's lock, so a call is one step.
pub mod Chains
pub mod Forest
pub mod Ancestry
pub mod Edits
pub mod Moves
pub mod Managers
pub mod Levels
pub mod Descent
pub mod Dangling
pub mod History
use mathlib.Core.Option
use robotdreams.Base.{
  ℕ, zero, suc, Text, Assoc, is_empty, eqb, lookup, insert, erase, keep, map, length, Bool, true,
  false, not, ◌&&◌, Option, none, some, List, [], ◌∷◌, ◌++◌, Result, ok, err, if◌then◌else◌, any,
}

-- `other` is any status text but the three that the package names.
pub data Status : Type 0 where
  connected degraded disconnected : Status
  other : Text → Status

-- Times are nanoseconds since the zero time.Time, which is 0.
pub record Worker : Type 0 where
  pub id : Text
  pub role : Text
  pub reports_to : Text
  pub public_key : Text
  pub connected_at : ℕ
  pub last_seen_at : ℕ
  pub status : Status
  pub metadata : Assoc Text

abbrev pub Graph : Type 0
Graph = Assoc Worker

pub data Error : Type 0 where
  not_found duplicate_worker parent_not_found cycle invalid_worker : Error

abbrev pub new_graph : Graph
new_graph = []

abbrev pub is_some {ℓ} : {A : Type ℓ} → Option A → Bool
is_some none = false
is_some (some a) = true

abbrev pub known : Graph → Text → Bool
known g k = is_some (lookup k g)

unfoldable pub add_worker : Graph → Worker → Result Error Graph
add_worker g w =
    if is_empty w.id
    then err invalid_worker
    else if known g w.id
    then err duplicate_worker
    else if not (is_empty w.reports_to) && not (known g w.reports_to)
    then err parent_not_found
    else ok (insert w.id w g)

-- The loop that climbs from `cur`; `none` means that it did not end within the fuel.
unfoldable pub has_ancestor : ℕ → Graph → Worker → Text → Option Bool
has_ancestor zero g cur ancestor = none
has_ancestor (suc fuel) g cur ancestor =
    if is_empty cur.reports_to
    then some false
    else if eqb cur.reports_to ancestor
    then some true
    else elim (lookup cur.reports_to g) [
      | none ↦ some false
      | some above ↦ has_ancestor fuel g above ancestor
    ]

abbrev pub with_parent : Worker → Text → Worker
with_parent w p = record w { reports_to = p }

-- `none`: the climb of `hasAncestorLocked` does not end. The worker is found under its own id.
unfoldable pub reassign : Graph → Text → Text → Option (Result Error Graph)
reassign g worker_id new_parent = elim (lookup worker_id g) [
  | none ↦ some (err not_found)
  | some w ↦
      if is_empty new_parent
      then some (ok (insert worker_id (with_parent w []) g))
      else if eqb new_parent worker_id
      then some (err cycle)
      else elim (lookup new_parent g) [
        | none ↦ some (err parent_not_found)
        | some parent ↦
            Option.map
              (λ found.
                if found then err cycle else ok (insert worker_id (with_parent w new_parent) g))
              (has_ancestor (suc (length g)) g parent worker_id)
      ]
]

unfoldable pub set_role : Graph → Text → Text → Result Error Graph
set_role g worker_id role = elim (lookup worker_id g) [
  | none ↦ err not_found
  | some w ↦ ok (insert worker_id (record w { role = role }) g)
]

unfoldable pub remove : Graph → Text → Result Error Graph
remove g worker_id = elim (lookup worker_id g) [
  | none ↦ err not_found
  | some _ ↦ ok (erase worker_id g)
]

unfoldable pub get : Graph → Text → Result Error Worker
get g worker_id = elim (lookup worker_id g) [ none ↦ err not_found | some w ↦ ok w ]

unfoldable pub escalation_target : Graph → Text → Result Error Text
escalation_target g worker_id = elim (lookup worker_id g) [
  | none ↦ err not_found
  | some w ↦ ok w.reports_to
]

unfoldable pub workers : Graph → List Worker
workers = map (λ e. e.1)

abbrev pub reports_directly : Text → Worker → Bool
reports_directly k w = eqb w.reports_to k

unfoldable pub children : Graph → Text → Result Error (List Worker)
children g worker_id =
    if not (is_empty worker_id) && not (known g worker_id)
    then err not_found
    else ok (keep (reports_directly worker_id) (workers g))

abbrev pub seen_in : Text → List Text → Bool
seen_in k = any (eqb k)

-- The loop of `Ancestors` with its `seen` set; `none` means that the fuel ran out.
unfoldable pub ancestors_from : ℕ → Graph → List Text → Worker → Option (List Worker)
ancestors_from zero g seen cur = none
ancestors_from (suc fuel) g seen cur =
    if is_empty cur.reports_to then some [] else elim (lookup cur.reports_to g) [
      | none ↦ some []
      | some parent ↦
          let rest = ancestors_from fuel g (parent.id ∷ seen) parent in
          if seen_in parent.id seen then some [] else Option.map (λ out. parent ∷ out) rest
    ]

unfoldable pub ancestors : Graph → Text → Option (Result Error (List Worker))
ancestors g worker_id = elim (lookup worker_id g) [
  | none ↦ some (err not_found)
  | some w ↦ Option.map ok (ancestors_from (suc (length g)) g (worker_id ∷ []) w)
]

-- `childrenOf[id]`; a worker at the root is in no entry of that map.
unfoldable pub children_of : Graph → Text → List Worker
unfolding workers
children_of g id = if is_empty id then [] else keep (reports_directly id) (workers g)

unfoldable pub next_level : Graph → List Text → List Worker
next_level g [] = []
next_level g (id ∷ frontier) = children_of g id ++ next_level g frontier

-- The rounds of the breadth-first search; `none` means that the fuel ran out.
unfoldable pub descend : ℕ → Graph → List Text → Option (List Worker)
descend zero g frontier = none
descend (suc fuel) g [] = some []
descend (suc fuel) g (id ∷ frontier) =
    let level = next_level g (id ∷ frontier) in
    Option.map (λ out. level ++ out) (descend fuel g (map (λ w. w.id) level))

unfoldable pub descendants : Graph → Text → Option (Result Error (List Worker))
descendants g worker_id = elim (lookup worker_id g) [
  | none ↦ some (err not_found)
  | some _ ↦ Option.map ok (descend (suc (length g)) g (worker_id ∷ []))
]
