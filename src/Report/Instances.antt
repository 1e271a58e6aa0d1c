-- ===== src/Report/Instances.antt =====
-- ValidateInstance of pkg/reporting/instance.go, without the search for cycles among the items.
pub mod Valid
use robotdreams.Report.Sets.{contains_text}
use robotdreams.Base.{
  ℕ, Text, codes, is_empty, eqb, map, keep, Bool, true, false, not, ◌&&◌, ◌||◌, Option, none, some,
  List, [], ◌∷◌, ◌++◌, ◌==◌,
}
use robotdreams.Report.Floats.{Float}
use robotdreams.Report.Model.{Definition, Instance, Item, Event, PlanFacet, has_any, state_rank}
use robotdreams.Report.Checks.{Problem, bad, bad_at, unless, each, each_in, name_check, sorted_keys}
use robotdreams.Report.Words.{statuses, severities, work_levels}

-- `requireDeclared`: a value of a vocabulary, or none.
abbrev pub is_declared_value : List Text → Text → Bool
is_declared_value vocab val = is_empty val || contains_text vocab val

abbrev event_problems : List Text → ℕ → List Text → Event → List Problem
event_problems known n seen e =
    unless (contains_text known e.type) (bad_at (codes "events") n e.type)
    ++ unless (contains_text severities e.severity) (bad_at (codes "events") n e.severity)

abbrev has_rank : Option ℕ → Bool
has_rank none = false
has_rank (some n) = true

-- A level that exists and that the plan publishes, where it names any.
abbrev is_level : PlanFacet → Text → Bool
is_level facet level =
    is_empty level
    || (contains_text work_levels level
        && (not (has_any facet.levels) || contains_text facet.levels level))

abbrev check_blockers : Text → ℕ → List Text → List Text → List Problem
check_blockers id n ids [] = []
check_blockers id n ids (dep ∷ deps) =
    unless (not (eqb dep id && not (is_empty dep)) && contains_text ids dep)
      (bad_at (codes "items.blocked_by") n dep)
    ++ check_blockers id n ids deps

module _ {F : Type 0} ⦃f : Float F⦄ where
  unfoldable pub item_problems : PlanFacet → List Text → ℕ → List Text → Item F → List Problem
  unfolding state_rank
  item_problems facet ids n seen it =
      name_check (codes "items.id") n seen it.id
      ++ (unless (not (is_empty it.title)) (bad_at (codes "items.title") n it.title)
          ++ (unless (not (is_empty it.state) && has_rank (state_rank facet it.state))
                (bad_at (codes "items.state") n it.state)
              ++ (unless (is_declared_value facet.lanes it.lane)
                    (bad_at (codes "items.lane") n it.lane)
                  ++ (unless (is_declared_value facet.horizons it.horizon)
                        (bad_at (codes "items.horizon") n it.horizon)
                      ++ (unless (is_declared_value facet.commitments it.commitment)
                            (bad_at (codes "items.commitment") n it.commitment)
                          ++ (unless (is_level facet it.level)
                                (bad_at (codes "items.level") n it.level)
                              ++ (unless (not (f.lt it.size f.nought))
                                    (bad_at (codes "items.size") n [])
                                  ++ check_blockers it.id n ids it.blocked_by)))))))

  -- The ids of the items that have one.
  abbrev pub item_ids : List (Item F) → List Text
  item_ids items = keep (λ id. not (is_empty id)) (map (λ it. it.id) items)

  -- `validateItems` up to the search for a cycle.
  unfoldable pub items_problems : Definition F → List (Item F) → List Problem
  unfolding each item_problems
  items_problems def [] = []
  items_problems def (it ∷ its) = elim def.facets.plan [
    | none ↦ bad (codes "items") def.name ∷ []
    | some facet ↦ each (item_problems facet (item_ids (it ∷ its))) (λ i. i.id) 0 [] (it ∷ its)
  ]

  unfoldable pub field_problems : Definition F → Instance F → List Problem
  unfolding each sorted_keys
  field_problems def i =
      unless (eqb i.definition def.name && not (is_empty i.definition))
        (bad (codes "definition") i.definition)
      ++ (unless (not (is_empty i.scope)) (bad (codes "scope") i.scope)
          ++ (unless (not (i.produced_at == 0)) (bad (codes "produced_at") [])
              ++ (unless (is_empty i.status || contains_text statuses i.status)
                    (bad (codes "status") i.status)
                  ++ (each_in (codes "kpis") (contains_text (map (λ k. k.name) def.contract.kpis))
                        (sorted_keys i.kpis)
                      ++ (each_in (codes "targets")
                            (contains_text (map (λ k. k.name) def.contract.kpis))
                            (sorted_keys i.targets)
                          ++ (each_in (codes "series")
                                (contains_text (map (λ s. s.name) def.contract.series))
                                (sorted_keys i.series)
                              ++ (each_in (codes "tables")
                                    (contains_text (map (λ t. t.name) def.contract.tables))
                                    (sorted_keys i.tables)
                                  ++ each (event_problems (map (λ e. e.type) def.contract.events))
                                      (λ e. e.type) 0 [] i.events)))))))

  unfoldable pub instance_problems : Definition F → Instance F → List Problem
  unfolding field_problems items_problems
  instance_problems def i = field_problems def i ++ items_problems def i.items
