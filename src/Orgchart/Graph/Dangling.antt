-- ===== src/Orgchart/Graph/Dangling.antt =====
-- Remove does not look at the workers that report to the one removed, and AddWorker does not look
-- at the workers that already name the one added: together they can close a cycle. (DeleteWorker of
-- the server moves the reports first.)
use robotdreams.Base.{
  ℕ, zero, suc, ◌≡◌, refl, ◌≢◌, Text, eqb_iff, lookup, insert, erase, lookup-erase, lookup-insert,
  length, none, some, arith, [], ok,
}
use robotdreams.Orgchart.Graph.{
  Graph, Worker, add_worker, remove, reassign, has_ancestor, with_parent,
}

-- Of two workers that report to one another, the climb that looks for a third never ends.
mutual_climb :
    (fuel : ℕ) (g : Graph) (p c : Worker) (x : Text)
    → lookup p.id g ≡ some p
    → lookup c.id g ≡ some c
    → p.reports_to ≡ c.id
    → c.reports_to ≡ p.id
    → p.id ≢ []
    → c.id ≢ []
    → x ≢ p.id
    → x ≢ c.id
    → has_ancestor fuel g p x ≡ none
unfolding has_ancestor
mutual_climb zero g p c x hp hc e f np nc xp xc = refl
mutual_climb (suc fuel) g p c x hp hc e f np nc xp xc =
    ground (arith, eqb_iff p.reports_to x, mutual_climb fuel g c p x hc hp f e nc np xc xp)

-- `p` removed, and added again under `c`.
abbrev pub closed_up : Graph → Worker → Text → Graph
closed_up g p c = insert p.id (with_parent p c) (erase p.id g)

module _ (g : Graph) (p c x : Worker) (hp : lookup p.id g ≡ some p) (hc : lookup c.id g ≡ some c)
    (hx : lookup x.id g ≡ some x) (under : c.reports_to ≡ p.id) (np : p.id ≢ []) (nc : c.id ≢ [])
    (pc : c.id ≢ p.id) (xp : x.id ≢ p.id) (xc : x.id ≢ c.id) where
  -- Where `c` reports to `p`: `p` can be removed and added again under `c`, after which the
  -- climb from `p` that looks for a third worker ends with no fuel, so that a Reassign of that worker
  -- under `p` does not return.
  pub readd_hangs :
      (remove g p.id ≡ ok (erase p.id g))
      × (add_worker (erase p.id g) (with_parent p c.id) ≡ ok (closed_up g p c.id))
      × ((fuel : ℕ) → has_ancestor fuel (closed_up g p c.id) (with_parent p c.id) x.id ≡ none)
      × (reassign (closed_up g p c.id) x.id p.id ≡ none)
  unfolding remove add_worker reassign
  readd_hangs = (
    ground arith,
    ground (
      arith,
      lookup-erase p.id p.id g,
      lookup-erase p.id c.id g,
      eqb_iff p.id p.id,
      eqb_iff p.id c.id,
    ),
    climbs,
    ground (
      arith,
      lookup-insert p.id x.id (with_parent p c.id) (erase p.id g),
      lookup-insert p.id p.id (with_parent p c.id) (erase p.id g),
      lookup-erase p.id x.id g,
      eqb_iff p.id x.id,
      eqb_iff p.id p.id,
      climbs (suc (length (closed_up g p c.id))),
    ),
  )
    where
      at_p : lookup p.id (closed_up g p c.id) ≡ some (with_parent p c.id)
      at_p =
          ground
            (arith, lookup-insert p.id p.id (with_parent p c.id) (erase p.id g), eqb_iff p.id p.id)

      at_c : lookup c.id (closed_up g p c.id) ≡ some c
      at_c = ground (
        arith,
        lookup-insert p.id c.id (with_parent p c.id) (erase p.id g),
        lookup-erase p.id c.id g,
        eqb_iff p.id c.id,
      )

      climbs : (fuel : ℕ) → has_ancestor fuel (closed_up g p c.id) (with_parent p c.id) x.id ≡ none
      climbs fuel =
          mutual_climb fuel (closed_up g p c.id) (with_parent p c.id) c x.id at_p at_c refl under np
            nc xp xc
