-- ===== src/Orgchart/Graph/Levels.antt =====
-- The levels of the search in Descendants: whom the rounds add, on a forest.
use mathlib.Core.List.{map}
use robotdreams.Base.{
  ◌≡◌, refl, sym, subst, ap, ◌≢◌, Text, eqb_iff, lookup, some, inl, inr, List, [], ◌∷◌, In,
  In-append_left, In-append_right, In-append_cases, In-keep_iff, In-of_lookup, lookup_of_In,
}
use robotdreams.Orgchart.Graph.{Graph, Worker, workers, children_of, next_level, reports_directly}
use robotdreams.Orgchart.Graph.Forest.{IsForest}

In-workers_of_entry : (k : Text) (w : Worker) (g : Graph) → In (k, w) g → In w (workers g)
unfolding workers
In-workers_of_entry k w [] h = elim h [ ]
In-workers_of_entry k w ((j, v) ∷ g) (inl e) = inl (ap (λ x. x.1) e)
In-workers_of_entry k w ((j, v) ∷ g) (inr h) = inr (In-workers_of_entry k w g h)

entry_of_In-workers : (w : Worker) (g : Graph) → In w (workers g) → (k : Text) × In (k, w) g
unfolding workers
entry_of_In-workers w [] h = elim h [ ]
entry_of_In-workers w ((j, v) ∷ g) (inl e) = (j, inl (ap (λ x. (j, x)) e))
entry_of_In-workers w ((j, v) ∷ g) (inr h) = let (k, i) = entry_of_In-workers w g h in (k, inr i)

abbrev pub ids : List Worker → List Text
ids = map (λ w. w.id)

pub In-ids : (w : Worker) (ws : List Worker) → In w ws → In w.id (ids ws)
In-ids w [] h = elim h [ ]
In-ids w (v ∷ ws) (inl e) = inl (ap (λ x. x.id) e)
In-ids w (v ∷ ws) (inr h) = inr (In-ids w ws h)

pub In-ids_elim :
    (k : Text) (ws : List Worker) → In k (ids ws) → (w : Worker) × In w ws × (w.id ≡ k)
In-ids_elim k [] h = elim h [ ]
In-ids_elim k (v ∷ ws) (inl e) = (v, inl refl, sym e)
In-ids_elim k (v ∷ ws) (inr h) = let (w, i, e) = In-ids_elim k ws h in (w, inr i, e)

module _ {g : Graph} (f : IsForest g) where
  pub In-workers→lookup : (w : Worker) → In w (workers g) → lookup w.id g ≡ some w
  In-workers→lookup w h =
      let (k, i) = entry_of_In-workers w g h in
      let e : lookup k g ≡ some w = lookup_of_In k w g f.distinct i in
      subst (λ x. lookup x g ≡ some w) (sym (f.keyed k w e)) e

  pub lookup→In-workers : (k : Text) (w : Worker) → lookup k g ≡ some w → In w (workers g)
  lookup→In-workers k w e = In-workers_of_entry k w g (In-of_lookup k w g e)

  -- The children that the search adds for one id are the workers that report to it.
  In-children_of :
      (w : Worker) (k : Text)
      → In w (children_of g k)
      → (lookup w.id g ≡ some w) × (w.reports_to ≡ k)
  unfolding children_of
  In-children_of w [] h = elim h [ ]
  In-children_of w (c ∷ k) h =
      let (i, r) = (In-keep_iff (reports_directly (c ∷ k)) w (workers g)).0 h in
      (In-workers→lookup w i, (eqb_iff w.reports_to (c ∷ k)).0 r)

  In-children_of_intro :
      (w : Worker) (k : Text)
      → k ≢ []
      → lookup w.id g ≡ some w
      → w.reports_to ≡ k
      → In w (children_of g k)
  unfolding children_of
  In-children_of_intro w [] nk e r = absurd (nk refl)
  In-children_of_intro w (c ∷ k) nk e r =
      (In-keep_iff (reports_directly (c ∷ k)) w (workers g)).1
        (lookup→In-workers w.id w e, (eqb_iff w.reports_to (c ∷ k)).1 r)

  pub In-next_level :
      (w : Worker) (fr : List Text)
      → In w (next_level g fr)
      → (lookup w.id g ≡ some w) × In w.reports_to fr
  unfolding next_level
  In-next_level w [] h = elim h [ ]
  In-next_level w (k ∷ fr) h = elim (In-append_cases w (children_of g k) (next_level g fr) h) [
    | inl a ↦ let (e, r) = In-children_of w k a in (e, inl r)
    | inr b ↦ let (e, r) = In-next_level w fr b in (e, inr r)
  ]

  pub In-next_level_intro :
      (w : Worker) (fr : List Text)
      → lookup w.id g ≡ some w
      → w.reports_to ≢ []
      → In w.reports_to fr
      → In w (next_level g fr)
  unfolding next_level
  In-next_level_intro w [] e nb h = elim h [ ]
  In-next_level_intro w (k ∷ fr) e nb (inl s) =
      In-append_left w (children_of g k) (next_level g fr)
        (In-children_of_intro w k (subst (λ x. x ≢ []) s nb) e s)
  In-next_level_intro w (k ∷ fr) e nb (inr h) =
      In-append_right w (children_of g k) (next_level g fr) (In-next_level_intro w fr e nb h)
