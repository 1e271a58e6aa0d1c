-- ===== src/Report/Plan/Limits.antt =====
-- What the board shows, where there is more than it may: MergeItems and boundItems of
-- pkg/reporting/aggregate.go.
use robotdreams.Base.{
  ℕ, zero, suc, ◌+◌, ◌≤◌, ◌<◌, ◌≡◌, refl, ◌⊎◌, inl, inr, arith, Bool-cases, ltb, leb, ◌==◌, Text,
  Assoc, eqb, eqb_iff, lookup, insert, lookup-insert, leb→le, ◌-◌, min, ap, true, false, ◌&&◌, some,
  List, [], ◌∷◌, IsOrdered, order_by, order_by-IsOrdered, In-order_by, In-of_order_by, In-of_take,
  take, take-IsOrdered, take-cut, length, length-take, length-order_by, sym, ◌∙◌, subst, In, All,
  if◌then◌else◌, codes,
}
use robotdreams.Report.Model.{Item, PlanFacet}
use robotdreams.Report.Policy.{Policy}
use robotdreams.Report.Events.{concat, up_to}
use robotdreams.Report.Events.Bounds.{up_to_set, up_to_all}
use robotdreams.Report.Plan.{item_less, merge_items, sample_from, bound_items, kept_of, or_zero}
use robotdreams.Report.Plan.Order.{item_less-IsWeakOrder}

kept_insert :
    (key state : Text) (c : ℕ) (per : Assoc ℕ)
    → kept_of state (insert key (c + 1) per) ≡ (if eqb key state then c + 1 else kept_of state per)
kept_insert key state c per =
    let l = lookup-insert key state (c + 1) per in
    elim (Bool-cases (eqb key state)) [
      | inl e ↦
          let l' : lookup state (insert key (c + 1) per) ≡ some (c + 1) = rw e at l in
          rw e (ap or_zero l')
      | inr e ↦
          let l' : lookup state (insert key (c + 1) per) ≡ lookup state per = rw e at l in
          rw e (ap or_zero l')
    ]

module _ {F : Type 0} where
  -- Whether or not it is cut, the merged list is the first of a sorted one.
  merge_items_cases :
      (facet : PlanFacet) (limit : ℕ) (batches : List (List (Item F)))
      → let sorted = order_by (item_less facet) (concat batches) in
        ((merge_items facet limit batches ≡ take limit sorted) × (0 < limit))
        ⊎ ((merge_items facet limit batches ≡ sorted) × ((limit ≡ 0) ⊎ (length sorted ≤ limit)))
  unfolding merge_items
  merge_items_cases facet limit batches =
      let sorted = order_by (item_less facet) (concat batches) in
      elim (Bool-cases (ltb 0 limit && ltb limit (length sorted))) [
        | inl b ↦ inl (rw b refl, ground arith)
        | inr b ↦ inr (rw b refl, least limit (length sorted) b)
      ]
    where
      least : (n l : ℕ) → (ltb 0 n && ltb n l) ≡ false → (n ≡ 0) ⊎ (l ≤ n)
      least zero l b = inl refl
      least (suc n) l b = inr (ground arith)

  -- The merged board is in order and invents nothing. It shows as many items as there are, up to a
  -- limit that is set, and an item that it leaves out goes before none that it shows.
  pub merge_items_best :
      (facet : PlanFacet) (limit : ℕ) (batches : List (List (Item F)))
      → IsOrdered (item_less facet) (merge_items facet limit batches)
        × ((length (merge_items facet limit batches) ≡ up_to limit (length (concat batches)))
            × (((x : Item F) → In x (merge_items facet limit batches) → In x (concat batches))
                × ((x : Item F)
                    → In x (concat batches)
                    → In x (merge_items facet limit batches)
                      ⊎ All (λ y. item_less facet x y ≡ false) (merge_items facet limit batches))))
  merge_items_best facet limit batches =
      let before = item_less facet in
      let o = order_by-IsOrdered before (item_less-IsWeakOrder facet) (concat batches) in
      let sorted = order_by before (concat batches) in
      let n = length-order_by before (concat batches) in
      elim (merge_items_cases facet limit batches) [
        | inl (e, p) ↦ rw e (
          take-IsOrdered before limit sorted o,
          (
            length-take limit sorted
                ∙ (ap (min limit) n ∙ sym (up_to_set limit (length (concat batches)) p)),
            (
              λ x h. In-of_order_by before x (concat batches) (In-of_take x limit sorted h),
              λ x h. take-cut before limit sorted x o (In-order_by before x (concat batches) h),
            ),
          ),
        )
        | inr r ↦ rw (r.0) (
          o,
          (
            n
                ∙ sym (
                    up_to_all limit (length (concat batches))
                      (subst (λ l. (limit ≡ 0) ⊎ (l ≤ limit)) n r.1)),
            (
              λ x h. In-of_order_by before x (concat batches) h,
              λ x h. inl (In-order_by before x (concat batches) h),
            ),
          ),
        )
      ]

  -- What `sample` has kept of a state.
  unfoldable pub items_in : Text → List (Item F) → ℕ
  items_in state [] = 0
  items_in state (it ∷ its) =
      let rest = items_in state its in if eqb it.state state then suc rest else rest

  -- Of each state, as many are shown as there are, up to the limit.
  sample_from_lem :
      (n : ℕ) (per : Assoc ℕ) (ordered : List (Item F)) (state : Text)
      → kept_of state per ≤ n
      → items_in state (sample_from n per ordered)
        ≡ min (items_in state ordered) (n - kept_of state per)
  unfolding sample_from items_in
  sample_from_lem n per [] state h = omega arith
  sample_from_lem n per (it ∷ its) state h =
      let c = kept_of it.state per in
      let same = sample_from_lem n per its state h in
      let more = sample_from_lem n (insert it.state (c + 1) per) its state in
      let k = kept_insert it.state state c per in
      elim (Bool-cases (leb n c)) [
        | inl b ↦ elim (Bool-cases (eqb it.state state)) [
          | inl e ↦
              let q : c ≡ kept_of state per =
                ap (λ s. kept_of s per) ((eqb_iff it.state state).0 e) in
              rw (b, e) (omega (arith, leb→le n c b, same))
          | inr e ↦ rw (b, e) same
        ]
        | inr b ↦ elim (Bool-cases (eqb it.state state)) [
          | inl e ↦
              let q : c ≡ kept_of state per =
                ap (λ s. kept_of s per) ((eqb_iff it.state state).0 e) in
              let k' : kept_of state (insert it.state (c + 1) per) ≡ c + 1 = rw e at k in
              let l : c + 1 ≤ n = above n c b in
              let m = more (omega arith) in rw (b, e) (omega arith)
          | inr e ↦
              let k' : kept_of state (insert it.state (c + 1) per) ≡ kept_of state per =
                rw e at k in
              let m = more (omega arith) in rw (b, e) (omega arith)
        ]
      ]
    where
      above : (n c : ℕ) → leb n c ≡ false → c + 1 ≤ n
      above n c h = ground arith

  -- A policy `sample` shows of each state as many items as there are, up to its number.
  pub items_in-bound_items :
      (p : Policy) (ordered : List (Item F)) (state : Text)
      → eqb p.name (codes "sample") ≡ true
      → 0 < p.n
      → items_in state (bound_items p ordered) ≡ min (items_in state ordered) p.n
  unfolding bound_items lookup
  items_in-bound_items p ordered state e pos =
      let z : (p.n == 0) ≡ false = ground arith in
      rw (e, z) (omega (arith, sample_from_lem p.n [] ordered state (omega arith)))
