-- ===== src/Report/Plan/Counts.antt =====
-- The numbers on the board of pkg/reporting/aggregate.go.
use robotdreams.Report.Sets.{contains_text, IsOnce}
use robotdreams.Base.{
  ltb, ℕ, suc, ◌+◌, ◌<◌, ◌≡◌, refl, sym, ◌⊎◌, ◌∙◌, ap, inl, inr, arith, Bool-cases, ltb→lt, Text,
  codes, eqb, eqb_iff, map, true, false, ◌&&◌, ◌||◌, not, List, [], ◌∷◌, All, All-weaken, length,
  order_by, length-order_by,
}
use robotdreams.Report.Floats.{Float}
use robotdreams.Report.Model.{Definition, Instance, Item, PlanFacet}
use robotdreams.Report.Policy.{parse_policy}
use robotdreams.Report.Plan.{
  PlanColumn, plan_of, plan_counts, count_items, count_shown, on_column, has_column, new_columns,
  origin_stamped_items, bound_items, item_less, items_policy, add_item, show_item,
}
use robotdreams.Report.Plan.Limits.{items_in}

module _ {F : Type 0} where
  abbrev pub states_of : List (PlanColumn F) → List Text
  states_of cols = map (λ c. c.state) cols

  has_column_lem :
      (st : Text) (cols : List (PlanColumn F))
      → has_column st cols ≡ contains_text (states_of cols) st
  has_column_lem st [] = refl
  has_column_lem st (c ∷ cs) = ap (λ b. eqb c.state st || b) (has_column_lem st cs)

  module _ (P Q : PlanColumn F → Type 0) (change : PlanColumn F → PlanColumn F) (st : Text)
      (other : (c : PlanColumn F) → eqb c.state st ≡ false → P c → Q c) where
    All-unchanged :
        (cols : List (PlanColumn F)) → has_column st cols ≡ false → All P cols → All Q cols
    All-unchanged [] h a = tt
    All-unchanged (c ∷ cs) h (p, a) = (other c (ground arith) p, All-unchanged cs (ground arith) a)

    -- Of columns with different states, one is changed.
    All-on_column :
        ((c : PlanColumn F) → eqb c.state st ≡ true → P c → Q (change c))
        → (cols : List (PlanColumn F)) → IsOnce (states_of cols)
        → All P cols
        → All Q (on_column change st cols)
    unfolding on_column
    All-on_column own [] o a = tt
    All-on_column own (c ∷ cs) (n, o) (p, a) = elim (Bool-cases (eqb c.state st)) [
      | inl b ↦
          let e : c.state ≡ st = (eqb_iff c.state st).0 b in
          let h : has_column st cs ≡ false =
            has_column_lem st cs ∙ (ap (contains_text (states_of cs)) (sym e) ∙ n) in
          rw (b, h) (own c b p, All-unchanged cs h a)
      | inr b ↦ rw b (other c b p, All-on_column own cs o a)
    ]

  states_of-on_column :
      (change : PlanColumn F → PlanColumn F) (st : Text) (cols : List (PlanColumn F))
      → ((c : PlanColumn F) → (change c).state ≡ c.state)
      → states_of (on_column change st cols) ≡ states_of cols
  unfolding on_column
  states_of-on_column change st [] h = refl
  states_of-on_column change st (c ∷ cs) h =
      elim (Bool-cases (eqb c.state st && not (has_column st cs))) [
        | inl b ↦ rw b (ap (λ s. s ∷ states_of cs) (h c))
        | inr b ↦ rw b (ap (λ ss. c.state ∷ ss) (states_of-on_column change st cs h))
      ]

  -- One more item of a state.
  one_more :
      (it : Item F) (its : List (Item F)) (s : Text) (n : ℕ)
      → (eqb s it.state ≡ true → suc n + items_in s its ≡ n + items_in s (it ∷ its))
        × (eqb s it.state ≡ false → n + items_in s its ≡ n + items_in s (it ∷ its))
  unfolding items_in
  one_more it its s n = (
    λ b.
        let e : eqb it.state s ≡ true = (eqb_iff it.state s).1 (sym ((eqb_iff s it.state).0 b)) in
        rw e (omega arith),
    λ b. elim (Bool-cases (eqb it.state s)) [
      | inl e ↦
          let e' : eqb s it.state ≡ true =
            (eqb_iff s it.state).1 (sym ((eqb_iff it.state s).0 e)) in
          cc
      | inr e ↦ rw e refl
    ],
  )

  -- Counting adds to what a column shows the items of its state.
  count_shown_lem :
      (its : List (Item F)) (cols : List (PlanColumn F)) (a b : Text → ℕ)
      → IsOnce (states_of cols)
      → All (λ c. (c.items ≡ a c.state) × (c.shown + items_in c.state its ≡ b c.state)) cols
      → All (λ c. (c.items ≡ a c.state) × (c.shown ≡ b c.state)) (count_shown cols its)
        × (states_of (count_shown cols its) ≡ states_of cols)
  unfolding count_shown items_in
  count_shown_lem [] cols a b o h = (All-weaken _ _ (λ c p. (p.0, omega (arith, p.1))) cols h, refl)
  count_shown_lem (it ∷ its) cols a b o h =
      let same = states_of-on_column show_item it.state cols (λ c. refl) in
      let next =
        All-on_column
          (λ c. (c.items ≡ a c.state) × (c.shown + items_in c.state (it ∷ its) ≡ b c.state))
          (λ c. (c.items ≡ a c.state) × (c.shown + items_in c.state its ≡ b c.state)) show_item
          it.state (λ c e p. (p.0, (one_more it its c.state c.shown).1 e ∙ p.1))
          (λ c e p. (p.0, omega (arith, (one_more it its c.state c.shown).0 e, p.1))) cols o h in
      let ih = count_shown_lem its (on_column show_item it.state cols) a b (rw same o) next in
      (ih.0, ih.1 ∙ same)

module _ {F : Type 0} ⦃f : Float F⦄ where
  count_items_lem :
      (its : List (Item F)) (cols : List (PlanColumn F)) (a : Text → ℕ)
      → IsOnce (states_of cols)
      → All (λ c. (c.items + items_in c.state its ≡ a c.state) × (c.shown ≡ 0)) cols
      → All (λ c. (c.items ≡ a c.state) × (c.shown ≡ 0)) (count_items cols its)
        × (states_of (count_items cols its) ≡ states_of cols)
  unfolding count_items items_in
  count_items_lem [] cols a o h = (All-weaken _ _ (λ c p. (omega (arith, p.0), p.1)) cols h, refl)
  count_items_lem (it ∷ its) cols a o h =
      let same = states_of-on_column (add_item it.size) it.state cols (λ c. refl) in
      let next =
        All-on_column (λ c. (c.items + items_in c.state (it ∷ its) ≡ a c.state) × (c.shown ≡ 0))
          (λ c. (c.items + items_in c.state its ≡ a c.state) × (c.shown ≡ 0)) (add_item it.size)
          it.state (λ c e p. ((one_more it its c.state c.items).1 e ∙ p.0, p.1))
          (λ c e p. (omega (arith, (one_more it its c.state c.items).0 e, p.0), p.1)) cols o h in
      let ih =
        count_items_lem its (on_column (add_item it.size) it.state cols) a (rw same o) next in
      (ih.0, ih.1 ∙ same)

  new_columns_lem :
      (facet : PlanFacet) (n : ℕ) (its : List (Item F)) (states : List Text)
      → All
          (λ c. (c.items + items_in c.state its ≡ items_in c.state its) × (c.shown ≡ 0))
          (new_columns {F = F} facet n states)
        × (states_of (new_columns {F = F} facet n states) ≡ states)
  unfolding new_columns
  new_columns_lem facet n its [] = (tt, refl)
  new_columns_lem facet n its (st ∷ sts) =
      let ih = new_columns_lem facet n its sts in
      (((omega arith, refl), ih.0), ap (λ ss. st ∷ ss) ih.1)

  -- Before the items are chosen, a column of the board counts the items of its state.
  counted_columns :
      (def : Definition F) (facet : PlanFacet) (scope : Text) (contrib : List (Instance F))
      → IsOnce facet.states
      → All
          (λ c. (c.items ≡ items_in c.state (origin_stamped_items def contrib)) × (c.shown ≡ 0))
          (plan_counts def facet scope contrib).states
        × (states_of (plan_counts def facet scope contrib).states ≡ facet.states)
  unfolding plan_counts
  counted_columns def facet scope contrib o =
      let all = origin_stamped_items def contrib in
      let fresh = new_columns_lem facet (length contrib) all facet.states in
      let r =
        count_items_lem all (new_columns {F = F} facet (length contrib) facet.states)
          (λ s. items_in s all) (rw fresh.1 o) fresh.0 in
      (r.0, r.1 ∙ fresh.1)

  -- The board has the declared states as its columns, where none is declared twice. Each counts all
  -- items of its state, and as shown those that the board lists; the total counts all items, and a
  -- board that says it is cut lists fewer.
  pub plan_of_columns :
      (def : Definition F) (facet : PlanFacet) (scope : Text) (contrib : List (Instance F))
      → IsOnce facet.states
      → let all = origin_stamped_items def contrib in
        let view = plan_of def facet scope contrib in
        (states_of view.states ≡ facet.states)
        × (All
              (λ c. (c.items ≡ items_in c.state all) × (c.shown ≡ items_in c.state view.items))
              view.states
            × ((view.total ≡ length all)
                × ((view.truncated ≡ false) ⊎ (length view.items < view.total))))
  unfolding plan_of items_in plan_counts
  plan_of_columns def facet scope contrib o =
      let all = origin_stamped_items def contrib in
      let policy = items_policy (parse_policy def.scope.aggregation.items) in
      let sorted = order_by (item_less facet) all in
      let kept = bound_items policy sorted in
      let first = counted_columns def facet scope contrib o in
      let cols = (plan_counts def facet scope contrib).states in
      let shown =
        count_shown_lem kept cols (λ s. items_in s all) (λ s. items_in s kept) (rw (first.1) o)
          (All-weaken _ _ (λ c p. (p.0, omega (arith, p.1))) cols first.0) in
      let l = length-order_by (item_less facet) all in
      elim (Bool-cases (eqb policy.name (codes "count"))) [
        | inl b ↦ rw b (first.1, (first.0, (refl, inl refl)))
        | inr b ↦ rw b (
          shown.1 ∙ first.1,
          (
            shown.0,
            (
              refl,
              elim (Bool-cases (ltb (length kept) (length sorted))) [
                | inl t ↦ inr (omega (arith, l, ltb→lt (length kept) (length sorted) t))
                | inr t ↦ inl t
              ],
            ),
          ),
        )
      ]
