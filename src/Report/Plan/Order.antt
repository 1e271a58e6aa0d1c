-- ===== src/Report/Plan/Order.antt =====
-- The order of the board, itemLess of pkg/reporting/aggregate.go.
use robotdreams.Base.{
  and_then, and_then-IsWeakOrder, on-IsWeakOrder, ltb-IsWeakOrder, text_ltb-IsWeakOrder,
  text_ltb_total, text_ltb_asym, ℕ, ◌≡◌, refl, sym, ◌∙◌, inl, inr, arith, Bool-cases, ltb, ◌==◌,
  Text, eqb, eqb_iff, text_ltb, Bool, true, false, ◌&&◌, ◌||◌, not, Option, none, some, IsWeakOrder,
  if◌then◌else◌,
}
use robotdreams.Report.Model.{Item, PlanFacet, is_blocked, is_terminal, state_rank}
use robotdreams.Report.Plan.{item_less, commitment_rank, rank_ltb, due_ltb, differ}

due_ltb-IsWeakOrder : IsWeakOrder due_ltb
due_ltb-IsWeakOrder = record { asym = asym; cotrans = cotrans }
  where
    asym : (x y : Option ℕ) → due_ltb x y ≡ true → due_ltb y x ≡ false
    asym none y h = cc
    asym (some a) none h = refl
    asym (some a) (some b) h = ground arith

    cotrans : (x y z : Option ℕ) → due_ltb x y ≡ false → due_ltb y z ≡ false → due_ltb x z ≡ false
    cotrans none y z h k = refl
    cotrans (some a) none z h k = cc
    cotrans (some a) (some b) none h k = cc
    cotrans (some a) (some b) (some c) h k = ground arith

rank_ltb-IsWeakOrder : IsWeakOrder rank_ltb
rank_ltb-IsWeakOrder = record { asym = asym; cotrans = cotrans }
  where
    asym : (x y : Option ℕ) → rank_ltb x y ≡ true → rank_ltb y x ≡ false
    asym none none h = refl
    asym none (some b) h = refl
    asym (some a) none h = cc
    asym (some a) (some b) h = ground arith

    cotrans :
        (x y z : Option ℕ) → rank_ltb x y ≡ false → rank_ltb y z ≡ false → rank_ltb x z ≡ false
    cotrans none none z h k = k
    cotrans none (some b) z h k = cc
    cotrans (some a) none none h k = refl
    cotrans (some a) none (some c) h k = cc
    cotrans (some a) (some b) none h k = refl
    cotrans (some a) (some b) (some c) h k = ground arith

-- `bt` where the tests differ: false goes before true.
abbrev unset_first : Bool → Bool → Bool
unset_first x y = not x && y

unset_first-IsWeakOrder : IsWeakOrder unset_first
unset_first-IsWeakOrder = record {
  asym = λ x y h. ground arith;
  cotrans = λ x y z h k. ground arith;
}

text_step :
    (x y : Text) (s : Bool)
    → (if not (eqb x y) then text_ltb x y else s) ≡ (text_ltb x y || (not (text_ltb y x) && s))
text_step x y s = elim (Bool-cases (eqb x y)) [
  | inl b ↦
      let e : x ≡ y = (eqb_iff x y).0 b in
      let i : text_ltb x y ≡ false = irrefl x y e in
      let j : text_ltb y x ≡ false = irrefl y x (sym e) in rw (b, i, j) refl
  | inr b ↦
      let t = text_ltb_total x y in
      let n : x ≡ y → eqb x y ≡ true = (eqb_iff x y).1 in let a = text_ltb_asym x y in ground arith
]
  where
    irrefl : (x y : Text) → x ≡ y → text_ltb x y ≡ false
    irrefl x y e = elim (Bool-cases (text_ltb x y)) [
      | inl b ↦ let c = text_ltb_asym x y b in cc
      | inr b ↦ b
    ]

-- true goes before false
abbrev set_first : Bool → Bool → Bool
set_first x y = x && not y

set_first-IsWeakOrder : IsWeakOrder set_first
set_first-IsWeakOrder = record { asym = λ x y h. ground arith; cotrans = λ x y z h k. ground arith }

module _ {F : Type 0} where
  -- The keys of the board, the weightiest first.
  unfoldable board_order : PlanFacet → Item F → Item F → Bool
  board_order facet =
      and_then (λ a b. unset_first (is_terminal facet a.state) (is_terminal facet b.state))
        (and_then (λ a b. set_first (is_blocked a) (is_blocked b))
          (and_then
            (λ a b. ltb (commitment_rank facet a.commitment) (commitment_rank facet b.commitment))
            (and_then (λ a b. due_ltb a.due b.due)
              (and_then (λ a b. rank_ltb (state_rank facet a.state) (state_rank facet b.state))
                (and_then (λ a b. text_ltb a.scope b.scope) (λ a b. text_ltb a.id b.id))))))

  board_order-IsWeakOrder : (facet : PlanFacet) → IsWeakOrder (board_order facet)
  unfolding board_order
  board_order-IsWeakOrder facet =
      and_then-IsWeakOrder _ _
        (on-IsWeakOrder (λ a. is_terminal facet a.state) unset_first unset_first-IsWeakOrder)
        (and_then-IsWeakOrder _ _ (on-IsWeakOrder is_blocked set_first set_first-IsWeakOrder) (
          and_then-IsWeakOrder _ _
            (on-IsWeakOrder (λ a. commitment_rank facet a.commitment) ltb ltb-IsWeakOrder)
            (and_then-IsWeakOrder _ _ (on-IsWeakOrder (λ a. a.due) due_ltb due_ltb-IsWeakOrder) (
              and_then-IsWeakOrder _ _
                (on-IsWeakOrder (λ a. state_rank facet a.state) rank_ltb rank_ltb-IsWeakOrder)
                (and_then-IsWeakOrder _ _
                  (on-IsWeakOrder (λ a. a.scope) text_ltb text_ltb-IsWeakOrder)
                  (on-IsWeakOrder (λ a. a.id) text_ltb text_ltb-IsWeakOrder))))))

  -- The test of the board is the lexicographic order of its keys.
  item_less_lem : (facet : PlanFacet) (a b : Item F) → item_less facet a b ≡ board_order facet a b
  unfolding item_less board_order
  item_less_lem facet a b =
      let e = text_step a.scope b.scope (text_ltb a.id b.id) in
      rw e (
        steps (is_terminal facet a.state) (is_terminal facet b.state) (is_blocked a) (is_blocked b)
          (commitment_rank facet a.commitment) (commitment_rank facet b.commitment)
          (due_ltb a.due b.due) (due_ltb b.due a.due)
          (rank_ltb (state_rank facet a.state) (state_rank facet b.state))
          (rank_ltb (state_rank facet b.state) (state_rank facet a.state))
          (text_ltb a.scope b.scope || (not (text_ltb b.scope a.scope) && text_ltb a.id b.id)))
    where
      steps :
          (at bt ab bb : Bool) (ac bc : ℕ) (d e r s t : Bool)
          → (if differ at bt
              then bt
              else if differ ab bb
              then ab
              else if not (ac == bc)
              then ltb ac bc
              else if d
              then true
              else if e
              then false
              else if r
              then true
              else if s
              then false
              else t)
            ≡ ((not at && bt)
                || (not (not bt && at)
                    && ((ab && not bb)
                        || (not (bb && not ab)
                            && (ltb ac bc
                                || (not (ltb bc ac) && (d || (not e && (r || (not s && t))))))))))
      steps at bt ab bb ac bc d e r s t = ground arith

  -- The test that sorts the board is a strict weak order.
  pub item_less-IsWeakOrder : (facet : PlanFacet) → IsWeakOrder (item_less {F = F} facet)
  item_less-IsWeakOrder facet = record {
    asym = λ x y h.
        let e = item_less_lem facet x y in
        let e' = item_less_lem facet y x in e' ∙ w.asym x y (sym e ∙ h);
    cotrans = λ x y z h k.
        let a = item_less_lem facet x y in
        let b = item_less_lem facet y z in
        let c = item_less_lem facet x z in c ∙ w.cotrans x y z (sym a ∙ h) (sym b ∙ k);
  }
    where
      w : IsWeakOrder (board_order facet)
      w = board_order-IsWeakOrder facet
