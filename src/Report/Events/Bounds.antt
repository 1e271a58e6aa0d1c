-- ===== src/Report/Events/Bounds.antt =====
-- What MergeEvents of pkg/reporting/aggregate.go keeps.
use robotdreams.Base.{
  ℕ, zero, suc, ◌-◌, ◌≤◌, ◌≡◌, refl, ◌⊎◌, inl, inr, arith, Bool-cases, leb, ◌==◌, true, false, ◌||◌,
  not, List, ◌++◌, IsWeakOrder, IsOrdered, order_by, order_by-IsOrdered, In-order_by,
  In-of_order_by, length-order_by, In-of_drop, In-keep_iff, All-keep_passed, All-drop,
  keep-IsOrdered, drop-IsOrdered, last_n, keep, length, length-append, length-last_n,
  length-keep-not, leb→le, min, ◌<◌, sym, ◌∙◌, ap, subst, In, All, In-append_left, In-append_cases,
}
use robotdreams.Report.Model.{Event}
use robotdreams.Report.Contributors.{event_before}
use robotdreams.Report.Events.{up_to, merge_events, bound_events, concat, is_critical}

event_before-IsWeakOrder : IsWeakOrder event_before
event_before-IsWeakOrder = record {
  asym = λ x y h. ground arith;
  cotrans = λ x y z h k. ground arith;
}

pub up_to_set : (limit n : ℕ) → 0 < limit → up_to limit n ≡ min limit n
up_to_set zero n h = absurd (omega arith)
up_to_set (suc limit) n h = refl

pub up_to_all : (limit n : ℕ) → (limit ≡ 0) ⊎ (n ≤ limit) → up_to limit n ≡ n
up_to_all zero n h = refl
up_to_all (suc limit) n (inl e) = absurd (omega (arith, e))
up_to_all (suc limit) n (inr h) = omega (arith, h)

-- What is said of a stream that was cut down to a limit.
abbrev pub IsBounded : ℕ → List Event → List Event → Type 0
IsBounded limit out result =
    IsOrdered event_before result
    × ((length result ≡ up_to limit (length out))
        × (((e : Event) → In e result → In e out)
            × ((e : Event)
                → In e out
                → is_critical e ≡ true
                → In e result ⊎ All (λ k. is_critical k ≡ true) result)))

bound_events-IsBounded :
    (limit : ℕ) (out : List Event)
    → IsOrdered event_before out
    → 0 < limit
    → limit < length out
    → IsBounded limit out (bound_events limit out)
unfolding bound_events
bound_events-IsBounded limit out o set long =
    let crit = keep is_critical out in
    let rest = keep (λ e. not (is_critical e)) out in
    let room = limit - length crit in
    let both = crit ++ last_n room rest in
    let all : up_to limit (length out) ≡ limit =
      up_to_set limit (length out) set ∙ omega (arith, long) in
    elim (Bool-cases (leb limit (length crit))) [
      | inl b ↦ rw b (
        drop-IsOrdered event_before (length crit - limit) crit
            (keep-IsOrdered event_before is_critical out o),
        (
          omega (arith, length-last_n limit crit, leb→le limit (length crit) b, all),
          (
            λ e h.
                ((In-keep_iff is_critical e out).0 (In-of_drop e (length crit - limit) crit h)).0,
            λ e h c. inr (
                All-drop (λ k. is_critical k ≡ true) (length crit - limit) crit
                  (All-keep_passed is_critical out)),
          ),
        ),
      )
      | inr b ↦ rw b (
        order_by-IsOrdered event_before event_before-IsWeakOrder both,
        (
          omega (
            arith,
            length-order_by event_before both,
            length-append crit (last_n room rest),
            length-last_n room rest,
            length-keep-not is_critical out,
            fits limit (length crit) b,
            long,
            all,
          ),
          (
            λ e h.
                elim (In-append_cases e crit (last_n room rest)
                  (In-of_order_by event_before e both h)) [
                    | inl k ↦ ((In-keep_iff is_critical e out).0 k).0
                    | inr k ↦
                        ((In-keep_iff (λ e. not (is_critical e)) e out).0
                          (In-of_drop e (length rest - room) rest k)).0
                  ],
            λ e h c. inl (
                In-order_by event_before e both (
                  In-append_left e crit (last_n room rest)
                    ((In-keep_iff is_critical e out).1 (h, c)))),
          ),
        ),
      )
    ]
  where
    fits : (a b : ℕ) → leb a b ≡ false → b ≤ a
    fits a b h = ground arith

-- The merged stream is in the order of time and invents nothing. It keeps as many events as there
-- are, up to a limit that is set, and if it leaves out a critical event then all that it keeps are
-- critical.
pub merge_events-IsBounded :
    (limit : ℕ) (batches : List (List Event))
    → IsBounded limit (concat batches) (merge_events limit batches)
unfolding merge_events
merge_events-IsBounded limit batches =
    let all = concat batches in
    let out = order_by event_before all in
    let o = order_by-IsOrdered event_before event_before-IsWeakOrder all in
    let n = length-order_by event_before all in
    elim (Bool-cases (limit == 0 || leb (length out) limit)) [
      | inl b ↦ rw b (
        o,
        (
          n
              ∙ sym (
                  up_to_all limit (length all)
                    (subst (λ l. (limit ≡ 0) ⊎ (l ≤ limit)) n (short limit (length out) b))),
          (
            λ e h. In-of_order_by event_before e all h,
            λ e h c. inl (In-order_by event_before e all h),
          ),
        ),
      )
      | inr b ↦
          let c = cut limit (length out) b in
          let i = bound_events-IsBounded limit out o c.0 c.1 in
          rw b (
            i.0,
            (
              i.1.0 ∙ ap (up_to limit) n,
              (
                λ e h. In-of_order_by event_before e all (i.1.1.0 e h),
                λ e h c. i.1.1.1 e (In-order_by event_before e all h) c,
              ),
            ),
          )
    ]
  where
    short : (a b : ℕ) → (a == 0 || leb b a) ≡ true → (a ≡ 0) ⊎ (b ≤ a)
    short zero b h = inl refl
    short (suc a) b h = inr (ground arith)

    cut : (a b : ℕ) → (a == 0 || leb b a) ≡ false → (0 < a) × (a < b)
    cut zero b h = cc
    cut (suc a) b h = (omega arith, ground arith)
