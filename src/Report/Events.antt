-- ===== src/Report/Events.antt =====
-- MergeEvents of pkg/reporting/aggregate.go.
pub mod Bounds
use robotdreams.Base.{
  ℕ, zero, suc, ◌-◌, min, Bool, ◌||◌, eqb, leb, not, length, keep, last_n, order_by, List, [], ◌∷◌,
  ◌++◌, if◌then◌else◌, ◌==◌,
}
use robotdreams.Report.Model.{Event, status_critical}
use robotdreams.Report.Contributors.{event_before}

abbrev pub is_critical : Event → Bool
is_critical e = eqb e.severity status_critical

unfoldable pub concat {ℓ} : {A : Type ℓ} → List (List A) → List A
concat [] = []
concat (b ∷ bs) = b ++ concat bs

-- As many of `n` as a limit allows, where 0 sets none.
abbrev pub up_to : ℕ → ℕ → ℕ
up_to zero n = n
up_to (suc limit) n = min (suc limit) n

-- The last `limit` of a stream that is too long, the critical before the rest.
unfoldable pub bound_events : ℕ → List Event → List Event
bound_events limit out =
    let crit = keep is_critical out in
    let rest = keep (λ e. not (is_critical e)) out in
    if leb limit (length crit)
    then last_n limit crit
    else order_by event_before (crit ++ last_n (limit - length crit) rest)

-- A limit of 0 stands for any that is not positive.
unfoldable pub merge_events : ℕ → List (List Event) → List Event
unfolding bound_events concat
merge_events limit batches =
    let out = order_by event_before (concat batches) in
    if limit == 0 || leb (length out) limit then out else bound_events limit out
