-- ===== src/Webhook/Ring.antt =====
-- pkg/messaging/webhook/ring.go: the last envelopes delivered to each worker.
pub mod History
pub mod Tail
use robotdreams.Base.{
  ℕ, suc, ◌-◌, Text, Assoc, eqb, is_empty, lookup, insert, length, drop, Bool, true, false, not,
  ◌&&◌, Option, none, some, List, [], ◌∷◌, ◌++◌, reverse, if◌then◌else◌, ltb, leb, ◌==◌, any,
}
use robotdreams.Messaging.{Envelope, TailFilter}

pub record RingStore : Type 0 where
  pub capacity : ℕ
  pub by_worker : Assoc (List Envelope)

unfoldable pub new_ring_store : ℕ → RingStore
new_ring_store n = record { capacity = n; by_worker = [] }

abbrev pub listed : Option (List Envelope) → List Envelope
listed none = []
listed (some l) = l

-- A missing key reads as the empty list.
abbrev pub of_worker : RingStore → Text → List Envelope
of_worker r k = listed (lookup k r.by_worker)

-- `list[len(list)-cap:]` where the list is longer than the capacity.
abbrev pub bounded : ℕ → List Envelope → List Envelope
bounded n l = if ltb n (length l) then drop (length l - n) l else l

unfoldable pub add : RingStore → Envelope → RingStore
add r env = record r {
  by_worker = insert env.to (bounded r.capacity (of_worker r env.to ++ env ∷ [])) r.by_worker;
}

unfoldable pub contains : RingStore → Text → Text → Bool
contains r worker_id id = any (λ env. eqb env.id id) (of_worker r worker_id)

unfoldable pub all_lists : Assoc (List Envelope) → List Envelope
all_lists [] = []
all_lists ((k, l) ∷ m) = l ++ all_lists m

unfoldable pub source : RingStore → Text → List Envelope
unfolding all_lists
source r worker_id = if is_empty worker_id then all_lists r.by_worker else of_worker r worker_id

-- `!filter.Since.IsZero() && env.CreatedAt.Before(filter.Since)`
abbrev pub too_old : TailFilter → Envelope → Bool
too_old filter env = not (filter.since == 0) && ltb env.created_at filter.since

-- The loop over the source from its end, with `taken` envelopes already in the result.
unfoldable pub scan : TailFilter → ℕ → List Envelope → List Envelope
scan filter taken [] = []
scan filter taken (env ∷ earlier) = elim (too_old filter env) [
  | true ↦ scan filter taken earlier
  | false ↦ env ∷ elim (ltb 0 filter.limit && leb filter.limit (suc taken)) [
    | true ↦ []
    | false ↦ scan filter (suc taken) earlier
  ]
]

unfoldable pub tail : RingStore → TailFilter → List Envelope
unfolding source
tail r filter = scan filter 0 (reverse (source r filter.worker_id))
