-- ===== src/Webhook/Outbox.antt =====
-- pkg/messaging/webhook/outbox.go: the retries of envelopes whose first POST failed.
-- The clock's reading is an argument of each operation, and the POST's outcome (with the clock after
-- it) an argument of `tick`. A tick runs alone here: no Emit falls between its due list and its
-- attempts.
pub mod Backoff
pub mod Attempts
pub mod Retention
pub mod History
use robotdreams.Base.{
  ℕ, zero, suc, ◌+◌, ◌*◌, Text, Assoc, lookup, insert, erase, length, Bool, true, false, not, ◌&&◌,
  ◌||◌, Option, none, some, List, [], ◌∷◌, ◌++◌, if◌then◌else◌, ltb, leb,
}
use robotdreams.Messaging.{Envelope}

-- `scale` stands for `time.Duration(float64(d) * p.Multiplier)`. Delays are in nanoseconds.
pub record RetryPolicy : Type 0 where
  pub initial_delay : ℕ
  pub max_delay : ℕ
  pub scale : ℕ → ℕ
  pub max_attempts : ℕ

abbrev pub second : ℕ
second = 1_000_000_000

-- Doubling is exact in a float64 at the delays that occur here.
abbrev pub default_retry_policy : RetryPolicy
default_retry_policy = record {
  initial_delay = 1 * second;
  max_delay = 30 * second;
  scale = λ d. 2 * d;
  max_attempts = 5;
}

abbrev pub clip : ℕ → ℕ → ℕ
clip m d = if ltb m d then m else d

-- The loop of `delayFor` with the given number of turns left; it breaks at the maximum.
unfoldable pub back_off : ℕ → RetryPolicy → ℕ → ℕ
back_off zero p d = d
back_off (suc turns) p d = elim (ltb p.max_delay (p.scale d)) [
  | true ↦ p.max_delay
  | false ↦ back_off turns p (p.scale d)
]

unfoldable pub turns_for : ℕ → ℕ
turns_for zero = 0
turns_for (suc attempt) = attempt

-- `for i := 1; i < attempt; i++` makes `attempt - 1` turns.
unfoldable pub delay_for : RetryPolicy → ℕ → ℕ
unfolding back_off turns_for
delay_for p attempt = clip p.max_delay (back_off (turns_for attempt) p p.initial_delay)

abbrev pub max_retained_terminal : ℕ
max_retained_terminal = 1000

pub record OutboxItem : Type 0 where
  pub env : Envelope
  pub attempts : ℕ
  pub next_attempt : ℕ
  pub delivered : Bool
  pub failed : Bool
  pub last_err : Option Text

pub record Outbox : Type 0 where
  pub items_by_id : Assoc OutboxItem
  pub terminal_ids : List Text
  pub policy : RetryPolicy

abbrev pub new_outbox : RetryPolicy → Outbox
new_outbox p = record { items_by_id = []; terminal_ids = []; policy = p }

abbrev pub terminal : OutboxItem → Bool
terminal item = item.delivered || item.failed

-- Deletes the item with the given id if it is there and terminal.
unfoldable pub drop_terminal : Text → Assoc OutboxItem → Assoc OutboxItem
drop_terminal id m = elim (lookup id m) [
  | none ↦ m
  | some item ↦ if terminal item then erase id m else m
]

-- The loop of `retainTerminalLocked`: the oldest ids go until at most the maximum are left.
unfoldable pub trim : List Text → Assoc OutboxItem → List Text × Assoc OutboxItem
unfolding drop_terminal
trim [] m = ([], m)
trim (oldest ∷ ids) m =
    let rest = trim ids (drop_terminal oldest m) in
    if ltb max_retained_terminal (length (oldest ∷ ids)) then rest else (oldest ∷ ids, m)

unfoldable pub retain_terminal_locked : Outbox → Text → Outbox
unfolding trim
retain_terminal_locked o id =
    let kept = trim (o.terminal_ids ++ id ∷ []) o.items_by_id in
    record o { terminal_ids = kept.0; items_by_id = kept.1 }

-- The new item of `enqueueFailed`; a next attempt that is not set is the zero time.
unfoldable pub failed_item : RetryPolicy → ℕ → Envelope → ℕ → Text → OutboxItem
unfolding delay_for
failed_item p now env attempts e = record {
  env = env;
  attempts = attempts;
  next_attempt = if leb p.max_attempts attempts then 0 else now + delay_for p attempts;
  delivered = false;
  failed = leb p.max_attempts attempts;
  last_err = some e;
}

-- Puts an item under its id, and retains the id where the item is terminal.
unfoldable pub store_item : Outbox → OutboxItem → Outbox
unfolding retain_terminal_locked
store_item o item =
    let o' : Outbox = record o { items_by_id = insert item.env.id item o.items_by_id } in
    if terminal item then retain_terminal_locked o' item.env.id else o'

unfoldable pub enqueue_failed : Outbox → ℕ → Envelope → ℕ → Text → Outbox
unfolding store_item failed_item
enqueue_failed o now env attempts e = store_item o (failed_item o.policy now env attempts e)

abbrev pub is_due : ℕ → OutboxItem → Bool
is_due now item = not (terminal item) && leb item.next_attempt now

unfoldable pub due : ℕ → Assoc OutboxItem → List OutboxItem
due now [] = []
due now ((id, item) ∷ m) = if is_due now item then item ∷ due now m else due now m

-- What a POST came to: its error, if any, and the clock's reading after it.
pub record Delivery : Type 0 where
  pub error : Option Text
  pub at : ℕ

-- The update of an item after an attempt.
unfoldable pub attempted : RetryPolicy → OutboxItem → Delivery → OutboxItem
unfolding delay_for
attempted p item d = elim d.error [
  | none ↦ record item { attempts = suc item.attempts; last_err = none; delivered = true }
  | some e ↦
      if leb p.max_attempts (suc item.attempts)
      then record item { attempts = suc item.attempts; last_err = some e; failed = true }
      else record item {
        attempts = suc item.attempts;
        last_err = some e;
        next_attempt = d.at + delay_for p (suc item.attempts);
      }
]

-- The second loop of `tick`, with the envelopes that it hands to `onDelivered`.
unfoldable pub attempt_all :
    Outbox → (Envelope → Delivery) → List OutboxItem → Outbox × List Envelope
unfolding attempted store_item
attempt_all o deliver [] = (o, [])
attempt_all o deliver (item ∷ items) =
    let item' = attempted o.policy item (deliver item.env) in
    let rest = attempt_all (store_item o item') deliver items in
    (rest.0, if item'.delivered then item.env ∷ rest.1 else rest.1)

unfoldable pub tick : Outbox → ℕ → (Envelope → Delivery) → Outbox × List Envelope
unfolding due attempt_all
tick o now deliver = attempt_all o deliver (due now o.items_by_id)

unfoldable pub inspect : Outbox → Text → Option OutboxItem
inspect o id = lookup id o.items_by_id

pub record Stats : Type 0 where
  pub pending : ℕ
  pub failed : ℕ

abbrev pub count_item : OutboxItem → Stats → Stats
count_item item s =
    if item.failed
    then record s { failed = suc s.failed }
    else if not item.delivered
    then record s { pending = suc s.pending }
    else s

unfoldable pub stats_of : Assoc OutboxItem → Stats
stats_of [] = record { pending = 0; failed = 0 }
stats_of ((id, item) ∷ m) = count_item item (stats_of m)

unfoldable pub stats : Outbox → Stats
unfolding stats_of
stats o = stats_of o.items_by_id
