-- ===== src/Server/Schedules.antt =====
-- pkg/scheduling/scheduling.go and internal/server/store/schedules.go: the standing instructions to
-- send one message, and their rows. The cron parser is a parameter: an expression gives, if it
-- parses, the next match after a time, which is 0 where there is none.
pub mod Due
use robotdreams.Base.{
  order_by, ℕ, Text, Assoc, is_empty, eqb, lookup, insert, trim_space, text_ltb, ltb, leb, Bool,
  true, false, not, ◌&&◌, ◌||◌, Option, none, some, List, map, keep, any, Result, ok, err,
  if◌then◌else◌, ◌==◌,
}

-- pkg/scheduling: a standing instruction to send one message. The body is its bytes; `last_at` is
-- none where the schedule has not fired.
pub record Schedule : Type 0 where
  pub id : Text
  pub owner : Text
  pub to : Text
  pub cron : Text
  pub subject : Text
  pub body : Text
  pub enabled : Bool
  pub next_at : ℕ
  pub last_at : Option ℕ
  pub created_at : ℕ

-- Empty fields restrict nothing.
pub record Filter : Type 0 where
  pub owner : Text
  pub to : Text
  pub worker : Text

pub data ScheduleError : Type 0 where
  not_found invalid : ScheduleError

abbrev pub Cron : Type 0
Cron = Text → Option (ℕ → ℕ)

unfoldable pub parse_cron : Cron → Text → Option (ℕ → ℕ)
parse_cron cron expr =
    let trimmed = trim_space expr in if is_empty trimmed then none else cron trimmed

abbrev is_none {ℓ} : {A : Type ℓ} → Option A → Bool
is_none none = true
is_none (some a) = false

-- A slash, a blank, a tab and a line feed.
abbrev has_separator : Text → Bool
has_separator = any (λ b. b == 47 || (b == 32 || (b == 9 || b == 10)))

unfoldable pub validate : Cron → (Text → Bool) → Schedule → Result ScheduleError (Unit {0})
validate cron valid_json sc =
    if is_empty (trim_space sc.id)
      || (has_separator sc.id
          || (is_empty sc.owner
              || (is_empty sc.to
                  || (is_none (parse_cron cron sc.cron)
                      || (not (is_empty sc.body) && not (valid_json sc.body))))))
    then err invalid
    else ok tt

-- What an existing row keeps of itself.
abbrev replacing : Option Schedule → Schedule → Schedule
replacing none sc = sc
replacing (some old) sc = record sc { last_at = old.last_at; created_at = old.created_at }

unfoldable pub upsert :
    Cron → (Text → Bool) → ℕ → Schedule → Assoc Schedule → Result ScheduleError (Assoc Schedule)
unfolding validate
upsert cron valid_json now sc m = elim (validate cron valid_json sc) [
  | err e ↦ err e
  | ok _ ↦
      let created = if sc.created_at == 0 then now else sc.created_at in
      ok (insert sc.id (replacing (lookup sc.id m) (record sc { created_at = created })) m)
]

abbrev pub by_id : Schedule → Schedule → Bool
by_id s t = text_ltb s.id t.id

abbrev pub by_time : Schedule → Schedule → Bool
by_time s t = ltb s.next_at t.next_at || (s.next_at == t.next_at && text_ltb s.id t.id)

abbrev pub selects : Filter → Schedule → Bool
selects f s =
    (is_empty f.owner || eqb s.owner f.owner)
    && ((is_empty f.to || eqb s.to f.to)
        && (is_empty f.worker || (eqb s.owner f.worker || eqb s.to f.worker)))

unfoldable pub rows : Assoc Schedule → List Schedule
rows = map (λ e. e.1)

unfoldable pub list : Filter → Assoc Schedule → List Schedule
unfolding order_by rows
list f m = order_by by_id (keep (selects f) (rows m))

abbrev pub is_due : ℕ → Schedule → Bool
is_due now s = s.enabled && leb s.next_at now

unfoldable pub list_due : ℕ → Assoc Schedule → List Schedule
unfolding order_by rows
list_due now m = order_by by_time (keep (is_due now) (rows m))

-- The zero time is stored as no time.
unfoldable pub mark_fired : Text → ℕ → ℕ → Assoc Schedule → Result ScheduleError (Assoc Schedule)
mark_fired id last next m = elim (lookup id m) [
  | none ↦ err not_found
  | some s ↦
      ok
        (insert id (record s { last_at = if last == 0 then none else some last; next_at = next }) m)
]
