-- ===== src/Updates.antt =====
-- pkg/updates/updates.go: announcements of new versions, and what nodes say of them.
pub mod Store
pub mod Fleet
mod Tests
use robotdreams.Base.{
  if◌then◌else◌, ℕ, Text, Assoc, codes, is_empty, eqb, cut, contains_byte, leb, ◌==◌, Bool, true,
  false, not, ◌&&◌, ◌||◌, Option, none, some, List, [], ◌∷◌,
}
use robotdreams.Messaging.{Envelope, MessageType, status_update}
use robotdreams.Orgchart.Graph.{Status}

abbrev pub subject_update_available : Text
subject_update_available = codes "update available"

abbrev pub kind_cli : Text
kind_cli = codes "robotdreams/cli"

abbrev pub kind_namespace : Text
kind_namespace = codes "robotdreams"

abbrev pub status_applied : Text
status_applied = codes "applied"

abbrev pub status_declined : Text
status_declined = codes "declined"

abbrev pub status_unknown : Text
status_unknown = codes "unknown"

pub record Announcement : Type 0 where
  pub id : Text
  pub kind : Text
  pub version : Text
  pub source : Text
  pub min_version : Text
  pub severity : Text
  pub notes : Text
  pub announced_by : Text
  pub announced_at : ℕ

pub record UpdateReport : Type 0 where
  pub kind : Text
  pub announcement_id : Text
  pub status : Text
  pub current_version : Text
  pub target_version : Text
  pub detail : Text

pub record Pending : Type 0 where
  pub announcement : Announcement
  pub current_version : Text
  pub status : Text

pub record RolloutNode : Type 0 where
  pub worker_id : Text
  pub worker_status : Status
  pub kind : Text
  pub current_version : Text
  pub announcement_id : Text
  pub target_version : Text
  pub status : Text
  pub detail : Text
  pub reported_at : ℕ

pub record Rollout : Type 0 where
  pub kind : Text
  pub announcement : Option Announcement
  pub counts : Assoc ℕ
  pub nodes : List RolloutNode

abbrev kind_byte : ℕ → Bool
kind_byte c =
    (leb b'a' c && leb c b'z')
    || ((leb b'0' c && leb c b'9') || (c == b'.' || (c == b'_' || c == b'-')))

abbrev is_update : MessageType → Bool
is_update status_update = true
is_update _ = false

unfoldable pub is_kind_part : Text → Bool
is_kind_part [] = true
is_kind_part (c ∷ cs) = kind_byte c && is_kind_part cs

-- ValidateKind: whether there is no error.
unfoldable pub is_kind : Text → Bool
unfolding is_kind_part
is_kind kind = elim (cut b'/' kind) [
  | none ↦ false
  | some (ns, name) ↦
      (not (is_empty ns) && (not (is_empty name) && not (contains_byte b'/' name)))
      && ((is_kind_part ns && is_kind_part name)
          && (not (eqb ns kind_namespace) || eqb kind kind_cli))
]

-- ValidateStatus.
unfoldable pub is_status : Text → Bool
is_status s =
    eqb s (codes "current")
    || (eqb s (codes "acknowledged")
        || (eqb s (codes "in_progress")
            || (eqb s status_applied || (eqb s status_declined || eqb s (codes "failed")))))

-- ValidateSeverity.
unfoldable pub is_severity : Text → Bool
is_severity s =
    is_empty s
    || (eqb s (codes "optional") || (eqb s (codes "recommended") || eqb s (codes "required")))

-- ParseAnnouncement, where `decode` is json.Unmarshal: nothing where the envelope is no announcement.
unfoldable pub parse_announcement : (Text → Option Announcement) → Envelope → Option Announcement
parse_announcement decode env =
    if is_update env.type && eqb env.subject subject_update_available
    then elim (decode env.body) [
      | none ↦ none
      | some ann ↦ if is_empty ann.kind || is_empty ann.version then none else some ann
    ]
    else none
