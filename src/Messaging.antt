-- ===== src/Messaging.antt =====
-- pkg/messaging/messaging.go: the envelope that every backend carries.
use robotdreams.Base.{ℕ, Text, Option}

-- `other` is any text but the five that the package names.
pub data MessageType : Type 0 where
  status_update completed_work escalation request_for_input scheduled : MessageType
  other : Text → MessageType

pub record StoragePointer : Type 0 where
  pub backend : Text
  pub path : Text
  pub revision : Text

-- A time is a number of nanoseconds since the zero time, which is 0; a body is its bytes.
pub record Envelope : Type 0 where
  pub id : Text
  pub type : MessageType
  pub from : Text
  pub to : Text
  pub subject : Text
  pub body : Text
  pub storage_ptr : Option StoragePointer
  pub created_at : ℕ
  pub causation_id : Text

pub record Ack : Type 0 where
  pub message_id : Text
  pub by_worker : Text
  pub action : Text
  pub at : ℕ

-- Zero values restrict nothing.
pub record TailFilter : Type 0 where
  pub worker_id : Text
  pub limit : ℕ
  pub since : ℕ

-- messaging.ErrNotFound, and any other failure of a backend.
pub data BackendError : Type 0 where
  not_found : BackendError
  failed : Text → BackendError
