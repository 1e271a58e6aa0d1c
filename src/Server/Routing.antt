-- ===== src/Server/Routing.antt =====
-- EmitFromWorker of internal/server/server.go: to whom a worker's message goes.
pub mod Delivery
pub mod Footprint
use robotdreams.Base.{Text, is_empty, Bool, false, Option, none, some, if◌then◌else◌, ◌==◌}
use robotdreams.Messaging.{
  Envelope, StoragePointer, MessageType, status_update, completed_work, escalation,
  request_for_input, scheduled, other,
}
use robotdreams.Orgchart.Graph.{Graph}
use robotdreams.Orgchart.Graph
use robotdreams.Server.State.{
  World, M, ◌>>=◌, ◌>>◌, pure, raise, read, send, next_id, no_escalation_target, invalid_message,
}

abbrev pub has_no_path : Option StoragePointer → Bool
has_no_path none = false
has_no_path (some p) = is_empty p.path

-- Where the sender may name a recipient: the one that is named, if it is a worker, or the parent.
unfoldable pub named_or_parent : Text → Text → M Text
named_or_parent to parent =
    if is_empty to then pure parent else (do read (λ g. Graph.get g to); pure to)

-- The recipient, by the type of the message.
unfoldable pub recipient : MessageType → Text → Text → M Text
unfolding named_or_parent
recipient status_update to parent = pure parent
recipient escalation to parent = pure parent
recipient completed_work to parent = named_or_parent to parent
recipient request_for_input to parent = named_or_parent to parent
recipient scheduled to parent =
    if is_empty to then raise invalid_message else (do read (λ g. Graph.get g to); pure to)
recipient (other t) to parent = raise invalid_message

-- What becomes of a message for which there is nobody.
unfoldable pub unaddressed : MessageType → Envelope → M Envelope
unaddressed escalation env = raise no_escalation_target
unaddressed request_for_input env = raise no_escalation_target
unaddressed _ env = pure env

module _ (w : World) where
  -- The sender, the id and the time that the server fills in.
  unfoldable pub stamp : Text → Envelope → M Envelope
  stamp from env = do
    id ← (if is_empty env.id then next_id w else pure env.id)
    pure (record env {
      from = from;
      id = id;
      created_at = if env.created_at == 0 then w.now else env.created_at;
    })

  -- Sent, or what becomes of it where there is nobody.
  unfoldable pub dispatch : MessageType → Envelope → M Envelope
  unfolding unaddressed
  dispatch t env = if is_empty env.to then unaddressed t env else (send w env >> pure env)

  unfoldable pub route : Text → Envelope → M Envelope
  unfolding stamp recipient dispatch
  route from env = do
    stamped ← stamp from env
    parent ← read (λ g. Graph.escalation_target g from)
    to ← recipient env.type env.to parent
    dispatch env.type (record stamped { to = to })

  unfoldable pub emit_from_worker : Text → Envelope → M Envelope
  unfolding route
  emit_from_worker from env = if is_empty from then raise invalid_message else do
    read (λ g. Graph.get g from)
    if has_no_path env.storage_ptr then raise invalid_message else route from env
