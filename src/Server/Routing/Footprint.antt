-- ===== src/Server/Routing/Footprint.antt =====
-- Taking a message from a worker touches nothing but the messages that are out.
use robotdreams.Base.{ℕ, Text, List, if◌then◌else◌, is_empty}
use robotdreams.Messaging.{
  Envelope, MessageType, status_update, completed_work, escalation, request_for_input, scheduled,
  other,
}
use robotdreams.Orgchart.Graph
use robotdreams.Server.State.{Server, World, pure, read, next_id, send, invalid_message}
use robotdreams.Server.Keeps.{Keeps, Keeps-then, Keeps-pure, Keeps-raise, Keeps-read, Keeps-if}
use robotdreams.Server.Workers.Notices.{Keeps-send, Keeps-next_id}
use robotdreams.Server.Routing.{
  emit_from_worker, route, stamp, recipient, dispatch, unaddressed, named_or_parent, has_no_path,
}

module _ (P : Server → Type 0) (minting : (s : Server) (n : ℕ) → P s → P (record s { minted = n }))
    (sending : (s : Server) (es : List Envelope) → P s → P (record s { sent = es }))
    (w : World) where
  Keeps-named_or_parent : (to parent : Text) → Keeps P (named_or_parent to parent)
  unfolding named_or_parent
  Keeps-named_or_parent to parent =
      Keeps-if P (is_empty to) _ _ (Keeps-pure P parent)
        (Keeps-then P (read (λ g. Graph.get g to)) _ (Keeps-read P _) (λ _. Keeps-pure P to))

  Keeps-recipient : (t : MessageType) (to parent : Text) → Keeps P (recipient t to parent)
  unfolding recipient
  Keeps-recipient status_update to parent = Keeps-pure P parent
  Keeps-recipient escalation to parent = Keeps-pure P parent
  Keeps-recipient completed_work to parent = Keeps-named_or_parent to parent
  Keeps-recipient request_for_input to parent = Keeps-named_or_parent to parent
  Keeps-recipient scheduled to parent =
      Keeps-if P (is_empty to) _ _ (Keeps-raise P _ invalid_message)
        (Keeps-then P (read (λ g. Graph.get g to)) _ (Keeps-read P _) (λ _. Keeps-pure P to))
  Keeps-recipient (other t) to parent = Keeps-raise P _ invalid_message

  Keeps-unaddressed : (t : MessageType) (env : Envelope) → Keeps P (unaddressed t env)
  unfolding unaddressed
  Keeps-unaddressed status_update env = Keeps-pure P env
  Keeps-unaddressed escalation env = Keeps-raise P _ _
  Keeps-unaddressed completed_work env = Keeps-pure P env
  Keeps-unaddressed request_for_input env = Keeps-raise P _ _
  Keeps-unaddressed scheduled env = Keeps-pure P env
  Keeps-unaddressed (other t) env = Keeps-pure P env

  Keeps-dispatch : (t : MessageType) (env : Envelope) → Keeps P (dispatch w t env)
  unfolding dispatch
  Keeps-dispatch t env =
      Keeps-if P (is_empty env.to) _ _ (Keeps-unaddressed t env)
        (Keeps-then P (send w env) _ (Keeps-send P minting sending w env) (λ _. Keeps-pure P env))

  Keeps-stamp : (from : Text) (env : Envelope) → Keeps P (stamp w from env)
  unfolding stamp
  Keeps-stamp from env =
      Keeps-then P (if is_empty env.id then next_id w else pure env.id) _
        (Keeps-if P (is_empty env.id) _ _ (Keeps-next_id P minting sending w) (Keeps-pure P env.id))
        (λ id. Keeps-pure P _)

  Keeps-route : (from : Text) (env : Envelope) → Keeps P (route w from env)
  unfolding route
  Keeps-route from env = Keeps-then P (stamp w from env) _ (Keeps-stamp from env) (λ x.
      Keeps-then P (read (λ g. Graph.escalation_target g from)) _ (Keeps-read P _) (λ parent.
        Keeps-then P (recipient env.type env.to parent) _ (Keeps-recipient env.type env.to parent)
          (λ to. Keeps-dispatch env.type (record x { to = to }))))

  pub Keeps-emit_from_worker :
      (from : Text) (env : Envelope) → Keeps P (emit_from_worker w from env)
  unfolding emit_from_worker
  Keeps-emit_from_worker from env = Keeps-if P (is_empty from) _ _ (Keeps-raise P _ _) (
      Keeps-then P (read (λ g. Graph.get g from)) _ (Keeps-read P _) (λ _.
        Keeps-if P (has_no_path env.storage_ptr) _ _ (Keeps-raise P _ _) (Keeps-route from env)))
