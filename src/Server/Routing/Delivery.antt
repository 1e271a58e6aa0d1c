-- ===== src/Server/Routing/Delivery.antt =====
-- To whom a message goes, and what is sent.
use robotdreams.Base.{
  ◌≡◌, ◌≢◌, ◌⊎◌, refl, sym, ◌∙◌, subst, Text, is_empty, some, [], ◌∷◌, ◌++◌, ok, arith,
  Option-cases, Bool-cases, inl, inr, lookup, if◌then◌else◌, ap,
}
use robotdreams.Messaging.{
  Envelope, MessageType, status_update, completed_work, escalation, request_for_input, scheduled,
  other,
}
use robotdreams.Orgchart.Graph.{Graph, Worker}
use robotdreams.Orgchart.Graph
use robotdreams.Orgchart.Graph.Forest.{IsForest}
use robotdreams.Server.State.{Server, World, ◌>>=◌, ◌>>◌, pure, raise, read, send, next_id}
use robotdreams.Server.Keeps.{steps_of_ok}
use robotdreams.Server.Routing.{
  named_or_parent, recipient, unaddressed, stamp, dispatch, route, has_no_path, emit_from_worker,
}

-- Whom the code may pick for a message of a type from a worker under `parent`: `named` is what the
-- sender wrote.
pub data Addressed (g : Graph) (named parent : Text) : MessageType → Text → Type 0 where
  status_up : Addressed g named parent status_update parent
  escalated : Addressed g named parent escalation parent
  work_up : named ≡ [] → Addressed g named parent completed_work parent
  work_to :
      (v : Worker)
      → named ≢ []
      → lookup named g ≡ some v
      → Addressed g named parent completed_work named
  input_up : named ≡ [] → Addressed g named parent request_for_input parent
  input_to :
      (v : Worker)
      → named ≢ []
      → lookup named g ≡ some v
      → Addressed g named parent request_for_input named
  on_time :
      (v : Worker) → named ≢ [] → lookup named g ≡ some v → Addressed g named parent scheduled named

known_of_ok :
    (to : Text) (s s' : Server) (x : Text)
    → (read (λ g. Graph.get g to) >> pure to) s ≡ (ok x, s')
    → (v : Worker) × (lookup to s.graph ≡ some v) × (x ≡ to) × (s' ≡ s)
unfolding ◌>>=◌ read pure Graph.get
known_of_ok to s s' x h = elim (Option-cases (lookup to s.graph)) [
  | inl e ↦ absurd (ground arith)
  | inr (v, e) ↦ (v, e, ground arith, ground arith)
]

recipient-Addressed :
    (t : MessageType) (named parent x : Text) (s s' : Server)
    → recipient t named parent s ≡ (ok x, s')
    → (Addressed s.graph named parent t x) × (s' ≡ s)
unfolding recipient named_or_parent raise pure
recipient-Addressed status_update named parent x s s' h =
    let e : parent ≡ x = cc in (rw (← e) status_up, ground arith)
recipient-Addressed escalation named parent x s s' h =
    let e : parent ≡ x = cc in (rw (← e) escalated, ground arith)
recipient-Addressed completed_work [] parent x s s' h =
    let e : parent ≡ x = cc in (rw (← e) (work_up refl), ground arith)
recipient-Addressed completed_work (b ∷ bs) parent x s s' h =
    let (v, l, e, q) = known_of_ok (b ∷ bs) s s' x h in (rw e (work_to v (λ z. cc) l), q)
recipient-Addressed request_for_input [] parent x s s' h =
    let e : parent ≡ x = cc in (rw (← e) (input_up refl), ground arith)
recipient-Addressed request_for_input (b ∷ bs) parent x s s' h =
    let (v, l, e, q) = known_of_ok (b ∷ bs) s s' x h in (rw e (input_to v (λ z. cc) l), q)
recipient-Addressed scheduled [] parent x s s' h = absurd (ground arith)
recipient-Addressed scheduled (b ∷ bs) parent x s s' h =
    let (v, l, e, q) = known_of_ok (b ∷ bs) s s' x h in (rw e (on_time v (λ z. cc) l), q)
recipient-Addressed (other u) named parent x s s' h = absurd (ground arith)

-- A message came from `from` and changed the server from `s` to `s'`: it is out, to a registered
-- worker, or it asked for nothing and nobody is above the sender.
pub record Delivered (from : Text) (env : Envelope) (s : Server) (env' : Envelope) (s' : Server)
    : Type 0 where
  pub sender : Worker
  pub registered : lookup from s.graph ≡ some sender
  pub signed : env'.from ≡ from
  pub typed : env'.type ≡ env.type
  pub addressed : Addressed s.graph env.to sender.reports_to env.type env'.to
  pub same_chart : s'.graph ≡ s.graph
  pub outcome :
      ((env'.to ≡ [])
        × (env.type ≢ escalation)
        × (env.type ≢ request_for_input)
        × (s'.sent ≡ s.sent))
      ⊎ ((v : Worker) × (lookup env'.to s.graph ≡ some v) × (s'.sent ≡ s.sent ++ env' ∷ []))

unaddressed-ok :
    (t : MessageType) (env x : Envelope) (s s' : Server)
    → unaddressed t env s ≡ (ok x, s')
    → (t ≢ escalation) × (t ≢ request_for_input) × (x ≡ env) × (s' ≡ s)
unfolding unaddressed raise pure
unaddressed-ok status_update env x s s' h = (λ e. cc, λ e. cc, ground arith, ground arith)
unaddressed-ok completed_work env x s s' h = (λ e. cc, λ e. cc, ground arith, ground arith)
unaddressed-ok escalation env x s s' h = absurd (ground arith)
unaddressed-ok request_for_input env x s s' h = absurd (ground arith)
unaddressed-ok scheduled env x s s' h = (λ e. cc, λ e. cc, ground arith, ground arith)
unaddressed-ok (other u) env x s s' h = (λ e. cc, λ e. cc, ground arith, ground arith)

-- A recipient that is not blank is a registered worker.
Addressed-known :
    {g : Graph} (f : IsForest g) (k named : Text) (v : Worker) (t : MessageType) (to : Text)
    → lookup k g ≡ some v
    → to ≢ []
    → Addressed g named v.reports_to t to
    → (u : Worker) × (lookup to g ≡ some u)
Addressed-known f k named v t to h n status_up = f.closed k v h n
Addressed-known f k named v t to h n escalated = f.closed k v h n
Addressed-known f k named v t to h n (work_up _) = f.closed k v h n
Addressed-known f k named v t to h n (work_to u _ l) = (u, l)
Addressed-known f k named v t to h n (input_up _) = f.closed k v h n
Addressed-known f k named v t to h n (input_to u _ l) = (u, l)
Addressed-known f k named v t to h n (on_time u _ l) = (u, l)

parent_of_ok :
    (k : Text) (s s1 : Server) (p : Text) (v : Worker)
    → lookup k s.graph ≡ some v
    → read (λ g. Graph.escalation_target g k) s ≡ (ok p, s1)
    → (p ≡ v.reports_to) × (s1 ≡ s)
unfolding read Graph.escalation_target
parent_of_ok k s s1 p v h e = (ground arith, ground arith)

module _ (w : World) where
  stamp-ok :
      (from : Text) (env x : Envelope) (s s' : Server)
      → stamp w from env s ≡ (ok x, s')
      → (x.from ≡ from) × (x.type ≡ env.type) × (s'.graph ≡ s.graph) × (s'.sent ≡ s.sent)
  unfolding stamp ◌>>=◌ next_id pure
  stamp-ok from env x s s' h = elim (Bool-cases (is_empty env.id)) [
    | inl b ↦ ground arith
    | inr b ↦ ground arith
  ]

  sent_of_ok :
      (env x : Envelope) (s s' : Server)
      → (send w env >> pure env) s ≡ (ok x, s')
      → (x ≡ env) × (s' ≡ record s { sent = s.sent ++ env ∷ [] })
  unfolding ◌>>=◌ send pure
  sent_of_ok env x s s' h = (ground arith, ground arith)

  sent_or_not :
      (t : MessageType) (env : Envelope) (to : Text) (x : Envelope) (s s' : Server)
      → (if is_empty to then unaddressed t env else (send w env >> pure env)) s ≡ (ok x, s')
      → (x ≡ env)
        × (s'.graph ≡ s.graph)
        × (((to ≡ []) × (t ≢ escalation) × (t ≢ request_for_input) × (s'.sent ≡ s.sent))
            ⊎ ((to ≢ []) × (s'.sent ≡ s.sent ++ x ∷ [])))
  sent_or_not t env [] x s s' h =
      let (a, c, e, q) = unaddressed-ok t env x s s' h in
      (e, ap (λ z. z.graph) q, inl (refl, a, c, ap (λ z. z.sent) q))
  sent_or_not t env (b ∷ bs) x s s' h =
      let (e, q) = sent_of_ok env x s s' h in
      (
        e,
        ap (λ z. z.graph) q,
        inr (λ z. cc, ap (λ z. z.sent) q ∙ ap (λ z. s.sent ++ z ∷ []) (sym e)),
      )

  dispatch-ok :
      (t : MessageType) (env x : Envelope) (s s' : Server)
      → dispatch w t env s ≡ (ok x, s')
      → (x ≡ env)
        × (s'.graph ≡ s.graph)
        × (((env.to ≡ []) × (t ≢ escalation) × (t ≢ request_for_input) × (s'.sent ≡ s.sent))
            ⊎ ((env.to ≢ []) × (s'.sent ≡ s.sent ++ x ∷ [])))
  unfolding dispatch
  dispatch-ok t env = sent_or_not t env env.to

  route-Delivered :
      (from : Text) (env env' : Envelope) (s s' : Server) (v : Worker)
      → IsForest s.graph
      → lookup from s.graph ≡ some v
      → route w from env s ≡ (ok env', s')
      → Delivered from env s env' s'
  unfolding route
  route-Delivered from env env' s s' v f h e =
      let (x, s1, e1, r1) = steps_of_ok (stamp w from env) _ env' s s' e in
      let (xf, xt, xg, xs) = stamp-ok from env x s s1 e1 in
      let (parent, s2, e2, r2) =
        steps_of_ok (read (λ g. Graph.escalation_target g from)) _ env' s1 s' r1 in
      let (hp, q2) = parent_of_ok from s1 s2 parent v (ap (lookup from) xg ∙ h) e2 in
      let (to, s3, e3, r3) = steps_of_ok (recipient env.type env.to parent) _ env' s2 s' r2 in
      let (a3, q3) = recipient-Addressed env.type env.to parent to s2 s3 e3 in
      let (d, dg, out) = dispatch-ok env.type (record x { to = to }) env' s3 s' r3 in
      let g3 : s3.graph ≡ s.graph = ap (λ z. z.graph) (q3 ∙ q2) ∙ xg in
      let t3 : s3.sent ≡ s.sent = ap (λ z. z.sent) (q3 ∙ q2) ∙ xs in
      let placed : Addressed s.graph env.to v.reports_to env.type to =
        subst (λ z. Addressed z env.to v.reports_to env.type to) (ap (λ z. z.graph) q2 ∙ xg)
          (subst (λ z. Addressed s2.graph env.to z env.type to) hp a3) in
      record {
        sender = v;
        registered = h;
        signed = ap (λ z. z.from) d ∙ xf;
        typed = ap (λ z. z.type) d ∙ xt;
        addressed = subst (λ z. Addressed s.graph env.to v.reports_to env.type z.to) (sym d) placed;
        same_chart = dg ∙ g3;
        outcome = elim out [
          | inl (b, n1, n2, q) ↦ inl (ap (λ z. z.to) d ∙ b, n1, n2, q ∙ t3)
          | inr (nb, q) ↦
              let (u, l) = Addressed-known f from env.to v env.type to h nb placed in
              inr (u, ap (λ z. lookup z.to s.graph) d ∙ l, q ∙ ap (λ z. z ++ env' ∷ []) t3)
        ];
      }

  -- On a chart that is a forest, a message that the server takes from a worker carries that worker as its sender, goes where its
  -- type says, and is out to a registered worker; only a status update or finished work of a worker
  -- at the root goes nowhere.
  pub emit_from_worker-Delivered :
      (from : Text) (env env' : Envelope) (s s' : Server)
      → IsForest s.graph
      → emit_from_worker w from env s ≡ (ok env', s')
      → Delivered from env s env' s'
  unfolding emit_from_worker raise ◌>>=◌ read Graph.get
  emit_from_worker-Delivered from env env' s s' f h = elim (Bool-cases (is_empty from)) [
    | inl b ↦ absurd (ground arith)
    | inr nb ↦ elim (Option-cases (lookup from s.graph)) [
      | inl e ↦ absurd (ground arith)
      | inr (v, e) ↦ elim (Bool-cases (has_no_path env.storage_ptr)) [
        | inl b ↦ absurd (ground arith)
        | inr p ↦ route-Delivered from env env' s s' v f e (ground arith)
      ]
    ]
  ]
