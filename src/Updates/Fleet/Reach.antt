-- ===== src/Updates/Fleet/Reach.antt =====
-- Whom an announcement reaches, and what a rollout counts: internal/server/updates.go.
use robotdreams.Base.{
  true, false, All, eqb_refl, cut, ℕ, suc, ◌+◌, ◌≡◌, refl, sym, ◌∙◌, ap, subst, Option-cases, ◌⊎◌,
  inl, inr, arith, Bool-cases, Text, Assoc, eqb, eqb_iff, is_empty, text_ltb, lookup, insert,
  lookup-insert, map, In, In-order_by, length-order_by, length, Bool, Option, none, some, List, [],
  ◌∷◌, ok, err, if◌then◌else◌,
}
use robotdreams.Orgchart.Graph.{Graph, Worker, workers}
use robotdreams.Updates.{
  parse_announcement, subject_update_available, Announcement, Rollout, RolloutNode, is_kind,
}
use robotdreams.Updates.Store.{
  UpdateStore, WorkerUpdateState, state_of, get_update_announcement, list_update_announcements,
}
use robotdreams.Updates.Fleet.{
  stamped, Surroundings, Broadcast, workers_by_id, broadcast, announcement_envelope,
  announce_update, count_of, count_statuses, rollout_of, rollout_node_for, update_rollout,
  newest_of_kind, invalid_update, announcement_unknown,
}

length-broadcast :
    (w : Surroundings) (ann : Announcement) (n : ℕ) (vs : List Worker)
    → length (broadcast w ann n vs).delivered + length (broadcast w ann n vs).missed ≡ length vs
unfolding broadcast
length-broadcast w ann n [] = refl
length-broadcast w ann n (v ∷ vs) =
    let ih = length-broadcast w ann (suc n) vs in
    elim (Bool-cases (w.takes (announcement_envelope w ann n v))) [
      | inl b ↦ rw b (omega (arith, ih))
      | inr b ↦ rw b (omega (arith, ih))
    ]

-- Of the envelope to the worker, the `n`th, it is told by whether the backend took it.
abbrev pub IsToldOrMissed : Surroundings → Announcement → Broadcast → Worker → Type 0
IsToldOrMissed w ann b v =
    (n : ℕ) × (((w.takes (announcement_envelope w ann n v) ≡ true)
        × In (announcement_envelope w ann n v) b.delivered)
      ⊎ ((w.takes (announcement_envelope w ann n v) ≡ false) × In v.id b.missed))

broadcast-IsToldOrMissed :
    (w : Surroundings) (ann : Announcement) (n : ℕ) (vs : List Worker) (v : Worker)
    → In v vs
    → IsToldOrMissed w ann (broadcast w ann n vs) v
unfolding broadcast
broadcast-IsToldOrMissed w ann n [] v h = absurd h
broadcast-IsToldOrMissed w ann n (u ∷ us) v (inl e) =
    elim (Bool-cases (w.takes (announcement_envelope w ann n u))) [
      | inl b ↦ (
        n,
        inl (
          ap (λ x. w.takes (announcement_envelope w ann n x)) e ∙ b,
          rw b (inl (ap (announcement_envelope w ann n) e)),
        ),
      )
      | inr b ↦ (
        n,
        inr (
          ap (λ x. w.takes (announcement_envelope w ann n x)) e ∙ b,
          rw b (inl (ap (λ x. x.id) e)),
        ),
      )
    ]
broadcast-IsToldOrMissed w ann n (u ∷ us) v (inr r) =
    let (m, ih) = broadcast-IsToldOrMissed w ann (suc n) us v r in
    elim (Bool-cases (w.takes (announcement_envelope w ann n u))) [
      | inl b ↦ (m, elim ih [ inl (t, k) ↦ inl (t, rw b (inr k)) | inr (t, k) ↦ inr (t, rw b k) ])
      | inr b ↦ (m, elim ih [ inl (t, k) ↦ inl (t, rw b k) | inr (t, k) ↦ inr (t, rw b (inr k)) ])
    ]

-- How many nodes have a status.
unfoldable pub nodes_with : Text → List RolloutNode → ℕ
nodes_with status [] = 0
nodes_with status (n ∷ ns) =
    let rest = nodes_with status ns in if eqb n.status status then suc rest else rest

count_of-count_statuses :
    (status : Text) (counts : Assoc ℕ) (ns : List RolloutNode)
    → count_of status (count_statuses counts ns) ≡ count_of status counts + nodes_with status ns
unfolding count_statuses nodes_with
count_of-count_statuses status counts [] = omega arith
count_of-count_statuses status counts (n ∷ ns) =
    let c = count_of n.status counts in
    let ih = count_of-count_statuses status (insert n.status (c + 1) counts) ns in
    let l = lookup-insert n.status status (c + 1) counts in
    elim (Bool-cases (eqb n.status status)) [
      | inl b ↦
          let l' : lookup status (insert n.status (c + 1) counts) ≡ some (c + 1) = rw b at l in
          let k : count_of status (insert n.status (c + 1) counts) ≡ c + 1 = ap or_zero l' in
          let q : c ≡ count_of status counts =
            ap (λ s. count_of s counts) ((eqb_iff n.status status).0 b) in
          rw b (omega (arith, ih, k, q))
      | inr b ↦
          let l' : lookup status (insert n.status (c + 1) counts) ≡ lookup status counts =
            rw b at l in
          let k : count_of status (insert n.status (c + 1) counts) ≡ count_of status counts =
            ap or_zero l' in
          rw b (omega (arith, ih, k))
    ]
  where
    or_zero : Option ℕ → ℕ
    or_zero none = 0
    or_zero (some n) = n

announce_update-ok :
    (w : Surroundings) (g : Graph) (ann full : Announcement) (by : Text) (s s' : UpdateStore)
    (b : Broadcast)
    → announce_update w g ann by s ≡ (ok (full, b), s')
    → b ≡ broadcast w full 1 (workers_by_id g)
unfolding announce_update
announce_update-ok w g ann full by s s' b h = ground arith

-- Of each worker of the chart, an announcement that is accepted was delivered in an envelope to it
-- that the backend took, or the backend did not take the envelope to it and the worker is named
-- among those that it did not reach. The two together are as many as there are workers.
pub announce_update-IsToldOrMissed :
    (w : Surroundings) (g : Graph) (ann full : Announcement) (by : Text) (s s' : UpdateStore)
    (b : Broadcast)
    → announce_update w g ann by s ≡ (ok (full, b), s')
    → ((v : Worker) → In v (workers g) → IsToldOrMissed w full b v)
      × (length b.delivered + length b.missed ≡ length (workers g))
unfolding workers_by_id
announce_update-IsToldOrMissed w g ann full by s s' b h =
    let before : Worker → Worker → Bool = λ x y. text_ltb x.id y.id in
    let e = announce_update-ok w g ann full by s s' b h in
    (
      λ v i.
          subst (λ c. IsToldOrMissed w full c v) (sym e)
            (broadcast-IsToldOrMissed w full 1 (workers_by_id g) v
              (In-order_by before v (workers g) i)),
      subst (λ c. length c.delivered + length c.missed ≡ length (workers g)) (sym e)
          (length-broadcast w full 1 (workers_by_id g) ∙ length-order_by before (workers g)),
    )

broadcast-parse_announcement :
    (w : Surroundings) (decode : Text → Option Announcement) (ann : Announcement) (n : ℕ)
    (vs : List Worker)
    → decode (w.encode ann) ≡ some ann
    → is_empty ann.kind ≡ false
    → is_empty ann.version ≡ false
    → All (λ e. parse_announcement decode e ≡ some ann) (broadcast w ann n vs).delivered
unfolding broadcast parse_announcement
broadcast-parse_announcement w decode ann n [] d k v = tt
broadcast-parse_announcement w decode ann n (u ∷ us) d k v =
    let ih = broadcast-parse_announcement w decode ann (suc n) us d k v in
    let env = announcement_envelope w ann n u in
    let p : parse_announcement decode env ≡ some ann =
      rw (parse_announcement, eqb_refl subject_update_available, d, k, v) refl in
    elim (Bool-cases (w.takes env)) [ inl b ↦ rw b (p, ih) | inr b ↦ rw b ih ]

is_kind-is_empty : (kind : Text) → is_kind kind ≡ true → is_empty kind ≡ false
unfolding is_kind cut
is_kind-is_empty [] h = cc
is_kind-is_empty (c ∷ cs) h = refl

length-map : {A B : Type 0} (f : A → B) (xs : List A) → length (map f xs) ≡ length xs
length-map f [] = refl
length-map f (x ∷ xs) = ap suc (length-map f xs)

-- A node that is the worker's.
abbrev pub HasNode : Worker → List RolloutNode → Type 0
HasNode v ns = (n : RolloutNode) × (In n ns × ((n.worker_id ≡ v.id) × (n.worker_status ≡ v.status)))

rollout_node_for-worker_id :
    (v : Worker) (o : Option WorkerUpdateState) (kind id : Text)
    → ((rollout_node_for v o kind id).worker_id ≡ v.id)
      × ((rollout_node_for v o kind id).worker_status ≡ v.status)
unfolding rollout_node_for
rollout_node_for-worker_id v none kind id = (refl, refl)
rollout_node_for-worker_id v (some st) kind id = (ground arith, ground arith)

In-map : {A B : Type 0} (f : A → B) (x : A) (xs : List A) → In x xs → In (f x) (map f xs)
In-map f x [] h = h
In-map f x (y ∷ ys) (inl e) = inl (ap f e)
In-map f x (y ∷ ys) (inr h) = inr (In-map f x ys h)

abbrev pub IsCounted : Graph → Rollout → Type 0
IsCounted g r =
    (length r.nodes ≡ length (workers g))
    × ((v : Worker) → In v (workers g) → HasNode v r.nodes)
    × ((status : Text) → count_of status r.counts ≡ nodes_with status r.nodes)

rollout_of-IsCounted :
    (kind : Text) (ann : Option Announcement) (id : Text) (g : Graph) (s : UpdateStore)
    → IsCounted g (rollout_of kind ann id g s)
unfolding rollout_of workers_by_id lookup
rollout_of-IsCounted kind ann id g s =
    let nodes = (rollout_of kind ann id g s).nodes in
    (
      length-map _ (workers_by_id g) ∙ length-order_by (λ x y. text_ltb x.id y.id) (workers g),
      λ v h. (
        rollout_node_for v (state_of v.id kind s.states) kind id,
        (
          In-map (λ x. rollout_node_for x (state_of x.id kind s.states) kind id) v (workers_by_id g)
              (In-order_by (λ x y. text_ltb x.id y.id) v (workers g) h),
          rollout_node_for-worker_id v (state_of v.id kind s.states) kind id,
        ),
      ),
      λ status. let c = count_of-count_statuses status [] nodes in omega (arith, c),
    )

newest_of_kind-IsCounted :
    (kind : Text) (g : Graph) (s : UpdateStore) (anns : List Announcement)
    → IsCounted g (newest_of_kind kind g s anns)
newest_of_kind-IsCounted kind g s [] = rollout_of-IsCounted kind none [] g s
newest_of_kind-IsCounted kind g s (a ∷ anns) = rollout_of-IsCounted kind (some a) a.id g s

-- A rollout has as many nodes as the chart has workers, among them for each worker one with its id
-- and its status in the chart, and counts of each status the nodes that have it.
pub update_rollout-IsCounted :
    (kind id : Text) (g : Graph) (s : UpdateStore) (r : Rollout)
    → update_rollout kind id g s ≡ ok r
    → IsCounted g r
unfolding update_rollout
update_rollout-IsCounted kind id g s r h = elim (Bool-cases (is_kind kind)) [
  | inr b ↦ let h' : err invalid_update ≡ ok r = rw b at h in cc
  | inl b ↦ elim (Bool-cases (is_empty id)) [
    | inl e ↦
        let anns = list_update_announcements kind 1 s.announcements in
        let h' : ok (newest_of_kind kind g s anns) ≡ ok r = rw (b, e) at h in
        let q : newest_of_kind kind g s anns ≡ r = cc in
        subst (IsCounted g) q (newest_of_kind-IsCounted kind g s anns)
    | inr e ↦ elim (Option-cases (get_update_announcement id s.announcements)) [
      | inl f ↦ let h' : err announcement_unknown ≡ ok r = rw (b, e, f) at h in cc
      | inr (a, f) ↦
          let h' : ok (rollout_of kind (some a) id g s) ≡ ok r = rw (b, e, f) at h in
          let q : rollout_of kind (some a) id g s ≡ r = cc in
          subst (IsCounted g) q (rollout_of-IsCounted kind (some a) id g s)
    ]
  ]
]

-- What is announced has a kind and a version.
announce_update-named :
    (w : Surroundings) (g : Graph) (ann full : Announcement) (by : Text) (s s' : UpdateStore)
    (b : Broadcast)
    → announce_update w g ann by s ≡ (ok (full, b), s')
    → (is_empty full.kind ≡ false) × (is_empty full.version ≡ false)
unfolding announce_update
announce_update-named w g ann full by s s' b h =
    let k = is_kind-is_empty ann.kind in
    let e : stamped w ann by ≡ full = ground arith in
    subst (λ a. (is_empty a.kind ≡ false) × (is_empty a.version ≡ false)) e
      (ground arith, ground arith)

-- Where the JSON of an announcement can be read back, each envelope that an accepted announcement
-- was sent in is read as that announcement by whoever receives it.
pub announce_update-parse_announcement :
    (w : Surroundings) (decode : Text → Option Announcement) (g : Graph) (ann full : Announcement)
    (by : Text) (s s' : UpdateStore) (b : Broadcast)
    → decode (w.encode full) ≡ some full
    → announce_update w g ann by s ≡ (ok (full, b), s')
    → All (λ e. parse_announcement decode e ≡ some full) b.delivered
announce_update-parse_announcement w decode g ann full by s s' b d h =
    let e = announce_update-ok w g ann full by s s' b h in
    let n = announce_update-named w g ann full by s s' b h in
    subst (λ c. All (λ e. parse_announcement decode e ≡ some full) c.delivered) (sym e)
      (broadcast-parse_announcement w decode full 1 (workers_by_id g) d n.0 n.1)
