-- ===== src/Auth/Challenges/SingleUse.antt =====
-- A challenge answers once, and only in its time.
use robotdreams.Base.{
  ℕ, zero, suc, ◌+◌, ◌≤◌, ◌<◌, ◌≡◌, ◌≢◌, refl, Text, Assoc, eqb_iff, eqb_refl, lookup, insert,
  lookup-insert, lookup-erase, length, length-insert-le, false, none, some, Option-cases, inl, inr,
  [], ◌∷◌, arith, if◌then◌else◌, ltb,
}
use robotdreams.Auth.Challenges.{
  Challenge, challenge_ttl, max_pending_challenges, is_over, sweep_expired, evict,
  evict_nearest_expiry, issue, consume,
}

-- Whatever came of it, a second use of a worker's challenge finds nothing.
pub consume_twice :
    (now later : ℕ) (k : Text) (m : Assoc Challenge)
    → (consume later k (consume now k m).1).0 ≡ none
unfolding consume
consume_twice now later k m = elim (Option-cases (lookup k m)) [
  | inl e ↦ ground (arith, e)
  | inr (ch, e) ↦ ground (arith, e, lookup-erase k k m, eqb_refl k)
]

-- Using one worker's challenge leaves those of the others.
pub lookup-consume_ne :
    (now : ℕ) (k j : Text) (m : Assoc Challenge) → k ≢ j → lookup j (consume now k m).1 ≡ lookup j m
unfolding consume
lookup-consume_ne now k j m ne = ground (arith, lookup-erase k j m, eqb_iff k j)

lookup-sweep_expired :
    (now : ℕ) (k : Text) (ch : Challenge) (m : Assoc Challenge)
    → is_over now ch ≡ false
    → lookup k m ≡ some ch
    → lookup k (sweep_expired now m) ≡ some ch
unfolding sweep_expired lookup
lookup-sweep_expired now k ch [] o h = cc
lookup-sweep_expired now k ch ((j, x) ∷ m) o h =
    ground (arith, eqb_iff j k, lookup-sweep_expired now k ch m o)

length-sweep_expired-le : (now : ℕ) (m : Assoc Challenge) → length (sweep_expired now m) ≤ length m
unfolding sweep_expired
length-sweep_expired-le now [] = omega arith
length-sweep_expired-le now ((j, x) ∷ m) = ground (arith, length-sweep_expired-le now m)

evict_small :
    (fuel : ℕ) (m : Assoc Challenge) → length m ≤ max_pending_challenges → evict fuel m ≡ m
unfolding evict
evict_small zero m h = refl
evict_small (suc fuel) m h = ground arith

-- Where the store is not full, a challenge that was issued answers with its nonce until its time
-- to live is over, and not after.
pub consume-issue :
    (now later : ℕ) (nonce k : Text) (m : Assoc Challenge)
    → length m < max_pending_challenges
    → (consume later k (issue now nonce k m)).0
      ≡ (if ltb (now + challenge_ttl) later then none else some nonce)
unfolding consume issue evict_nearest_expiry
consume-issue now later nonce k m h =
    let ch : Challenge = record { nonce = nonce; expires_at = now + challenge_ttl } in
    let l : lookup k (sweep_expired now (insert k ch m)) ≡ some ch =
      lookup-sweep_expired now k ch (insert k ch m) (ground arith)
        (ground (arith, lookup-insert k k ch m, eqb_refl k)) in
    let s = sweep_expired now (insert k ch m) in
    rw
      (evict_small (length s) s
        (omega (arith, length-sweep_expired-le now (insert k ch m), length-insert-le k ch m)))
      (ground (arith, l))
