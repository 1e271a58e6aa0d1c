-- ===== src/Webhook/Ring/Tail.antt =====
-- What a read of the ring returns.
use robotdreams.Base.{
  ℕ, zero, suc, ◌+◌, ◌-◌, ◌≡◌, refl, sym, ◌∙◌, ap, take, keep, Bool, not, Bool-cases, List, [], ◌∷◌,
  reverse, arith, inl, inr, if◌then◌else◌, ◌==◌,
}
use robotdreams.Messaging.{Envelope, TailFilter}
use robotdreams.Webhook.Ring.{RingStore, source, too_old, scan, tail}

abbrev pub fresh : TailFilter → Envelope → Bool
fresh filter env = not (too_old filter env)

scan-unlimited :
    (filter : TailFilter) (taken : ℕ) (l : List Envelope)
    → filter.limit ≡ 0
    → scan filter taken l ≡ keep (fresh filter) l
unfolding scan
scan-unlimited filter taken [] z = refl
scan-unlimited filter taken (env ∷ l) z =
    ground (arith, scan-unlimited filter taken l z, scan-unlimited filter (suc taken) l z)

-- One turn of the scan where a limit is set and `suc k` more envelopes fit.
scan-limited :
    (filter : TailFilter) (taken k : ℕ) (l : List Envelope)
    → filter.limit ≡ taken + suc k
    → scan filter taken l ≡ take (suc k) (keep (fresh filter) l)
unfolding scan
scan-limited filter taken k [] h = refl
scan-limited filter taken zero (env ∷ l) h = ground (arith, scan-limited filter taken zero l h)
scan-limited filter taken (suc k) (env ∷ l) h =
    ground (arith, scan-limited filter taken (suc k) l h, scan-limited filter (suc taken) k l)

-- A read goes from its end backwards through the list of its worker, or through the lists of all
-- workers one after another where none is named. It returns the envelopes that are not older than
-- `since`, and of those the first `limit` where a limit is set.
pub tail-eq-take-keep :
    (r : RingStore) (filter : TailFilter)
    → tail r filter ≡ (
        if filter.limit == 0
        then keep (fresh filter) (reverse (source r filter.worker_id))
        else take filter.limit (keep (fresh filter) (reverse (source r filter.worker_id))))
unfolding tail
tail-eq-take-keep r filter = elim (Bool-cases (filter.limit == 0)) [
  | inl z ↦
      rw (z, tail) (scan-unlimited filter 0 (reverse (source r filter.worker_id)) (ground arith))
  | inr nz ↦
      let e : filter.limit ≡ suc (filter.limit - 1) = ground arith in
      rw nz (
        scan-limited filter 0 (filter.limit - 1) (reverse (source r filter.worker_id))
          (omega (arith, e))
        ∙ ap (λ n. take n (keep (fresh filter) (reverse (source r filter.worker_id)))) (sym e))
]
