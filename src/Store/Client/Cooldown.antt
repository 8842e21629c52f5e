-- ===== src/Store/Client/Cooldown.antt =====
-- The pause between attempts to connect.
use becertain.Prelude.{
  ℕ, ◌+◌, ◌<◌, true, false, ◌≡◌, refl, arith, ◌⊎◌, inl, inr, Bool-cases, ltb, ap,
}
use becertain.Store.Client.{Redis, Store, get_redis}

paused :
    {R : Type 0} (redis : Redis R) (now then' : ℕ) (s : Store R)
    → s.redis_client ≡ false
    → now < s.retry_after
    → get_redis redis now then' s ≡ (false, record s { using_fallback = true })
unfolding get_redis
paused redis now then' s off early = elim (Bool-cases (ltb now s.retry_after)) [
  | inl before ↦ rw (off, before) refl
  | inr past ↦ absurd (ground arith)
]

still_off :
    {R : Type 0} (redis : Redis R) (now then' : ℕ) (s : Store R)
    → (get_redis redis now then' s).0 ≡ false
    → (get_redis redis now then' s).1.redis_client ≡ false
unfolding get_redis
still_off redis now then' s failed = ground arith

next_attempt :
    {R : Type 0} (redis : Redis R) (now then' : ℕ) (s : Store R)
    → (get_redis redis now then' s).0 ≡ false
    → ((now < s.retry_after) × ((get_redis redis now then' s).1.retry_after ≡ s.retry_after))
      ⊎ ((get_redis redis now then' s).1.retry_after ≡ then' + redis.retry_cooldown)
unfolding get_redis
next_attempt redis now then' s failed = elim (Bool-cases (ltb now s.retry_after)) [
  | inl before ↦ inl (ground arith, ground arith)
  | inr past ↦ inr (ground arith)
]

-- After a call that found no client, Redis is left alone until the instant of the next attempt,
-- which is the one set before, or the cooldown after this failure.
pub get_redis_cooldown :
    {R : Type 0} (redis : Redis R) (now then' later then'' : ℕ) (s : Store R)
    → (get_redis redis now then' s).0 ≡ false
    → later < (get_redis redis now then' s).1.retry_after
    → let s' = (get_redis redis now then' s).1 in
      ((get_redis redis later then'' s').0 ≡ false)
      × ((get_redis redis later then'' s').1.server ≡ s'.server)
      × (((now < s.retry_after) × (s'.retry_after ≡ s.retry_after))
          ⊎ (s'.retry_after ≡ then' + redis.retry_cooldown))
get_redis_cooldown redis now then' later then'' s failed early =
    let s' = (get_redis redis now then' s).1 in
    let same = paused redis later then'' s' (still_off redis now then' s failed) early in
    (ap (λ r. r.0) same, ap (λ r. r.1.server) same, next_attempt redis now then' s failed)
