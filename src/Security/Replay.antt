-- ===== src/Security/Replay.antt =====
-- `_assert_jti_not_replayed` over the dict `_jti_seen_cache`. Instants are readings of the monotonic
-- clock, in ticks, and the time to live is in ticks too; the lock makes each call one step.
pub mod Window
use becertain.Prelude.{
  ℕ, ◌-◌, String, Bool, not, List, [], ◌∷◌, Option, none, some, if◌then◌else◌, ltb, str_eq, filter,
}
use becertain.Http.{Reply, ok, raised, http_error}

abbrev pub SeenCache : Type 0
SeenCache = List (String × ℕ)

abbrev pub seen_at : String → SeenCache → Option ℕ
seen_at jti [] = none
seen_at jti ((id, at) ∷ cache) = if str_eq id jti then some at else seen_at jti cache

-- `now - ts > ttl`
abbrev pub is_stale_entry : ℕ → ℕ → String × ℕ → Bool
is_stale_entry ttl now (id, at) = ltb ttl (now - at)

-- The stale entries are popped before the test, and stay popped when the call raises.
unfoldable pub assert_jti_not_replayed : ℕ → String → ℕ → SeenCache → Reply Unit × SeenCache
assert_jti_not_replayed ttl jti now cache =
    let fresh = filter (λ entry. not (is_stale_entry ttl now entry)) cache in
    elim (seen_at jti fresh) [
      | some at ↦ (raised (http_error 401 "Replayed context token"), fresh)
      | none ↦ (ok tt, (jti, now) ∷ fresh)
    ]
