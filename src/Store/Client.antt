-- ===== src/Store/Client.antt =====
-- store/client.py. The module's globals are a state; Redis itself is a parameter. Instants are
-- readings of the monotonic clock; each call reads it twice, at `now` and, after a failure to
-- connect, at `then'`.
pub mod Bounds
pub mod Offline
pub mod Recent
pub mod Cooldown
use becertain.Prelude.{
  ℕ, zero, suc, ◌+◌, ◌-◌, ◌<◌, String, Bool, true, false, ◌&&◌, List, [], ◌∷◌, ◌++◌, Option, none,
  some, if◌then◌else◌, str_eq, ltb, length, drop, filter, map,
}

-- What a pipeline sends: the ends of `ltrim` are `-n` and `-1`.
pub data Command : Type 0 where
  rpush : String → String → Command
  ltrim_last : String → ℕ → Command
  expire : String → ℕ → Command

-- The client library and the server: each call answers, or fails with one of the errors that the
-- code catches (`none`, or `false` where there is nothing to return). `matches` is `fnmatch`.
pub record Redis (R : Type 0) : Type 0 where
  pub connect : R → Bool × R
  pub get : String → R → Option (Option String) × R
  pub setex : String → ℕ → String → R → Bool × R
  pub set : String → String → R → Bool × R
  pub delete : String → R → Bool × R
  pub execute : List Command → R → Bool × R
  pub lrange : String → R → Option (List String) × R
  pub scan : String → R → Option (List String) × R
  pub matches : String → String → Bool
  pub max_fallback_size : ℕ
  pub retry_cooldown : ℕ

pub record Store (R : Type 0) : Type 0 where
  pub server : R
  pub redis_client : Bool
  pub fallback : List (String × String)
  pub fallback_lists : List (String × List String)
  pub using_fallback : Bool
  pub retry_after : ℕ

module _ {A : Type 0} where
  -- `d.get(key)`
  abbrev pub lookup : String → List (String × A) → Option A
  lookup key [] = none
  lookup key ((k, v) ∷ d) = if str_eq k key then some v else lookup key d

  -- `d[key] = value`
  abbrev pub assign : String → A → List (String × A) → List (String × A)
  assign key value [] = (key, value) ∷ []
  assign key value ((k, v) ∷ d) =
      if str_eq k key then (k, value) ∷ d else (k, v) ∷ assign key value d

  -- `d.pop(key, None)`
  abbrev pub discard : String → List (String × A) → List (String × A)
  discard key [] = []
  discard key ((k, v) ∷ d) = if str_eq k key then d else (k, v) ∷ discard key d

abbrev pub or_empty_list : Option (List String) → List String
or_empty_list none = []
or_empty_list (some items) = items

-- `if max_len and len(lst) > max_len: del lst[:-max_len]`
abbrev pub trim : Option ℕ → List String → List String
trim none items = items
trim (some zero) items = items
trim (some (suc n)) items =
    if ltb (suc n) (length items) then drop (length items - suc n) items else items

abbrev pub positive : Option ℕ → Option ℕ
positive none = none
positive (some zero) = none
positive (some (suc n)) = some (suc n)

abbrev pub commands : String → String → Option ℕ → Option ℕ → List Command
commands key value ttl max_len =
    rpush key value
    ∷ (elim (positive max_len) [ none ↦ [] | some n ↦ ltrim_last key n ∷ [] ]
        ++ elim (positive ttl) [ none ↦ [] | some t ↦ expire key t ∷ [] ])

module _ {R : Type 0} (redis : Redis R) where
  -- `get_redis`: whether there is a client.
  unfoldable pub get_redis : ℕ → ℕ → Store R → Bool × Store R
  get_redis now then' s =
      if s.redis_client
      then (true, s)
      else if ltb now s.retry_after
      then (false, record s { using_fallback = true })
      else let (connected, server) = redis.connect s.server in
        if connected
        then (
          true,
          record s {
            server = server;
            redis_client = true;
            retry_after = 0;
            using_fallback = false;
          },
        )
        else (
          false,
          record s {
            server = server;
            retry_after = then' + redis.retry_cooldown;
            using_fallback = true;
          },
        )

  abbrev pub settle : {A : Type 0} → (Store R → A × Store R) → Store R → Option A → A × Store R
  settle fall_back s none = fall_back s
  settle fall_back s (some a) = (a, s)

  -- The frame of every operation: a call to Redis, and the fallback without a client or on a failure.
  unfoldable pub attempt :
      {A : Type 0} → (R → Option A × R) → (Store R → A × Store R) → Bool × Store R → A × Store R
  attempt call fall_back (false, s) = fall_back s
  attempt call fall_back (true, s) =
      let (answer, server) = call s.server in settle fall_back (record s { server = server }) answer

  abbrev pub done : Bool × R → Option (Unit {0}) × R
  done (true, server) = (some tt, server)
  done (false, server) = (none, server)

  unfoldable pub redis_get : String → ℕ → ℕ → Store R → Option String × Store R
  redis_get key now then' s =
      attempt (redis.get key) (λ s. (lookup key s.fallback, s)) (get_redis now then' s)

  abbrev pub set_fallback : String → String → Store R → Unit {0} × Store R
  set_fallback key value s =
      if ltb (length s.fallback) redis.max_fallback_size
      then (tt, record s { fallback = assign key value s.fallback })
      else (tt, s)

  unfoldable pub redis_set : String → String → Option ℕ → ℕ → ℕ → Store R → Unit {0} × Store R
  redis_set key value ttl now then' s =
      attempt
        (λ r. done (elim (positive ttl) [
          | none ↦ redis.set key value r
          | some t ↦ redis.setex key t value r
        ]))
        (set_fallback key value) (get_redis now then' s)

  abbrev pub delete_fallback : String → Store R → Unit {0} × Store R
  delete_fallback key s = (
    tt,
    record s { fallback = discard key s.fallback; fallback_lists = discard key s.fallback_lists },
  )

  unfoldable pub redis_delete : String → ℕ → ℕ → Store R → Unit {0} × Store R
  redis_delete key now then' s =
      attempt (λ r. done (redis.delete key r)) (delete_fallback key) (get_redis now then' s)

  abbrev pub push_fallback : String → String → Option ℕ → Store R → Unit {0} × Store R
  push_fallback key value max_len s =
      let items = or_empty_list (lookup key s.fallback_lists) ++ (value ∷ []) in
      (tt, record s { fallback_lists = assign key (trim max_len items) s.fallback_lists })

  unfoldable pub redis_rpush :
      String → String → Option ℕ → Option ℕ → ℕ → ℕ → Store R → Unit {0} × Store R
  redis_rpush key value ttl max_len now then' s =
      attempt (λ r. done (redis.execute (commands key value ttl max_len) r))
        (push_fallback key value max_len) (get_redis now then' s)

  unfoldable pub redis_lrange : String → ℕ → ℕ → Store R → List String × Store R
  redis_lrange key now then' s =
      attempt (redis.lrange key) (λ s. (or_empty_list (lookup key s.fallback_lists), s))
        (get_redis now then' s)

  unfoldable pub redis_scan : String → ℕ → ℕ → Store R → List String × Store R
  redis_scan pattern' now then' s =
      attempt (redis.scan pattern')
        (λ s. (filter (λ k. redis.matches k pattern') (map (λ entry. entry.0) s.fallback), s))
        (get_redis now then' s)
