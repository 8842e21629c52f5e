-- ===== src/Store/Weights/Trip.antt =====
-- store/weights.py: what is loaded after a save, while Redis does not answer.
use becertain.Prelude.{
  ℕ, ◌≡◌, refl, ap, ◌∙◌, String, true, false, Option, some, str_eq, ltb, length, arith, eq_iff,
}
use becertain.Value.{Fields, get_field}
use becertain.Store.Documents.{Json}
use becertain.Store.Client.{Redis, Store, lookup, get_redis, redis_get, redis_set}
use becertain.Store.Client.Bounds.{IsSound}
use becertain.Store.Client.Bounds.Call.{set}
use becertain.Store.Client.Offline.{after-offline, text_after, attempt-offline, offline-get_redis}
use becertain.Store.Client.Bounds.{get_redis-dicts}
use becertain.Store.Weights.{
  weights_key, weights_document, read_weights, load_weights, save_weights,
}

module _ {R : Type 0} (redis : Redis R) (down : (r : R) → (redis.connect r).0 ≡ false) where
  redis_get-offline :
      (key : String) (now then' : ℕ) (s : Store R)
      → s.redis_client ≡ false
      → (redis_get redis key now then' s).0 ≡ lookup key s.fallback
  unfolding redis_get
  redis_get-offline key now then' s off =
      ap (λ p. p.0)
        (attempt-offline redis down (redis.get key) (λ t. (lookup key t.fallback, t))
          (get_redis redis now then' s) (offline-get_redis redis down now then' s off).0)
      ∙ ap (lookup key) (get_redis-dicts redis now then' s).0

  pub redis_get-redis_set :
      (key value : String) (ttl : Option ℕ) (n n' m m' : ℕ) (s : Store R)
      → s.redis_client ≡ false
      → IsSound redis s
      → ltb (length s.fallback) redis.max_fallback_size ≡ true
      → (redis_get redis key m m' (redis_set redis key value ttl n n' s).1).0 ≡ some value
  unfolding text_after
  redis_get-redis_set key value ttl n n' m m' s off i room =
      let view = after-offline redis down (set key value ttl) n n' s off i in
      redis_get-offline key m m' _ view.0 ∙ view.2 key ∙ rw room (ground (arith, eq_iff key key))

  module _ {F : Type 0} (json : Json F) where
    -- While no connection succeeds, and the dict of the process has room, `load` gives the weights and
    -- the count that `save` was given, where their document is dumped as a text that is not empty and
    -- that is loaded as the same document.
    pub load_weights-save_weights :
        (tenant_id text : String) (weights : Fields F) (count : ℕ) (ttl : Option ℕ) (n n' m m' : ℕ)
        (s : Store R)
        → json.dumps (weights_document weights count) ≡ some text
        → json.loads text ≡ some (weights_document weights count)
        → str_eq text "" ≡ false
        → s.redis_client ≡ false
        → IsSound redis s
        → ltb (length s.fallback) redis.max_fallback_size ≡ true
        → let s' = save_weights json redis tenant_id weights count ttl n n' s in
          (load_weights json redis tenant_id m m' s').0
          ≡ some (some (record { weights = weights; update_count = count }))
    unfolding load_weights save_weights get_field
    load_weights-save_weights tenant_id text weights count ttl n n' m m' s d l e off i room =
        rw (save_weights, d)
          (ap (read_weights json)
              (redis_get-redis_set (weights_key tenant_id) text ttl n n' m m' s off i room)
            ∙ rw (e, l) refl)
