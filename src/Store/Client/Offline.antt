-- ===== src/Store/Client/Offline.antt =====
-- While Redis does not answer, the store is a pair of dicts of the process.
use mathlib.Core.Path.{subst}
use becertain.Prelude.{
  ℕ, String, Bool, true, false, ◌&&◌, List, [], ◌∷◌, ◌++◌, Option, none, some, if◌then◌else◌,
  str_eq, ltb, length, eq_iff, arith, ◌≡◌, refl, sym, ap, ◌∙◌, Bool-cases, inl, inr,
}
use becertain.Store.Client.{
  Redis, Store, lookup, assign, discard, or_empty_list, trim, attempt, get_redis, redis_get,
  redis_set, redis_delete, redis_rpush, redis_lrange, redis_scan,
}
use becertain.Store.Client.Bounds.{
  Call, after, IsSound, get_redis-dicts, lookup-assign, lookup-discard,
}
use becertain.Store.Client.Bounds.Call.{get, set, delete, push, range, scan}

module _ {R : Type 0} (redis : Redis R) where
  abbrev pub items : String → Store R → List String
  items key s = or_empty_list (lookup key s.fallback_lists)

  -- The abstract view: the text and the list under every key, after a call.
  unfoldable pub text_after : Call → Store R → String → Option String
  text_after (set key value ttl) s j =
      if ltb (length s.fallback) redis.max_fallback_size && str_eq key j
      then some value
      else lookup j s.fallback
  text_after (delete key) s j = if str_eq key j then none else lookup j s.fallback
  text_after _ s j = lookup j s.fallback

  unfoldable pub items_after : Call → Store R → String → List String
  items_after (push key value ttl max_len) s j =
      if str_eq key j then trim max_len (items j s ++ (value ∷ [])) else items j s
  items_after (delete key) s j = if str_eq key j then [] else items j s
  items_after _ s j = items j s

  pushed :
      (key value : String) (max_len : Option ℕ) (s : Store R) (j : String)
      → or_empty_list
          (lookup j (assign key (trim max_len (items key s ++ (value ∷ []))) s.fallback_lists))
        ≡ (if str_eq key j then trim max_len (items j s ++ (value ∷ [])) else items j s)
  pushed key value max_len s j =
      let found =
        lookup-assign j key (trim max_len (items key s ++ (value ∷ []))) s.fallback_lists in
      elim (Bool-cases (str_eq key j)) [
        | inl same ↦ rw same (
            ap or_empty_list (rw same at found)
            ∙ ap (λ k. trim max_len (items k s ++ (value ∷ []))) ((eq_iff key j).0 same))
        | inr other ↦ rw other (ap or_empty_list (rw other at found))
      ]

  module _ (down : (r : R) → (redis.connect r).0 ≡ false) where
    pub offline-get_redis :
        (now then' : ℕ) (s : Store R)
        → s.redis_client ≡ false
        → ((get_redis redis now then' s).0 ≡ false)
          × ((get_redis redis now then' s).1.redis_client ≡ false)
          × ((get_redis redis now then' s).1.using_fallback ≡ true)
    unfolding get_redis
    offline-get_redis now then' s off = (
      ground (arith, down s.server),
      ground (arith, down s.server),
      ground (arith, down s.server),
    )

    pub attempt-offline :
        {A : Type 0} (call : R → Option A × R) (fall_back : Store R → A × Store R)
        (client : Bool × Store R)
        → client.0 ≡ false
        → attempt redis call fall_back client ≡ fall_back client.1
    unfolding attempt
    attempt-offline call fall_back (false, s) off = refl
    attempt-offline call fall_back (true, s) on = absurd (ground arith)

    -- What a call sees and leaves of a store, whose dicts are those of `s`.
    IsView : Call → Store R → Store R → Type 0
    IsView call s s' =
        (s'.redis_client ≡ false)
        × (s'.using_fallback ≡ true)
        × ((j : String) → lookup j s'.fallback ≡ text_after call s j)
        × ((j : String) → items j s' ≡ items_after call s j)

    fallback-IsView :
        {A : Type 0} (call : Call) (ask : R → Option A × R) (fall_back : Store R → A × Store R)
        (now then' : ℕ) (s : Store R)
        → s.redis_client ≡ false
        → ((t : Store R)
            → t.redis_client ≡ false
            → t.using_fallback ≡ true
            → t.fallback ≡ s.fallback
            → t.fallback_lists ≡ s.fallback_lists
            → IsView call s (fall_back t).1)
        → IsView call s (attempt redis ask fall_back (get_redis redis now then' s)).1
    fallback-IsView call ask fall_back now then' s off step =
        let (refused, still, using) = offline-get_redis now then' s off in
        let (same, same_lists) = get_redis-dicts redis now then' s in
        let eq = attempt-offline ask fall_back (get_redis redis now then' s) refused in
        subst (λ r. IsView call s r.1) (sym eq)
          (step (get_redis redis now then' s).1 still using same same_lists)

    -- While no connection succeeds, a call leaves under every key what the abstract view says: a
    -- set stores its value if the dict has room, a delete clears the text and the list, a push
    -- appends to the list and keeps its last items, and the other calls change nothing.
    pub after-offline :
        (call : Call) (now then' : ℕ) (s : Store R)
        → s.redis_client ≡ false
        → IsSound redis s
        → let s' = after redis call now then' s in
          (s'.redis_client ≡ false)
          × (s'.using_fallback ≡ true)
          × ((j : String) → lookup j s'.fallback ≡ text_after call s j)
          × ((j : String) → items j s' ≡ items_after call s j)
    unfolding IsView text_after items_after redis_get redis_set redis_delete redis_rpush
        redis_lrange redis_scan
    after-offline (get key) now then' s off i =
        fallback-IsView (get key) _ _ now then' s off (λ t off' using same same_lists. (
          off',
          using,
          λ j. ap (lookup j) same,
          λ j. ap (λ d. or_empty_list (lookup j d)) same_lists,
        ))
    after-offline (range key) now then' s off i =
        fallback-IsView (range key) _ _ now then' s off (λ t off' using same same_lists. (
          off',
          using,
          λ j. ap (lookup j) same,
          λ j. ap (λ d. or_empty_list (lookup j d)) same_lists,
        ))
    after-offline (scan pattern') now then' s off i =
        fallback-IsView (scan pattern') _ _ now then' s off (λ t off' using same same_lists. (
          off',
          using,
          λ j. ap (lookup j) same,
          λ j. ap (λ d. or_empty_list (lookup j d)) same_lists,
        ))
    after-offline (set key value ttl) now then' s off i =
        fallback-IsView (set key value ttl) _ _ now then' s off (λ t off' using same same_lists.
          elim (Bool-cases (ltb (length s.fallback) redis.max_fallback_size)) [
            | inl room ↦
                let room' = ap (λ d. ltb (length d) redis.max_fallback_size) same ∙ room in
                rw (room', room)
                  (
                    off',
                    using,
                    λ j.
                        ap (λ d. lookup j (assign key value d)) same
                        ∙ lookup-assign j key value s.fallback,
                    λ j. ap (λ d. or_empty_list (lookup j d)) same_lists,
                  )
            | inr full ↦
                let full' = ap (λ d. ltb (length d) redis.max_fallback_size) same ∙ full in
                rw (full', full)
                  (
                    off',
                    using,
                    λ j. ap (lookup j) same,
                    λ j. ap (λ d. or_empty_list (lookup j d)) same_lists,
                  )
          ])
    after-offline (delete key) now then' s off i =
        fallback-IsView (delete key) _ _ now then' s off (λ t off' using same same_lists. (
          off',
          using,
          λ j. ap (λ d. lookup j (discard key d)) same ∙ lookup-discard j key s.fallback i.unique,
          λ j.
              ap (λ d. or_empty_list (lookup j (discard key d))) same_lists
              ∙ ground (arith, lookup-discard j key s.fallback_lists i.unique_lists),
        ))
    after-offline (push key value ttl max_len) now then' s off i =
        fallback-IsView (push key value ttl max_len) _ _ now then' s off
          (λ t off' using same same_lists. (
            off',
            using,
            λ j. ap (lookup j) same,
            λ j.
                ap
                  (λ d. or_empty_list (
                    lookup j
                      (assign key (trim max_len (or_empty_list (lookup key d) ++ (value ∷ []))) d)))
                  same_lists
                ∙ pushed key value max_len s j,
          ))

    pub redis_get-offline :
        (key : String) (now then' : ℕ) (s : Store R)
        → s.redis_client ≡ false
        → (redis_get redis key now then' s).0 ≡ lookup key s.fallback
    unfolding redis_get
    redis_get-offline key now then' s off =
        let refused = (offline-get_redis now then' s off).0 in
        ap (λ r. r.0) (attempt-offline _ _ (get_redis redis now then' s) refused)
        ∙ ap (lookup key) (get_redis-dicts redis now then' s).0

    pub redis_lrange-offline :
        (key : String) (now then' : ℕ) (s : Store R)
        → s.redis_client ≡ false
        → (redis_lrange redis key now then' s).0 ≡ items key s
    unfolding redis_lrange
    redis_lrange-offline key now then' s off =
        let refused = (offline-get_redis now then' s off).0 in
        ap (λ r. r.0) (attempt-offline _ _ (get_redis redis now then' s) refused)
        ∙ ap (λ d. or_empty_list (lookup key d)) (get_redis-dicts redis now then' s).1
