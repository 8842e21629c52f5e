-- ===== src/Store/Client/Bounds.antt =====
-- The dicts of the fallback stay well formed and bounded under every sequence of calls.
use becertain.Prelude.{
  ℕ, ◌+◌, ◌≤◌, String, Bool, true, false, List, [], ◌∷◌, Option, none, some, if◌then◌else◌, str_eq,
  ltb, length, eq_iff, arith, ◌≡◌, refl, Bool-cases, inl, inr,
}
use becertain.Store.Client.{
  Redis, Store, lookup, assign, discard, attempt, settle, set_fallback, delete_fallback,
  push_fallback, get_redis, redis_get, redis_set, redis_delete, redis_rpush, redis_lrange,
  redis_scan,
}

module _ {A : Type 0} where
  -- The keys of a dict are unique.
  abbrev pub HasUniqueKeys : List (String × A) → Type 0
  HasUniqueKeys [] = Unit
  HasUniqueKeys ((k, v) ∷ d) = (lookup k d ≡ none) × HasUniqueKeys d

  pub lookup-assign :
      (j key : String) (value : A) (d : List (String × A))
      → lookup j (assign key value d) ≡ (if str_eq key j then some value else lookup j d)
  lookup-assign j key value [] = refl
  lookup-assign j key value ((k, v) ∷ d) =
      ground (arith, lookup-assign j key value d, eq_iff k key, eq_iff k j, eq_iff key j)

  pub lookup-discard :
      (j key : String) (d : List (String × A))
      → HasUniqueKeys d
      → lookup j (discard key d) ≡ (if str_eq key j then none else lookup j d)
  lookup-discard j key [] u = ground arith
  lookup-discard j key ((k, v) ∷ d) u =
      ground (arith, lookup-discard j key d u.1, eq_iff k key, eq_iff k j, eq_iff key j)

  pub HasUniqueKeys-assign :
      (key : String) (value : A) (d : List (String × A))
      → HasUniqueKeys d
      → HasUniqueKeys (assign key value d)
  HasUniqueKeys-assign key value [] u = (refl, tt)
  HasUniqueKeys-assign key value ((k, v) ∷ d) u = elim (Bool-cases (str_eq k key)) [
    | inl same ↦ rw same u
    | inr other ↦ rw other (
      ground (arith, lookup-assign k key value d, eq_iff k key, eq_iff key k),
      HasUniqueKeys-assign key value d u.1,
    )
  ]

  pub HasUniqueKeys-discard :
      (key : String) (d : List (String × A)) → HasUniqueKeys d → HasUniqueKeys (discard key d)
  HasUniqueKeys-discard key [] u = tt
  HasUniqueKeys-discard key ((k, v) ∷ d) u = elim (Bool-cases (str_eq k key)) [
    | inl same ↦ rw same u.1
    | inr other ↦
        rw other (ground (arith, lookup-discard k key d u.1), HasUniqueKeys-discard key d u.1)
  ]

  length-assign :
      (key : String) (value : A) (d : List (String × A))
      → length (assign key value d) ≤ length d + 1
  length-assign key value [] = omega arith
  length-assign key value ((k, v) ∷ d) = ground (arith, length-assign key value d)

  length-discard : (key : String) (d : List (String × A)) → length (discard key d) ≤ length d
  length-discard key [] = omega arith
  length-discard key ((k, v) ∷ d) = ground (arith, length-discard key d)

-- A call of the store by another module.
pub data Call : Type 0 where
  get : String → Call
  set : String → String → Option ℕ → Call
  delete : String → Call
  push : String → String → Option ℕ → Option ℕ → Call
  range : String → Call
  scan : String → Call

module _ {R : Type 0} (redis : Redis R) where
  abbrev pub after : Call → ℕ → ℕ → Store R → Store R
  after (get key) now then' s = (redis_get redis key now then' s).1
  after (set key value ttl) now then' s = (redis_set redis key value ttl now then' s).1
  after (delete key) now then' s = (redis_delete redis key now then' s).1
  after (push key value ttl max_len) now then' s =
      (redis_rpush redis key value ttl max_len now then' s).1
  after (range key) now then' s = (redis_lrange redis key now then' s).1
  after (scan pattern') now then' s = (redis_scan redis pattern' now then' s).1

  abbrev pub after_all : List (Call × ℕ × ℕ) → Store R → Store R
  after_all [] s = s
  after_all ((call, now, then') ∷ calls) s = after_all calls (after call now then' s)

  pub record IsSound (s : Store R) : Type 0 where
    pub bounded : length s.fallback ≤ redis.max_fallback_size
    pub unique : HasUniqueKeys s.fallback
    pub unique_lists : HasUniqueKeys s.fallback_lists

  -- The connection does not touch the dicts.
  pub get_redis-dicts :
      (now then' : ℕ) (s : Store R)
      → ((get_redis redis now then' s).1.fallback ≡ s.fallback)
        × ((get_redis redis now then' s).1.fallback_lists ≡ s.fallback_lists)
  unfolding get_redis
  get_redis-dicts now then' s = (ground arith, ground arith)

  IsSound-get_redis :
      (now then' : ℕ) (s : Store R) → IsSound s → IsSound (get_redis redis now then' s).1
  IsSound-get_redis now then' s i =
      let (same, same_lists) = get_redis-dicts now then' s in
      record {
        bounded = rw same i.bounded;
        unique = rw same i.unique;
        unique_lists = rw same_lists i.unique_lists;
      }

  IsSound-settle :
      {A : Type 0} (fall_back : Store R → A × Store R) (s : Store R) (answer : Option A)
      → ((s : Store R) → IsSound s → IsSound (fall_back s).1)
      → IsSound s
      → IsSound (settle redis fall_back s answer).1
  IsSound-settle fall_back s none keeps i = keeps s i
  IsSound-settle fall_back s (some a) keeps i = i

  IsSound-attempt :
      {A : Type 0} (call : R → Option A × R) (fall_back : Store R → A × Store R)
      (client : Bool × Store R)
      → ((s : Store R) → IsSound s → IsSound (fall_back s).1)
      → IsSound client.1
      → IsSound (attempt redis call fall_back client).1
  unfolding attempt
  IsSound-attempt call fall_back (false, s) keeps i = keeps s i
  IsSound-attempt call fall_back (true, s) keeps i =
      let i' : IsSound (record s { server = (call s.server).1 }) = record {
        bounded = i.bounded;
        unique = i.unique;
        unique_lists = i.unique_lists;
      } in
      IsSound-settle fall_back _ (call s.server).0 keeps i'

  IsSound-set_fallback :
      (key value : String) (s : Store R) → IsSound s → IsSound (set_fallback redis key value s).1
  IsSound-set_fallback key value s i =
      elim (Bool-cases (ltb (length s.fallback) redis.max_fallback_size)) [
        | inl room ↦ rw room (record {
          bounded = ground (arith, length-assign key value s.fallback);
          unique = HasUniqueKeys-assign key value s.fallback i.unique;
          unique_lists = i.unique_lists;
        })
        | inr full ↦ rw full i
      ]

  IsSound-delete_fallback :
      (key : String) (s : Store R) → IsSound s → IsSound (delete_fallback redis key s).1
  IsSound-delete_fallback key s i = record {
    bounded = omega (arith, i.bounded, length-discard key s.fallback);
    unique = HasUniqueKeys-discard key s.fallback i.unique;
    unique_lists = HasUniqueKeys-discard key s.fallback_lists i.unique_lists;
  }

  IsSound-push_fallback :
      (key value : String) (max_len : Option ℕ) (s : Store R)
      → IsSound s
      → IsSound (push_fallback redis key value max_len s).1
  IsSound-push_fallback key value max_len s i = record {
    bounded = i.bounded;
    unique = i.unique;
    unique_lists = HasUniqueKeys-assign key _ s.fallback_lists i.unique_lists;
  }

  pub IsSound-after :
      (call : Call) (now then' : ℕ) (s : Store R) → IsSound s → IsSound (after call now then' s)
  unfolding redis_get redis_set redis_delete redis_rpush redis_lrange redis_scan
  IsSound-after (get key) now then' s i =
      IsSound-attempt _ _ _ (λ s i. i) (IsSound-get_redis now then' s i)
  IsSound-after (set key value ttl) now then' s i =
      IsSound-attempt _ _ _ (IsSound-set_fallback key value) (IsSound-get_redis now then' s i)
  IsSound-after (delete key) now then' s i =
      IsSound-attempt _ _ _ (IsSound-delete_fallback key) (IsSound-get_redis now then' s i)
  IsSound-after (push key value ttl max_len) now then' s i =
      IsSound-attempt _ _ _ (IsSound-push_fallback key value max_len)
        (IsSound-get_redis now then' s i)
  IsSound-after (range key) now then' s i =
      IsSound-attempt _ _ _ (λ s i. i) (IsSound-get_redis now then' s i)
  IsSound-after (scan pattern') now then' s i =
      IsSound-attempt _ _ _ (λ s i. i) (IsSound-get_redis now then' s i)

  -- Whatever calls are made, at whatever times, and whatever Redis answers to them: the dict of the
  -- fallback never has more than the configured number of items, and its keys and those of the
  -- lists stay unique.
  pub IsSound-after_all :
      (calls : List (Call × ℕ × ℕ)) (s : Store R) → IsSound s → IsSound (after_all calls s)
  IsSound-after_all [] s i = i
  IsSound-after_all ((call, now, then') ∷ calls) s i =
      IsSound-after_all calls (after call now then' s) (IsSound-after call now then' s i)
