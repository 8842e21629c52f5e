-- ===== src/Store/Client/Recent.antt =====
-- A list of the fallback keeps the last values that were pushed.
use becertain.Prelude.{
  ℕ, zero, suc, ◌+◌, ◌-◌, ◌≤◌, String, true, false, List, [], ◌∷◌, ◌++◌, Option, some, str_eq, ltb,
  length, length-append, length-drop, drop, eq_iff, arith, ◌≡◌, refl, sym, ap, ◌∙◌, Bool-cases, inl,
  inr,
}
use becertain.Prelude.{append_assoc, append_nil}
use becertain.Store.Client.{Redis, Store, trim, redis_lrange}
use becertain.Store.Client.Bounds.{Call, after, after_all, IsSound, IsSound-after}
use becertain.Store.Client.Bounds.Call.{push}
use becertain.Store.Client.Offline.{items, items_after, after-offline, redis_lrange-offline}

module _ {A : Type 0} where
  -- `xs[-n:]`
  abbrev pub last_n : ℕ → List A → List A
  last_n n xs = drop (length xs - n) xs

  drop-append : (k : ℕ) (xs ys : List A) → k ≤ length xs → drop k (xs ++ ys) ≡ drop k xs ++ ys
  drop-append zero xs ys le = refl
  drop-append (suc k) [] ys le = absurd (omega arith)
  drop-append (suc k) (x ∷ xs) ys le = drop-append k xs ys (omega arith)

  drop-drop : (a b : ℕ) (xs : List A) → drop a (drop b xs) ≡ drop (b + a) xs
  drop-drop a zero xs = let e : a ≡ 0 + a = omega arith in ap (λ k. drop k xs) e
  drop-drop zero (suc b) [] =
      let e : suc b ≡ suc b + 0 = omega arith in ap (λ k. drop {A = A} k []) e
  drop-drop (suc a) (suc b) [] =
      let e : suc (b + suc a) ≡ suc b + suc a = omega arith in ap (λ k. drop {A = A} k []) e
  drop-drop a (suc b) (x ∷ xs) =
      let e : suc (b + a) ≡ suc b + a = omega arith in
      drop-drop a b xs ∙ ap (λ k. drop k (x ∷ xs)) e

  last_n-append :
      (n : ℕ) (xs : List A) (x : A) → last_n n (last_n n xs ++ (x ∷ [])) ≡ last_n n (xs ++ (x ∷ []))
  last_n-append n xs x =
      let k = length xs - n in
      let moved = drop-append k xs (x ∷ []) (omega arith) in
      let e : k + (length (drop k xs ++ (x ∷ [])) - n) ≡ length (xs ++ (x ∷ [])) - n =
        omega (
          arith,
          length-append (drop k xs) (x ∷ []),
          length-append xs (x ∷ []),
          length-drop k xs,
        ) in
      ap (drop (length (drop k xs ++ (x ∷ [])) - n)) (sym moved)
      ∙ drop-drop (length (drop k xs ++ (x ∷ [])) - n) k (xs ++ (x ∷ []))
      ∙ ap (λ j. drop j (xs ++ (x ∷ []))) e

trim-eq_last_n : (n : ℕ) (xs : List String) → trim (some (suc n)) xs ≡ last_n (suc n) xs
trim-eq_last_n n xs = elim (Bool-cases (ltb (suc n) (length xs))) [
  | inl longer ↦ rw longer refl
  | inr fits ↦ let e : 0 ≡ length xs - suc n = ground arith in rw fits (ap (λ k. drop k xs) e)
]

module _ {R : Type 0} (redis : Redis R) (down : (r : R) → (redis.connect r).0 ≡ false) where
  abbrev pub pushes : String → Option ℕ → ℕ → List (String × ℕ × ℕ) → List (Call × ℕ × ℕ)
  pushes key ttl n [] = []
  pushes key ttl n ((value, now, then') ∷ values) =
      (push key value ttl (some n), now, then') ∷ pushes key ttl n values

  abbrev pub values_of : List (String × ℕ × ℕ) → List String
  values_of [] = []
  values_of ((value, now, then') ∷ values) = value ∷ values_of values

  pushed_more :
      (key : String) (ttl : Option ℕ) (n : ℕ) (old : List String) (values : List (String × ℕ × ℕ))
      (s : Store R)
      → s.redis_client ≡ false
      → IsSound redis s
      → items redis key s ≡ last_n (suc n) old
      → items redis key (after_all redis (pushes key ttl (suc n) values) s)
        ≡ last_n (suc n) (old ++ values_of values)
  unfolding items_after
  pushed_more key ttl n old [] s off i has = has ∙ ap (last_n (suc n)) (sym (append_nil old))
  pushed_more key ttl n old ((value, now, then') ∷ values) s off i has =
      let call = push key value ttl (some (suc n)) in
      let view = after-offline redis down call now then' s off i in
      let same : str_eq key key ≡ true = (eq_iff key key).1 refl in
      let now_has : items redis key (after redis call now then' s)
          ≡ last_n (suc n) (old ++ (value ∷ [])) =
        view.3 key
        ∙ rw same (
            ap (λ xs. trim (some (suc n)) (xs ++ (value ∷ []))) has
            ∙ trim-eq_last_n n (last_n (suc n) old ++ (value ∷ []))
            ∙ last_n-append (suc n) old value) in
      pushed_more key ttl n (old ++ (value ∷ [])) values (after redis call now then' s) view.0
        (IsSound-after redis call now then' s i) now_has
      ∙ ap (last_n (suc n)) (append_assoc old (value ∷ []) (values_of values))

  still_off :
      (key : String) (ttl : Option ℕ) (n : ℕ) (values : List (String × ℕ × ℕ)) (s : Store R)
      → s.redis_client ≡ false
      → IsSound redis s
      → (after_all redis (pushes key ttl (suc n) values) s).redis_client ≡ false
  still_off key ttl n [] s off i = off
  still_off key ttl n ((value, now, then') ∷ values) s off i =
      let call = push key value ttl (some (suc n)) in
      still_off key ttl n values (after redis call now then' s)
        (after-offline redis down call now then' s off i).0 (IsSound-after redis call now then' s i)

  -- While no connection succeeds, a list that had no items has, after any pushes under its key with
  -- one positive `max_len`, the last `max_len` of the values pushed, in their order; `redis_lrange`
  -- reads them.
  pub redis_lrange-pushes :
      (key : String) (ttl : Option ℕ) (n : ℕ) (values : List (String × ℕ × ℕ)) (s : Store R)
      (now then' : ℕ)
      → s.redis_client ≡ false
      → IsSound redis s
      → items redis key s ≡ []
      → (redis_lrange redis key now then' (after_all redis (pushes key ttl (suc n) values) s)).0
        ≡ last_n (suc n) (values_of values)
  redis_lrange-pushes key ttl n values s now then' off i fresh =
      let none_yet : 0 ≡ 0 - suc n = omega arith in
      redis_lrange-offline redis down key now then' _ (still_off key ttl n values s off i)
      ∙ pushed_more key ttl n [] values s off i (fresh ∙ ap (λ k. drop {A = String} k []) none_yet)
