-- ===== src/Security/Replay/Window.antt =====
-- A token id is accepted once within the time to live, whatever is presented in between.
use mathlib.Core.Path.{subst}
use becertain.Prelude.{
  sym, ℕ, ◌-◌, ◌+◌, ◌≤◌, ◌<◌, ◌≡◌, refl, ◌≢◌, ◌↔◌, String, not, List, [], ◌∷◌, none, some,
  if◌then◌else◌, ltb, eq_iff, filter, All, arith, Bool-cases, Option-cases, inl, inr,
}
use becertain.Http.{ok, raised, http_error}
use becertain.Security.Replay.{SeenCache, seen_at, is_stale_entry, assert_jti_not_replayed}

-- The ids of a dict are unique.
abbrev pub HasUniqueTokens : SeenCache → Type 0
HasUniqueTokens [] = Unit
HasUniqueTokens ((id, at) ∷ cache) = (seen_at id cache ≡ none) × HasUniqueTokens cache

-- With unique ids the purge drops an id exactly when its entry is stale.
seen_at-purge :
    (ttl now : ℕ) (jti : String) (cache : SeenCache)
    → HasUniqueTokens cache
    → seen_at jti (filter (λ entry. not (is_stale_entry ttl now entry)) cache)
      ≡ elim (seen_at jti cache) [
        | none ↦ none
        | some at ↦ if ltb ttl (now - at) then none else some at
      ]
seen_at-purge ttl now jti [] u = refl
seen_at-purge ttl now jti ((id, at) ∷ cache) u =
    ground (arith, eq_iff id jti, seen_at-purge ttl now jti cache u.1)

HasUniqueTokens-purge :
    (ttl now : ℕ) (cache : SeenCache)
    → HasUniqueTokens cache
    → HasUniqueTokens (filter (λ entry. not (is_stale_entry ttl now entry)) cache)
HasUniqueTokens-purge ttl now [] u = tt
HasUniqueTokens-purge ttl now ((id, at) ∷ cache) u = elim (Bool-cases (ltb ttl (now - at))) [
  | inl stale ↦ rw stale (HasUniqueTokens-purge ttl now cache u.1)
  | inr kept ↦
      rw kept
        (rw (seen_at-purge ttl now id cache u.1, u.0) refl, HasUniqueTokens-purge ttl now cache u.1)
]

-- The ids stay unique, whether the call raises or not.
pub assert_jti-HasUniqueTokens :
    (ttl : ℕ) (jti : String) (now : ℕ) (cache : SeenCache)
    → HasUniqueTokens cache
    → HasUniqueTokens (assert_jti_not_replayed ttl jti now cache).1
unfolding assert_jti_not_replayed
assert_jti-HasUniqueTokens ttl jti now cache u =
    let fresh = filter (λ entry. not (is_stale_entry ttl now entry)) cache in
    let unique = HasUniqueTokens-purge ttl now cache u in
    elim (Option-cases (seen_at jti fresh)) [
      | inl new ↦
          let wrote : (assert_jti_not_replayed ttl jti now cache).1 ≡ (jti, now) ∷ fresh =
            ground arith in
          subst HasUniqueTokens (sym wrote) (new, unique)
      | inr (at, old) ↦
          let wrote : (assert_jti_not_replayed ttl jti now cache).1 ≡ fresh = ground arith in
          subst HasUniqueTokens (sym wrote) unique
    ]

-- A call accepts the id exactly if it has no entry of at most the time to live of age; then the
-- entry is this call's, at its instant, and a call that does not accept the id leaves its entry as it
-- is.
pub assert_jti_iff :
    (ttl : ℕ) (jti : String) (now : ℕ) (cache : SeenCache)
    → HasUniqueTokens cache
    → (((assert_jti_not_replayed ttl jti now cache).0 ≡ ok tt)
        ↔ ((at : ℕ) → seen_at jti cache ≡ some at → ttl < now - at))
      × ((assert_jti_not_replayed ttl jti now cache).0 ≡ ok tt
          → seen_at jti (assert_jti_not_replayed ttl jti now cache).1 ≡ some now)
      × ((assert_jti_not_replayed ttl jti now cache).0 ≢ ok tt
          → seen_at jti (assert_jti_not_replayed ttl jti now cache).1 ≡ seen_at jti cache)
unfolding assert_jti_not_replayed
assert_jti_iff ttl jti now cache u =
    let entry = seen_at-purge ttl now jti cache u in
    elim (Option-cases (seen_at jti cache)) [
      | inl none_yet ↦ (
        (λ h at e. absurd (ground arith), λ h. ground arith),
        λ h. ground (arith, eq_iff jti jti),
        λ h. absurd (h (ground arith)),
      )
      | inr (at, found) ↦ (
        (λ h at' e. ground arith, λ h. ground (arith, h at)),
        λ h. ground (arith, eq_iff jti jti),
        λ h. elim (Bool-cases (ltb ttl (now - at))) [
          | inl stale ↦ absurd (h (ground arith))
          | inr kept ↦ ground arith
        ],
      )
    ]

-- The calls of other requests, one after the other.
pub present : ℕ → List (String × ℕ) → SeenCache → SeenCache
present ttl [] cache = cache
present ttl ((jti, now) ∷ calls) cache =
    present ttl calls (assert_jti_not_replayed ttl jti now cache).1

-- Within the time to live of an accepted call, no other call removes its entry.
assert_jti_keeps :
    (ttl : ℕ) (jti : String) (at : ℕ) (other : String) (now : ℕ) (cache : SeenCache)
    → HasUniqueTokens cache
    → seen_at jti cache ≡ some at
    → now ≤ at + ttl
    → seen_at jti (assert_jti_not_replayed ttl other now cache).1 ≡ some at
unfolding assert_jti_not_replayed
assert_jti_keeps ttl jti at other now cache u found recent =
    ground (arith, eq_iff other jti, seen_at-purge ttl now jti cache u)

present_keeps :
    (ttl : ℕ) (jti : String) (at : ℕ) (calls : List (String × ℕ)) (cache : SeenCache)
    → HasUniqueTokens cache
    → seen_at jti cache ≡ some at
    → All (λ call. call.1 ≤ at + ttl) calls
    → HasUniqueTokens (present ttl calls cache) × (seen_at jti (present ttl calls cache) ≡ some at)
unfolding present
present_keeps ttl jti at [] cache u found recent = (u, found)
present_keeps ttl jti at ((other, now) ∷ calls) cache u found recent =
    present_keeps ttl jti at calls _ (assert_jti-HasUniqueTokens ttl other now cache u)
      (assert_jti_keeps ttl jti at other now cache u found recent.0) recent.1

refused :
    (ttl : ℕ) (jti : String) (at now : ℕ) (cache : SeenCache)
    → HasUniqueTokens cache
    → seen_at jti cache ≡ some at
    → now ≤ at + ttl
    → (assert_jti_not_replayed ttl jti now cache).0
      ≡ raised (http_error 401 "Replayed context token")
unfolding assert_jti_not_replayed
refused ttl jti at now cache u found recent = ground (arith, seen_at-purge ttl now jti cache u)

pub seen_at-accepted :
    (ttl : ℕ) (jti : String) (now : ℕ) (cache : SeenCache)
    → (assert_jti_not_replayed ttl jti now cache).0 ≡ ok tt
    → seen_at jti (assert_jti_not_replayed ttl jti now cache).1 ≡ some now
unfolding assert_jti_not_replayed
seen_at-accepted ttl jti now cache h = ground (arith, eq_iff jti jti)

-- A token id that was accepted is refused until its time to live is over, whatever calls were made
-- in between and whether those were accepted or not.
pub assert_jti_replay :
    (ttl : ℕ) (jti : String) (at now : ℕ) (calls : List (String × ℕ)) (cache : SeenCache)
    → HasUniqueTokens cache
    → (assert_jti_not_replayed ttl jti at cache).0 ≡ ok tt
    → All (λ call. call.1 ≤ at + ttl) calls
    → now ≤ at + ttl
    → let later = present ttl calls (assert_jti_not_replayed ttl jti at cache).1 in
      (assert_jti_not_replayed ttl jti now later).0
      ≡ raised (http_error 401 "Replayed context token")
assert_jti_replay ttl jti at now calls cache u accepted between recent =
    let first = (assert_jti_not_replayed ttl jti at cache).1 in
    let (unique, found) =
      present_keeps ttl jti at calls first (assert_jti-HasUniqueTokens ttl jti at cache u)
        (seen_at-accepted ttl jti at cache accepted) between in
    refused ttl jti at now (present ttl calls first) unique found recent
