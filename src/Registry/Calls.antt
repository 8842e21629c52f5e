-- ===== src/Registry/Calls.antt =====
-- The states of engine/registry.py under every sequence of calls of `TenantRegistry`.
use becertain.Prelude.{
  String, Bool, List, [], ◌∷◌, Option, none, some, str_eq, arith, Bool-cases, inl, inr,
}
use becertain.Store.Client.{Store, lookup, assign, discard}
use becertain.Store.Client.Bounds.{HasUniqueKeys, HasUniqueKeys-assign, HasUniqueKeys-discard}
use becertain.Store.Weights.{StoredWeights}
use becertain.Enums.{Signal}
use becertain.Registry.{
  TenantState, coerce_weights, coerce_update_count, initial_weights, signal_of,
}
use becertain.Value.{dict, int, pos}
use becertain.Registry.Weighted.{
  HasAllSignals, new_state-HasAllSignals, updated_state-HasAllSignals,
  initial_weights-HasAllSignals,
}
use becertain.Registry.Tenants.{
  Instant, Setting, TenantRegistry, loaded_state, keep_loaded, update_found, reset_found,
  get_or_load, get_state, update_weight, update_named, reset_weights, Call, getting, updating,
  naming, resetting, registering, listing, clearing, viewing, evicting, after_call, after_calls,
}

module _ {F : Type 0} where
  -- Every state has the three signals.
  abbrev pub AreWeighted : List (String × TenantState F) → Type 0
  AreWeighted [] = Unit
  AreWeighted ((tenant_id, state) ∷ states) = HasAllSignals state.weights × AreWeighted states

  -- One state to a tenant, each with the three signals.
  abbrev pub IsWellFormed : List (String × TenantState F) → Type 0
  IsWellFormed states = HasUniqueKeys states × AreWeighted states

  AreWeighted-assign :
      (t : String) (state : TenantState F) (states : List (String × TenantState F))
      → HasAllSignals state.weights
      → AreWeighted states
      → AreWeighted (assign t state states)
  AreWeighted-assign t state [] h w = (h, tt)
  AreWeighted-assign t state ((k, s) ∷ states) h w =
      ground (arith, AreWeighted-assign t state states h w.1)

  AreWeighted-discard :
      (t : String) (states : List (String × TenantState F))
      → AreWeighted states
      → AreWeighted (discard t states)
  AreWeighted-discard t [] w = tt
  AreWeighted-discard t ((k, s) ∷ states) w = ground (arith, AreWeighted-discard t states w.1)

  pub IsWellFormed-assign :
      (t : String) (state : TenantState F) (states : List (String × TenantState F))
      → HasAllSignals state.weights
      → IsWellFormed states
      → IsWellFormed (assign t state states)
  IsWellFormed-assign t state states h (u, w) =
      (HasUniqueKeys-assign t state states u, AreWeighted-assign t state states h w)

  IsWellFormed-discard :
      (t : String) (states : List (String × TenantState F))
      → IsWellFormed states
      → IsWellFormed (discard t states)
  IsWellFormed-discard t states (u, w) =
      (HasUniqueKeys-discard t states u, AreWeighted-discard t states w)

  abbrev pub IsKept : Option (TenantState F) → Type 0
  IsKept none = Unit
  IsKept (some state) = HasAllSignals state.weights

  lookup-IsKept :
      (t : String) (states : List (String × TenantState F))
      → AreWeighted states
      → IsKept (lookup t states)
  lookup-IsKept t [] w = tt
  lookup-IsKept t ((k, s) ∷ states) w = elim (Bool-cases (str_eq k t)) [
    | inl same ↦ rw same w.0
    | inr other ↦ rw other (lookup-IsKept t states w.1)
  ]

module _ {F : Type 0} {R : Type 0} (g : Setting F R) where
  loaded_state-HasAllSignals :
      (stored : Option (StoredWeights F)) → HasAllSignals (loaded_state g stored).weights
  loaded_state-HasAllSignals none = new_state-HasAllSignals g.config (initial_weights g.config) 0
  loaded_state-HasAllSignals (some stored) =
      new_state-HasAllSignals g.config (coerce_weights g.config (dict stored.weights))
        (coerce_update_count g.config (int (pos stored.update_count)))

  -- What a call that answers with a state gives.
  abbrev pub IsWellMade : Option (TenantState F) × TenantRegistry F R → Type 0
  IsWellMade (found, r) = IsKept found × IsWellFormed r.states

  keep_loaded-IsWellMade :
      (t : String) (states : List (String × TenantState F))
      (loaded : Option (Option (StoredWeights F)) × Store R)
      → IsWellFormed states
      → IsWellMade (keep_loaded g t states loaded)
  keep_loaded-IsWellMade t states (none, store) w = (tt, w)
  keep_loaded-IsWellMade t states (some stored, store) w = (
    loaded_state-HasAllSignals stored,
    IsWellFormed-assign t _ states (loaded_state-HasAllSignals stored) w,
  )

  get_or_load-IsWellMade :
      (t : String) (at : Instant) (found : Option (TenantState F)) (r : TenantRegistry F R)
      → IsKept found
      → IsWellFormed r.states
      → IsWellMade (get_or_load g t at found r)
  get_or_load-IsWellMade t at (some state) r h w = (h, w)
  get_or_load-IsWellMade t at none r h w = keep_loaded-IsWellMade t r.states _ w

  pub get_state-IsWellMade :
      (t : String) (at : Instant) (r : TenantRegistry F R)
      → IsWellFormed r.states
      → IsWellMade (get_state g t at r)
  unfolding get_state
  get_state-IsWellMade t at r w =
      get_or_load-IsWellMade t at (lookup t r.states) r (lookup-IsKept t r.states w.1) w

  update_found-IsWellMade :
      (t : String) (signal : Signal) (was_correct : Bool) (saving : Instant)
      (got : Option (TenantState F) × TenantRegistry F R)
      → IsWellMade got
      → IsWellMade (update_found g t signal was_correct saving got)
  update_found-IsWellMade t signal was_correct saving (none, r) w = w
  update_found-IsWellMade t signal was_correct saving (some state, r) (h, w) =
      let learned = updated_state-HasAllSignals g.config signal was_correct state h in
      (learned, IsWellFormed-assign t _ _ learned w)

  pub update_weight-IsWellMade :
      (t : String) (signal : Signal) (was_correct : Bool) (loading saving : Instant)
      (r : TenantRegistry F R)
      → IsWellFormed r.states
      → IsWellMade (update_weight g t signal was_correct loading saving r)
  unfolding update_weight
  update_weight-IsWellMade t signal was_correct loading saving r w =
      update_found-IsWellMade t signal was_correct saving _ (get_state-IsWellMade t loading r w)

  update_named-IsWellFormed :
      (t : String) (signal : Option Signal) (was_correct : Bool) (loading saving : Instant)
      (r : TenantRegistry F R)
      → IsWellFormed r.states
      → IsWellFormed (update_named g t signal was_correct loading saving r).1.states
  update_named-IsWellFormed t none was_correct loading saving r w = w
  update_named-IsWellFormed t (some signal) was_correct loading saving r w =
      (update_weight-IsWellMade t signal was_correct loading saving r w).1

  reset_found-IsWellMade :
      (t : String) (deleting : Instant) (got : Option (TenantState F) × TenantRegistry F R)
      → IsWellMade got
      → IsWellMade (reset_found g t deleting got)
  reset_found-IsWellMade t deleting (none, r) w = w
  reset_found-IsWellMade t deleting (some state, r) (h, w) =
      let start = initial_weights-HasAllSignals g.config in
      (start, IsWellFormed-discard t _ (IsWellFormed-assign t _ _ start w))

  reset_weights-IsWellMade :
      (t : String) (loading deleting : Instant) (r : TenantRegistry F R)
      → IsWellFormed r.states
      → IsWellMade (reset_weights g t loading deleting r)
  unfolding reset_weights
  reset_weights-IsWellMade t loading deleting r w =
      reset_found-IsWellMade t deleting _ (get_state-IsWellMade t loading r w)

  pub after_call-IsWellFormed :
      (call : Call F) (r : TenantRegistry F R)
      → IsWellFormed r.states
      → IsWellFormed (after_call g call r).states
  unfolding after_call
  after_call-IsWellFormed (getting t at) r w = (get_state-IsWellMade t at r w).1
  after_call-IsWellFormed (updating t signal was_correct loading saving) r w =
      (update_weight-IsWellMade t signal was_correct loading saving r w).1
  after_call-IsWellFormed (naming t signal was_correct loading saving) r w =
      update_named-IsWellFormed t (signal_of signal) was_correct loading saving r w
  after_call-IsWellFormed (resetting t loading deleting) r w =
      (reset_weights-IsWellMade t loading deleting r w).1
  after_call-IsWellFormed (registering t event at) r w = w
  after_call-IsWellFormed (listing t at) r w = w
  after_call-IsWellFormed (clearing t at) r w = w
  after_call-IsWellFormed (viewing t start end at) r w = w
  after_call-IsWellFormed (evicting t) r w = IsWellFormed-discard t r.states w

  -- In a registry with one state to a tenant, in which every state has a weight for the metrics, the
  -- logs and the traces, the same holds after any calls of it, whatever the store answers.
  pub after_calls-IsWellFormed :
      (calls : List (Call F)) (r : TenantRegistry F R)
      → IsWellFormed r.states
      → IsWellFormed (after_calls g calls r).states
  unfolding after_calls
  after_calls-IsWellFormed [] r w = w
  after_calls-IsWellFormed (call ∷ calls) r w =
      after_calls-IsWellFormed calls _ (after_call-IsWellFormed call r w)
