-- ===== src/Registry/Isolated.antt =====
-- engine/registry.py: what a call for one tenant does to the states of the others, and what the next
-- call for the tenant sees.
use becertain.Prelude.{
  String, Bool, false, List, [], ◌∷◌, Option, none, some, ◌≡◌, refl, sym, ap, ◌∙◌, str_eq, All,
  arith, ◌+◌, eq_iff,
}
use becertain.Store.Weights.{StoredWeights}
use becertain.Store.Client.{Store, lookup, assign, discard}
use becertain.Store.Client.Bounds.{lookup-assign, lookup-discard}
use becertain.Enums.{Signal}
use becertain.Registry.{TenantState, signal_of, updated_state}
use becertain.Registry.Weighted.{initial_weights-HasAllSignals}
use becertain.Registry.Calls.{
  IsWellFormed, IsWellFormed-assign, after_call-IsWellFormed, get_state-IsWellMade,
  update_weight-IsWellMade,
}
use becertain.Registry.Tenants.{
  Instant, Setting, TenantRegistry, keep_loaded, update_found, reset_found, save_state, get_or_load,
  get_state, update_weight, update_named, reset_state, reset_weights, Call, getting, updating,
  naming, resetting, registering, listing, clearing, viewing, evicting, tenant_of, after_call,
  after_calls,
}

module _ {F : Type 0} where
  assign_other :
      (j t : String) (state : TenantState F) (states : List (String × TenantState F))
      → str_eq t j ≡ false
      → lookup j (assign t state states) ≡ lookup j states
  assign_other j t state states o = rw (lookup-assign j t state states, o) refl

  discard_other :
      (j t : String) (states : List (String × TenantState F))
      → IsWellFormed states
      → str_eq t j ≡ false
      → lookup j (discard t states) ≡ lookup j states
  discard_other j t states w o = rw (lookup-discard j t states w.0, o) refl

  assign_same :
      (t : String) (state : TenantState F) (states : List (String × TenantState F))
      → lookup t (assign t state states) ≡ some state
  assign_same t state states = ground (arith, lookup-assign t t state states, eq_iff t t)

module _ {F : Type 0} {R : Type 0} (g : Setting F R) where
  keep_loaded_other :
      (j t : String) (states : List (String × TenantState F))
      (loaded : Option (Option (StoredWeights F)) × Store R)
      → str_eq t j ≡ false
      → lookup j (keep_loaded g t states loaded).1.states ≡ lookup j states
  keep_loaded_other j t states (none, store) o = refl
  keep_loaded_other j t states (some stored, store) o = assign_other j t _ states o

  get_or_load_other :
      (j t : String) (at : Instant) (found : Option (TenantState F)) (r : TenantRegistry F R)
      → str_eq t j ≡ false
      → lookup j (get_or_load g t at found r).1.states ≡ lookup j r.states
  get_or_load_other j t at (some state) r o = refl
  get_or_load_other j t at none r o = keep_loaded_other j t r.states _ o

  get_state_other :
      (j t : String) (at : Instant) (r : TenantRegistry F R)
      → str_eq t j ≡ false
      → lookup j (get_state g t at r).1.states ≡ lookup j r.states
  unfolding get_state
  get_state_other j t at r o = get_or_load_other j t at (lookup t r.states) r o

  update_found_other :
      (j t : String) (signal : Signal) (was_correct : Bool) (saving : Instant)
      (got : Option (TenantState F) × TenantRegistry F R)
      → str_eq t j ≡ false
      → lookup j (update_found g t signal was_correct saving got).1.states ≡ lookup j got.1.states
  update_found_other j t signal was_correct saving (none, r) o = refl
  update_found_other j t signal was_correct saving (some state, r) o = assign_other j t _ r.states o

  update_weight_other :
      (j t : String) (signal : Signal) (was_correct : Bool) (loading saving : Instant)
      (r : TenantRegistry F R)
      → str_eq t j ≡ false
      → lookup j (update_weight g t signal was_correct loading saving r).1.states
        ≡ lookup j r.states
  unfolding update_weight
  update_weight_other j t signal was_correct loading saving r o =
      update_found_other j t signal was_correct saving (get_state g t loading r) o
      ∙ get_state_other j t loading r o

  update_named_other :
      (j t : String) (signal : Option Signal) (was_correct : Bool) (loading saving : Instant)
      (r : TenantRegistry F R)
      → str_eq t j ≡ false
      → lookup j (update_named g t signal was_correct loading saving r).1.states ≡ lookup j r.states
  update_named_other j t none was_correct loading saving r o = refl
  update_named_other j t (some signal) was_correct loading saving r o =
      update_weight_other j t signal was_correct loading saving r o

  reset_found_other :
      (j t : String) (deleting : Instant) (got : Option (TenantState F) × TenantRegistry F R)
      → IsWellFormed got.1.states
      → str_eq t j ≡ false
      → lookup j (reset_found g t deleting got).1.states ≡ lookup j got.1.states
  reset_found_other j t deleting (none, r) w o = refl
  reset_found_other j t deleting (some state, r) w o =
      discard_other j t _
        (IsWellFormed-assign t (reset_state g) _ (initial_weights-HasAllSignals g.config) w) o
      ∙ assign_other j t (reset_state g) r.states o

  reset_weights_other :
      (j t : String) (loading deleting : Instant) (r : TenantRegistry F R)
      → IsWellFormed r.states
      → str_eq t j ≡ false
      → lookup j (reset_weights g t loading deleting r).1.states ≡ lookup j r.states
  unfolding reset_weights
  reset_weights_other j t loading deleting r w o =
      reset_found_other j t deleting (get_state g t loading r)
        (get_state-IsWellMade g t loading r w).1 o
      ∙ get_state_other j t loading r o

  after_call_other :
      (j : String) (call : Call F) (r : TenantRegistry F R)
      → IsWellFormed r.states
      → str_eq (tenant_of call) j ≡ false
      → lookup j (after_call g call r).states ≡ lookup j r.states
  unfolding after_call
  after_call_other j (getting t at) r w o = get_state_other j t at r o
  after_call_other j (updating t signal was_correct loading saving) r w o =
      update_weight_other j t signal was_correct loading saving r o
  after_call_other j (naming t signal was_correct loading saving) r w o =
      update_named_other j t (signal_of signal) was_correct loading saving r o
  after_call_other j (resetting t loading deleting) r w o =
      reset_weights_other j t loading deleting r w o
  after_call_other j (registering t event at) r w o = refl
  after_call_other j (listing t at) r w o = refl
  after_call_other j (clearing t at) r w o = refl
  after_call_other j (viewing t start end at) r w o = refl
  after_call_other j (evicting t) r w o = discard_other j t r.states w o

  -- In a registry with one state to a tenant and the three signals in every state, calls for other
  -- tenants leave the state of a tenant as it is, or absent where it is absent.
  pub lookup-after_calls :
      (j : String) (calls : List (Call F)) (r : TenantRegistry F R)
      → IsWellFormed r.states
      → All (λ call. str_eq (tenant_of call) j ≡ false) calls
      → lookup j (after_calls g calls r).states ≡ lookup j r.states
  unfolding after_calls
  lookup-after_calls j [] r w o = refl
  lookup-after_calls j (call ∷ calls) r w o =
      lookup-after_calls j calls _ (after_call-IsWellFormed g call r w) o.1
      ∙ after_call_other j call r w o.0

  get_state_found :
      (t : String) (at : Instant) (state : TenantState F) (r : TenantRegistry F R)
      → lookup t r.states ≡ some state
      → get_state g t at r ≡ (some state, r)
  unfolding get_state
  get_state_found t at state r e = rw e refl

  update_found_made :
      (t : String) (signal : Signal) (was_correct : Bool) (saving : Instant)
      (got : Option (TenantState F) × TenantRegistry F R) (learned : TenantState F)
      → (update_found g t signal was_correct saving got).0 ≡ some learned
      → (state : TenantState F) × (got.0 ≡ some state)
        × (learned ≡ updated_state g.config signal was_correct state)
        × (update_found g t signal was_correct saving got ≡ save_state g t saving learned got.1)
  update_found_made t signal was_correct saving (none, r) learned h = cc
  update_found_made t signal was_correct saving (some state, r) learned h =
      let same : updated_state g.config signal was_correct state ≡ learned = cc in
      (state, refl, sym same, ap (λ x. save_state g t saving x r) same)

  -- A call of `update_weight` that gives a state: the state that `get_state` gave, learned from and
  -- saved.
  pub update_weight_made :
      (t : String) (signal : Signal) (was_correct : Bool) (loading saving : Instant)
      (r : TenantRegistry F R) (learned : TenantState F)
      → (update_weight g t signal was_correct loading saving r).0 ≡ some learned
      → (state : TenantState F) × ((get_state g t loading r).0 ≡ some state)
        × (learned ≡ updated_state g.config signal was_correct state)
        × (update_weight g t signal was_correct loading saving r
            ≡ save_state g t saving learned (get_state g t loading r).1)
  unfolding update_weight
  update_weight_made t signal was_correct loading saving r learned h =
      update_found_made t signal was_correct saving (get_state g t loading r) learned h

  update_found_gives :
      (t : String) (signal : Signal) (was_correct : Bool) (saving : Instant)
      (got : Option (TenantState F) × TenantRegistry F R) (state : TenantState F)
      → got.0 ≡ some state
      → update_found g t signal was_correct saving got
        ≡ save_state g t saving (updated_state g.config signal was_correct state) got.1
  update_found_gives t signal was_correct saving (none, r) state h = cc
  update_found_gives t signal was_correct saving (some other, r) state h =
      let same : other ≡ state = cc in
      ap (λ x. save_state g t saving (updated_state g.config signal was_correct x) r) same

  update_weight_gives :
      (t : String) (signal : Signal) (was_correct : Bool) (loading saving : Instant)
      (r : TenantRegistry F R) (state : TenantState F)
      → (get_state g t loading r).0 ≡ some state
      → update_weight g t signal was_correct loading saving r
        ≡ save_state g t saving
            (updated_state g.config signal was_correct state)
            (get_state g t loading r).1
  unfolding update_weight
  update_weight_gives t signal was_correct loading saving r state h =
      update_found_gives t signal was_correct saving (get_state g t loading r) state h

  updated_state_counts :
      (signal : Signal) (was_correct : Bool) (state : TenantState F)
      → (updated_state g.config signal was_correct state).update_count ≡ state.update_count + 1
  unfolding updated_state
  updated_state_counts signal was_correct state = refl

  -- From a registry with one state to a tenant and the three signals in every state, in which
  -- `get_state` gives a state, `update_weight` gives one too, whose count is one more; and after calls
  -- for other tenants `get_state` answers with the state that `update_weight` gave, without a call of
  -- the store.
  pub get_state-update_weight :
      (t : String) (signal : Signal) (was_correct : Bool) (loading saving later : Instant)
      (calls : List (Call F)) (r : TenantRegistry F R) (state : TenantState F)
      → IsWellFormed r.states
      → All (λ call. str_eq (tenant_of call) t ≡ false) calls
      → (get_state g t loading r).0 ≡ some state
      → let (found, r') = update_weight g t signal was_correct loading saving r in
        (learned : TenantState F) × (found ≡ some learned)
        × (learned.update_count ≡ state.update_count + 1)
        × (get_state g t later (after_calls g calls r') ≡ (some learned, after_calls g calls r'))
  get_state-update_weight t signal was_correct loading saving later calls r state w o h =
      let learned = updated_state g.config signal was_correct state in
      let made = update_weight-IsWellMade g t signal was_correct loading saving r w in
      let saved = update_weight_gives t signal was_correct loading saving r state h in
      (
        learned,
        ap (λ u. u.0) saved,
        updated_state_counts signal was_correct state,
        get_state_found t later learned _ (
            lookup-after_calls t calls _ made.1 o
            ∙ ap (λ u. lookup t u.1.states) saved
            ∙ assign_same t learned (get_state g t loading r).1.states),
      )
