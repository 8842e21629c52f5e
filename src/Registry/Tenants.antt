-- ===== src/Registry/Tenants.antt =====
-- engine/registry.py: `TenantRegistry`, the states in the process over the weights in the store. A
-- call that ends in an exception gives `none` in place of a state.
use becertain.Prelude.{ℕ, String, Bool, ◌&&◌, List, [], ◌∷◌, Option, none, some, filter}
use becertain.Value.{pos, int, dict}
use becertain.Enums.{Signal}
use becertain.Store.Documents.{Json}
use becertain.Store.Client.{Redis, Store, lookup, assign, discard}
use becertain.Store.Events.{DeploymentEvent, load, append, clear}
use becertain.Store.Weights.{StoredWeights, load_weights, save_weights, delete_weights}
use becertain.Registry.{
  Config, TenantState, signal_of, serialize_weights, coerce_weights, coerce_update_count, new_state,
  initial_weights, updated_state,
}

-- The two readings of the clock of one call of the store.
pub record Instant : Type 0 where
  pub now : ℕ
  pub then' : ℕ

-- What the registry works with: the last two are the lifetimes of the keys in the store.
pub record Setting (F : Type 0) (R : Type 0) : Type 0 where
  pub config : Config F
  pub json : Json F
  pub redis : Redis R
  pub weights_ttl : Option ℕ
  pub events_ttl : Option ℕ

pub record TenantRegistry (F : Type 0) (R : Type 0) : Type 0 where
  pub states : List (String × TenantState F)
  pub store : Store R

module _ {F : Type 0} {R : Type 0} (g : Setting F R) where
  abbrev pub loaded_state : Option (StoredWeights F) → TenantState F
  loaded_state none = new_state g.config (initial_weights g.config) 0
  loaded_state (some stored) =
      new_state g.config (coerce_weights g.config (dict stored.weights))
        (coerce_update_count g.config (int (pos stored.update_count)))

  -- What follows the load of the weights, whose `OverflowError` passes.
  abbrev pub keep_loaded :
      String
      → List (String × TenantState F)
      → Option (Option (StoredWeights F)) × Store R
      → Option (TenantState F) × TenantRegistry F R
  keep_loaded tenant_id states (none, store) = (none, record { states = states; store = store })
  keep_loaded tenant_id states (some stored, store) =
      let state = loaded_state stored in
      (some state, record { states = assign tenant_id state states; store = store })

  abbrev pub get_or_load :
      String
      → Instant
      → Option (TenantState F)
      → TenantRegistry F R
      → Option (TenantState F) × TenantRegistry F R
  get_or_load tenant_id at (some state) r = (some state, r)
  get_or_load tenant_id at none r =
      keep_loaded tenant_id r.states (load_weights g.json g.redis tenant_id at.now at.then' r.store)

  unfoldable pub get_state :
      String → Instant → TenantRegistry F R → Option (TenantState F) × TenantRegistry F R
  get_state tenant_id at r = get_or_load tenant_id at (lookup tenant_id r.states) r

  -- The weights that `update_weight` saves are those of the state that it returns.
  abbrev pub save_state :
      String
      → Instant
      → TenantState F
      → TenantRegistry F R
      → Option (TenantState F) × TenantRegistry F R
  save_state tenant_id at state r = (
    some state,
    record {
      states = assign tenant_id state r.states;
      store =
          save_weights g.json g.redis tenant_id (serialize_weights state.weights) state.update_count
            g.weights_ttl at.now at.then' r.store;
    },
  )

  -- What follows `get_state` in `update_weight`.
  abbrev pub update_found :
      String
      → Signal
      → Bool
      → Instant
      → Option (TenantState F) × TenantRegistry F R
      → Option (TenantState F) × TenantRegistry F R
  update_found tenant_id signal was_correct saving (none, r) = (none, r)
  update_found tenant_id signal was_correct saving (some state, r) =
      save_state tenant_id saving (updated_state g.config signal was_correct state) r

  unfoldable pub update_weight :
      String
      → Signal
      → Bool
      → Instant
      → Instant
      → TenantRegistry F R
      → Option (TenantState F) × TenantRegistry F R
  update_weight tenant_id signal was_correct loading saving r =
      update_found tenant_id signal was_correct saving (get_state tenant_id loading r)

  -- The call with the name of a signal, which may be a `ValueError`.
  abbrev pub update_named :
      String
      → Option Signal
      → Bool
      → Instant
      → Instant
      → TenantRegistry F R
      → Option (TenantState F) × TenantRegistry F R
  update_named tenant_id none was_correct loading saving r = (none, r)
  update_named tenant_id (some signal) was_correct loading saving r =
      update_weight tenant_id signal was_correct loading saving r

  abbrev pub evict : String → TenantRegistry F R → TenantRegistry F R
  evict tenant_id r = record { states = discard tenant_id r.states; store = r.store }

  -- `TenantState.reset`
  abbrev pub reset_state : TenantState F
  reset_state = record { weights = initial_weights g.config; update_count = 0 }

  -- What follows `get_state` in `reset_weights`.
  abbrev pub reset_found :
      String
      → Instant
      → Option (TenantState F) × TenantRegistry F R
      → Option (TenantState F) × TenantRegistry F R
  reset_found tenant_id deleting (none, r) = (none, r)
  reset_found tenant_id deleting (some state, r) = (
    some reset_state,
    evict tenant_id (record {
      states = assign tenant_id reset_state r.states;
      store = delete_weights g.json g.redis tenant_id deleting.now deleting.then' r.store;
    }),
  )

  unfoldable pub reset_weights :
      String → Instant → Instant → TenantRegistry F R → Option (TenantState F) × TenantRegistry F R
  reset_weights tenant_id loading deleting r =
      reset_found tenant_id deleting (get_state tenant_id loading r)

  abbrev pub register_event :
      String → DeploymentEvent F → Instant → TenantRegistry F R → TenantRegistry F R
  register_event tenant_id event at r = record {
    states = r.states;
    store = append g.json g.redis tenant_id event g.events_ttl at.now at.then' r.store;
  }

  abbrev pub get_events :
      String → Instant → TenantRegistry F R → List (DeploymentEvent F) × TenantRegistry F R
  get_events tenant_id at r =
      let (events, store) = load g.json g.redis tenant_id at.now at.then' r.store in
      (events, record { states = r.states; store = store })

  abbrev pub clear_tenant : String → Instant → TenantRegistry F R → TenantRegistry F R
  clear_tenant tenant_id at r = record {
    states = r.states;
    store = clear g.json g.redis tenant_id at.now at.then' r.store;
  }

  abbrev pub within : F → F → DeploymentEvent F → Bool
  within start end event =
      g.config.fl.le start event.timestamp && g.config.fl.le event.timestamp end

  abbrev pub events_within :
      String → F → F → Instant → TenantRegistry F R → List (DeploymentEvent F) × TenantRegistry F R
  events_within tenant_id start end at r =
      let (events, r') = get_events tenant_id at r in (filter (within start end) events, r')

-- A call of the registry by another module.
pub data Call (F : Type 0) : Type 0 where
  getting : String → Instant → Call F
  updating : String → Signal → Bool → Instant → Instant → Call F
  naming : String → String → Bool → Instant → Instant → Call F
  resetting : String → Instant → Instant → Call F
  registering : String → DeploymentEvent F → Instant → Call F
  listing : String → Instant → Call F
  clearing : String → Instant → Call F
  viewing : String → F → F → Instant → Call F
  evicting : String → Call F

abbrev pub tenant_of : {F : Type 0} → Call F → String
tenant_of (getting t at) = t
tenant_of (updating t signal was_correct loading saving) = t
tenant_of (naming t signal was_correct loading saving) = t
tenant_of (resetting t loading deleting) = t
tenant_of (registering t event at) = t
tenant_of (listing t at) = t
tenant_of (clearing t at) = t
tenant_of (viewing t start end at) = t
tenant_of (evicting t) = t

module _ {F : Type 0} {R : Type 0} (g : Setting F R) where
  unfoldable pub after_call : Call F → TenantRegistry F R → TenantRegistry F R
  after_call (getting t at) r = (get_state g t at r).1
  after_call (updating t signal was_correct loading saving) r =
      (update_weight g t signal was_correct loading saving r).1
  after_call (naming t signal was_correct loading saving) r =
      (update_named g t (signal_of signal) was_correct loading saving r).1
  after_call (resetting t loading deleting) r = (reset_weights g t loading deleting r).1
  after_call (registering t event at) r = register_event g t event at r
  after_call (listing t at) r = (get_events g t at r).1
  after_call (clearing t at) r = clear_tenant g t at r
  after_call (viewing t start end at) r = (events_within g t start end at r).1
  after_call (evicting t) r = evict g t r

  unfoldable pub after_calls : List (Call F) → TenantRegistry F R → TenantRegistry F R
  after_calls [] r = r
  after_calls (call ∷ calls) r = after_calls calls (after_call call r)
