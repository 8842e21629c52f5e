-- ===== src/Registry/Evicted.antt =====
-- engine/registry.py over store/weights.py: a state that is evicted and asked for again.
use becertain.Prelude.{
  ◌≡◌, ap, ◌∙◌, String, Option, Bool, true, false, none, some, str_eq, ltb, length, arith, eq_iff,
}
use becertain.Value.{dict}
use becertain.Enums.{Signal}
use becertain.Registry.Isolated.{update_weight_made}
use becertain.Store.Client.{Store, lookup, assign, discard}
use becertain.Store.Client.Bounds.{IsSound, lookup-discard, HasUniqueKeys-assign}
use becertain.Store.Weights.{StoredWeights, weights_document, load_weights}
use becertain.Store.Weights.Trip.{load_weights-save_weights}
use becertain.Registry.{
  TenantState, serialize_weights, coerce_weights, coerce_update_count, new_state,
}
use becertain.Registry.Calls.{IsWellFormed, get_state-IsWellMade}
use becertain.Registry.Tenants.{
  Instant, Setting, TenantRegistry, loaded_state, keep_loaded, get_or_load, save_state, get_state,
  update_weight, evict,
}

module _ {F : Type 0} {R : Type 0} (g : Setting F R) where
  -- The text of the store for a state is one that the `json` module reads back.
  pub record IsReadBack (state : TenantState F) (text : String) : Type 0 where
    pub dumped :
        g.json.dumps (weights_document (serialize_weights state.weights) state.update_count)
        ≡ some text
    pub loaded :
        g.json.loads text
        ≡ some (weights_document (serialize_weights state.weights) state.update_count)
    pub filled : str_eq text "" ≡ false

  discard-assign :
      (t : String) (state : TenantState F) (r : TenantRegistry F R)
      → IsWellFormed r.states
      → lookup t (discard t (assign t state r.states)) ≡ none
  discard-assign t state r w =
      lookup-discard t t (assign t state r.states) (HasUniqueKeys-assign t state r.states w.0)
      ∙ ground (arith, eq_iff t t)

  get_state_missing :
      (t : String) (at : Instant) (r : TenantRegistry F R) (stored : Option (StoredWeights F))
      → lookup t r.states ≡ none
      → (load_weights g.json g.redis t at.now at.then' r.store).0 ≡ some stored
      → (get_state g t at r).0 ≡ some (loaded_state g stored)
  unfolding get_state
  get_state_missing t at r stored e h =
      ap (λ found. (get_or_load g t at found r).0) e
      ∙ kept (load_weights g.json g.redis t at.now at.then' r.store) h
    where
      kept :
          (loaded : Option (Option (StoredWeights F)) × Store R)
          → loaded.0 ≡ some stored
          → (keep_loaded g t r.states loaded).0 ≡ some (loaded_state g stored)
      kept (none, store) h = cc
      kept (some other, store) h =
          let same : other ≡ stored = cc in ap (λ x. some (loaded_state g x)) same

  -- While Redis does not connect and the dict of the process has room, the state that
  -- `update_weight` makes comes back after it is evicted: with the same count, and with the weights as
  -- the two coercions of `get_state` leave them, where its document is one that the `json` module reads
  -- back from a text that is not empty.
  pub get_state-evict :
      (t text : String) (signal : Signal) (was_correct : Bool) (loading saving later : Instant)
      (r : TenantRegistry F R) (learned : TenantState F)
      → ((q : R) → (g.redis.connect q).0 ≡ false)
      → IsWellFormed r.states
      → (get_state g t loading r).1.store.redis_client ≡ false
      → IsSound g.redis (get_state g t loading r).1.store
      → ltb (length (get_state g t loading r).1.store.fallback) g.redis.max_fallback_size ≡ true
      → (update_weight g t signal was_correct loading saving r).0 ≡ some learned
      → IsReadBack learned text
      → (get_state g t later
          (evict g t (update_weight g t signal was_correct loading saving r).1)).0
        ≡ some (
            new_state g.config
              (coerce_weights g.config (dict (serialize_weights learned.weights)))
              learned.update_count)
  unfolding coerce_update_count
  get_state-evict t text signal was_correct loading saving later r learned down w off i room made
        back =
      let got = (get_state g t loading r).1 in
      let (state, _, _, saved) =
        update_weight_made g t signal was_correct loading saving r learned made in
      ap (λ u. (get_state g t later (evict g t u.1)).0) saved
      ∙ get_state_missing t later (evict g t (save_state g t saving learned got).1) _
          (discard-assign t learned got (get_state-IsWellMade g t loading r w).1)
          (load_weights-save_weights g.redis down g.json t text (serialize_weights learned.weights)
            learned.update_count g.weights_ttl saving.now saving.then' later.now later.then'
            got.store back.dumped back.loaded back.filled off i room)
