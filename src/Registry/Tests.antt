-- ===== src/Registry/Tests.antt =====
-- Runs of engine/registry.py, with whole numbers for floats, and the witnesses of its theorems.
use becertain.Prelude.{
  ltb, length, arith, ◌*◌, ◌/◌, ◌==◌, if◌then◌else◌, str_eq, false, ℕ, ◌≡◌, refl, true, false, List,
  [], ◌∷◌, none, some, ◌+◌,
}
use becertain.Enums.{Signal}
use becertain.Correlation.Sample.{whole, runtime}
use becertain.Store.Client.{lookup, get_redis, attempt, redis_get, redis_set}
use becertain.Store.Weights.{load_weights, save_weights, weights_document}
use becertain.Store.Client.{Redis}
use becertain.Store.Documents.{Json}
use becertain.Correlation.{Arithmetic}
use becertain.Registry.{
  TenantState, new_state, Weights, serialize_weights, normalize_weights, default_weights_of,
  coerce_weights, updated_state,
}
use becertain.Registry.Calls.{IsWellFormed, after_calls-IsWellFormed}
use becertain.Registry.Evicted.{IsReadBack, get_state-evict}
use becertain.Store.Client.Bounds.{IsSound}
use becertain.Value.{dict}
use becertain.Registry.Isolated.{lookup-after_calls, get_state-update_weight}
use becertain.Registry.Tenants.{
  loaded_state, evict, Instant, Setting, TenantRegistry, get_state, update_weight, Call, getting,
  updating, naming, resetting, after_call, after_calls,
}

-- Hundredths in the place of floats.
abbrev percent : Arithmetic ℕ
percent = record whole {
  mul = λ a b. (a * b) / 100;
  div = λ a b. if b == 0 then none else some ((a * 100) / b);
  of_nat = λ n. n * 100;
}

-- A server to which no call connects.
abbrev away : Redis ℕ
away = record {
  connect = λ r. (false, r + 1);
  get = λ key r. (none, r);
  setex = λ key ttl value r. (false, r);
  set = λ key value r. (false, r);
  delete = λ key r. (false, r);
  execute = λ commands r. (false, r);
  lrange = λ key r. (none, r);
  scan = λ p r. (none, r);
  matches = str_eq;
  max_fallback_size = 2;
  retry_cooldown = 10;
}

-- The only document that is read back is the one of `learned_weights`.
abbrev learned_weights : Weights ℕ
learned_weights = (Signal.metrics, 56) ∷ (Signal.logs, 23) ∷ (Signal.traces, 20) ∷ []

abbrev text_json : Json ℕ
text_json = record {
  loads = λ text.
      if str_eq text "learned"
      then some (weights_document (serialize_weights learned_weights) 1)
      else none;
  dumps = λ v. some "learned";
  float_of_int = λ n. 0;
  float_of_text = λ text. none;
  is_infinite = λ x. false;
  int_of_float = λ x. none;
  int_of_text = λ text. none;
}

abbrev setting : Setting ℕ ℕ
setting = record {
  config = record {
    fl = percent;
    rt = runtime;
    default_weights = ("metrics", 60) ∷ ("logs", 30) ∷ [];
    registry_alpha = 20;
  };
  json = text_json;
  redis = away;
  weights_ttl = none;
  events_ttl = some 60;
}

abbrev at : ℕ → Instant
at n = record { now = n; then' = n + 1 }

abbrev empty_registry : TenantRegistry ℕ ℕ
empty_registry = record {
  states = [];
  store = record {
    server = 0;
    redis_client = false;
    fallback = [];
    fallback_lists = [];
    using_fallback = false;
    retry_after = 0;
  };
}

abbrev acme_calls : List (Call ℕ)
acme_calls =
    updating "acme" Signal.metrics true (at 1) (at 3)
    ∷ naming "acme" "nothing" true (at 5) (at 7)
    ∷ getting "acme" (at 9)
    ∷ []

abbrev other_calls : List (Call ℕ)
other_calls = naming "other" "logs" false (at 11) (at 13) ∷ resetting "other" (at 15) (at 17) ∷ []

acme_run :
    lookup "acme" (after_calls setting acme_calls empty_registry).states
    ≡ some (record { weights = learned_weights; update_count = 1 })
unfolding after_calls after_call get_state update_weight load_weights save_weights redis_get
    redis_set attempt get_redis normalize_weights default_weights_of coerce_weights updated_state
acme_run = refl

after_calls-IsWellFormed_example :
    IsWellFormed (after_calls setting acme_calls empty_registry).states
after_calls-IsWellFormed_example =
    after_calls-IsWellFormed setting acme_calls empty_registry (tt, tt)

other_calls_run :
    let r = after_calls setting acme_calls empty_registry in
    lookup "acme" (after_calls setting other_calls r).states ≡ lookup "acme" r.states
other_calls_run =
    lookup-after_calls setting "acme" other_calls (after_calls setting acme_calls empty_registry)
      after_calls-IsWellFormed_example (refl, (refl, tt))

abbrev learned_acme : TenantState ℕ
learned_acme = record { weights = learned_weights; update_count = 1 }

update_run :
    (update_weight setting "acme" Signal.metrics true (at 1) (at 3) empty_registry).0
    ≡ some learned_acme
unfolding get_state update_weight load_weights redis_get attempt get_redis normalize_weights
    default_weights_of coerce_weights updated_state
update_run = refl

abbrev loaded_acme : TenantState ℕ
loaded_acme = loaded_state setting none

loaded_run : (get_state setting "acme" (at 1) empty_registry).0 ≡ some loaded_acme
unfolding get_state load_weights redis_get attempt get_redis
loaded_run = refl

get_state-update_weight_example :
    let (found, r) =
      update_weight setting "acme" Signal.metrics true (at 1) (at 3) empty_registry in
    (learned : TenantState ℕ) × (found ≡ some learned)
    × (learned.update_count ≡ loaded_acme.update_count + 1)
    × (get_state setting "acme" (at 19) (after_calls setting other_calls r)
        ≡ (some learned, after_calls setting other_calls r))
get_state-update_weight_example =
    get_state-update_weight setting "acme" Signal.metrics true (at 1) (at 3) (at 19) other_calls
      empty_registry loaded_acme (tt, tt) (refl, (refl, tt)) loaded_run

-- After the first load, which the server did not answer, the store is as good as it was.
loaded-IsSound : IsSound away (get_state setting "acme" (at 1) empty_registry).1.store
unfolding get_state load_weights redis_get attempt get_redis
loaded-IsSound = record { bounded = omega arith; unique = tt; unique_lists = tt }

learned-IsReadBack : IsReadBack setting learned_acme "learned"
learned-IsReadBack = record { dumped = refl; loaded = refl; filled = refl }

loaded_off : (get_state setting "acme" (at 1) empty_registry).1.store.redis_client ≡ false
unfolding get_state load_weights redis_get attempt get_redis
loaded_off = refl

loaded_room :
    ltb (length (get_state setting "acme" (at 1) empty_registry).1.store.fallback) 2 ≡ true
unfolding get_state load_weights redis_get attempt get_redis
loaded_room = refl

get_state-evict_example :
    let r = (update_weight setting "acme" Signal.metrics true (at 1) (at 3) empty_registry).1 in
    (get_state setting "acme" (at 19) (evict setting "acme" r)).0
    ≡ some (
        new_state setting.config
          (coerce_weights setting.config (dict (serialize_weights learned_acme.weights)))
          learned_acme.update_count)
get_state-evict_example =
    get_state-evict setting "acme" "learned" Signal.metrics true (at 1) (at 3) (at 19)
      empty_registry learned_acme (λ q. refl) (tt, tt) loaded_off loaded-IsSound loaded_room
      update_run learned-IsReadBack
