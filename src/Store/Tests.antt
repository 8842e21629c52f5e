-- ===== src/Store/Tests.antt =====
-- The store at a concrete input: a server that is down, and one that answers.
use Prim.Native.String.{◌++◌}
use becertain.Floats.Sample.{whole}
use becertain.Store.Granger.{GrangerRecord, merge, by_strength, load as load_results}
use becertain.Prelude.{
  ◌==◌, if◌then◌else◌, ℕ, ◌+◌, ◌<◌, String, true, false, List, [], ◌∷◌, none, some, ◌≡◌, refl,
  arith, str_eq, ◌⊎◌,
}
use becertain.Store.Client.{Redis, Store, lookup, get_redis, attempt, redis_set, redis_lrange}
use becertain.Store.Client.Bounds.{Call, after, after_all, IsSound, IsSound-after_all}
use becertain.Store.Client.Bounds.Call.{set, push}
use becertain.Store.Client.Offline.{items, text_after, items_after, after-offline}
use becertain.Store.Client.Recent.{pushes, values_of, last_n, redis_lrange-pushes}
use becertain.Value.{pos, float}
use becertain.Store.Reading.{overflowed}
use becertain.Store.Documents.{Json, coerce_int}
use becertain.Store.Events.{DeploymentEvent, document, load, max_events}
use becertain.Store.Events.Trip.{append_all, events_of, load-append_all}
use becertain.Store.Client.Cooldown.{get_redis_cooldown}

-- The server counts the attempts to connect, none of which succeeds.
abbrev down : Redis ℕ
down = record {
  connect = λ r. (false, r + 1);
  get = λ key r. (none, r);
  setex = λ key ttl value r. (false, r);
  set = λ key value r. (false, r);
  delete = λ key r. (false, r);
  execute = λ commands r. (false, r);
  lrange = λ key r. (none, r);
  scan = λ p r. (none, r);
  matches = str_eq;
  max_fallback_size = 2;
  retry_cooldown = 10;
}

abbrev empty_store : Store ℕ
empty_store = record {
  server = 0;
  redis_client = false;
  fallback = [];
  fallback_lists = [];
  using_fallback = false;
  retry_after = 0;
}

empty_store-IsSound : IsSound down empty_store
empty_store-IsSound = record { bounded = omega arith; unique = tt; unique_lists = tt }

abbrev three_sets : List (Call × ℕ × ℕ)
three_sets =
    (set "a" "1" none, 5, 6) ∷ (set "b" "2" (some 60), 7, 8) ∷ (set "c" "3" none, 20, 21) ∷ []

-- The third item finds no room, and the second call made no attempt to connect.
sets_run : after_all down three_sets empty_store ≡ record {
  server = 2;
  redis_client = false;
  fallback = ("a", "1") ∷ ("b", "2") ∷ [];
  fallback_lists = [];
  using_fallback = true;
  retry_after = 31;
}
unfolding redis_set attempt get_redis
sets_run = refl

IsSound-after_all_example : IsSound down (after_all down three_sets empty_store)
IsSound-after_all_example = IsSound-after_all down three_sets empty_store empty_store-IsSound

after-offline_example :
    let s' = after down (push "k" "v" none (some 3)) 5 6 empty_store in
    (s'.redis_client ≡ false)
    × (s'.using_fallback ≡ true)
    × ((j : String)
        → lookup j s'.fallback ≡ text_after down (push "k" "v" none (some 3)) empty_store j)
    × ((j : String) → items down j s' ≡ items_after down (push "k" "v" none (some 3)) empty_store j)
after-offline_example =
    after-offline down (λ r. refl) (push "k" "v" none (some 3)) 5 6 empty_store refl
      empty_store-IsSound

abbrev sample_values : List (String × ℕ × ℕ)
sample_values = ("x", 1, 1) ∷ ("y", 2, 2) ∷ ("z", 3, 3) ∷ []

redis_lrange-pushes_example :
    (redis_lrange down "k" 9 9
      (after_all down (pushes down (λ r. refl) "k" none 2 sample_values) empty_store)).0
    ≡ last_n 2 (values_of down (λ r. refl) sample_values)
redis_lrange-pushes_example =
    redis_lrange-pushes down (λ r. refl) "k" none 1 sample_values empty_store 9 9 refl
      empty_store-IsSound refl

failed_run : (get_redis down 5 6 empty_store).0 ≡ false
unfolding get_redis
failed_run = refl

early_run : 12 < (get_redis down 5 6 empty_store).1.retry_after
unfolding get_redis
early_run = omega arith

get_redis_cooldown_example :
    let s' = (get_redis down 5 6 empty_store).1 in
    ((get_redis down 12 13 s').0 ≡ false)
    × ((get_redis down 12 13 s').1.server ≡ s'.server)
    × (((5 < 0) × (s'.retry_after ≡ 0)) ⊎ (s'.retry_after ≡ 6 + 10))
get_redis_cooldown_example = get_redis_cooldown down 5 6 12 13 empty_store failed_run early_run

-- A deployment, whose text is its version.
abbrev deployed : DeploymentEvent ℕ
deployed = record {
  service = "cart";
  timestamp = 100;
  version = "v2";
  author = "ann";
  environment = "production";
  source = "ci";
  metadata = ("commit", "abc") ∷ [];
}

abbrev version_of : DeploymentEvent ℕ → String
version_of event = event.version

abbrev version_json : Json ℕ
version_json = record {
  loads = λ text. if str_eq text "v2" then some (document deployed) else none;
  dumps = λ v. some "v2";
  float_of_int = λ n. 0;
  float_of_text = λ text. none;
  is_infinite = λ x. false;
  int_of_float = λ x. none;
  int_of_text = λ text. none;
}

abbrev deployments : List (DeploymentEvent ℕ × ℕ × ℕ)
deployments = (deployed, 5, 6) ∷ []

load-append_all_example :
    (load version_json down "acme" 9 9
      (append_all version_json version_of down "acme" (some 60) deployments empty_store)).0
    ≡ last_n max_events (events_of version_json version_of down deployments)
load-append_all_example =
    load-append_all version_json version_of down "acme" (some 60) deployments empty_store 9 9
      ((refl, refl), tt) (λ r. refl) refl empty_store-IsSound refl

abbrev weak : GrangerRecord ℕ
weak = record {
  cause_metric = "cpu";
  effect_metric = "latency";
  max_lag = pos 3;
  f_statistic = 5;
  p_value = 1;
  is_causal = true;
  strength = 20;
}

abbrev strong : GrangerRecord ℕ
strong = record weak { strength = 70 }

abbrev granger_key : String → String → String
granger_key tenant_id service = tenant_id ++ service

merge_run : by_strength whole (merge whole (strong ∷ weak ∷ []) []) ≡ strong ∷ []
unfolding by_strength merge
merge_run = refl

-- The number 7 is infinite.
abbrev infinite_json : Json ℕ
infinite_json = record version_json { is_infinite = λ x. x == 7 }

-- An infinite lag is an `OverflowError` of the coercion.
infinite_run : coerce_int infinite_json (float 7) ≡ overflowed
infinite_run = refl
