-- ===== src/Store/Events.antt =====
-- store/events.py: the deployment events of a tenant, as JSON texts in a list of the store.
pub mod Trip
use Prim.Native.String.{◌++◌}
use becertain.Prelude.{ℕ, String, List, [], ◌∷◌, Option, none, some}
use becertain.Value.{Value, Fields, str, float, dict, field, end, get_field, or_null}
use becertain.Store.Documents.{Json, ◌>>=◌, as_text, get_or, coerce_float, as_text_fields, dict_of}
use becertain.Store.Client.{Redis, Store, redis_rpush, redis_lrange, redis_delete}

-- `DeploymentEvent` and `StoredEvent`, which have the same fields.
pub record DeploymentEvent (F : Type 0) : Type 0 where
  pub service : String
  pub timestamp : F
  pub version : String
  pub author : String
  pub environment : String
  pub source : String
  pub metadata : List (String × String)

-- `keys.events`
abbrev pub events_key : String → String
events_key tenant_id = "bc:" ++ (tenant_id ++ ":events")

abbrev pub max_events : ℕ
max_events = 500

-- The document that `_serialise` dumps.
abbrev pub document : {F : Type 0} → DeploymentEvent F → Value F
document event = dict (
    field "service" (str event.service) (
      field "timestamp" (float event.timestamp) (
        field "version" (str event.version) (
          field "author" (str event.author) (
            field "environment" (str event.environment) (
              field "source" (str event.source)
                (field "metadata" (dict (dict_of event.metadata)) end)))))))

module _ {F : Type 0} (json : Json F) where
  unfoldable pub coerce_event : Value F → Option (DeploymentEvent F)
  unfolding get_field
  coerce_event (dict value) = do
    service ← as_text (or_null (get_field "service" value))
    version ← as_text (or_null (get_field "version" value))
    author ← as_text (get_or (get_field "author" value) (str ""))
    environment ← as_text (get_or (get_field "environment" value) (str "production"))
    source ← as_text (get_or (get_field "source" value) (str "unknown"))
    metadata ← as_text_fields (get_or (get_field "metadata" value) (dict end))
    timestamp ← coerce_float json (or_null (get_field "timestamp" value))
    some (record {
      service = service;
      timestamp = timestamp;
      version = version;
      author = author;
      environment = environment;
      source = source;
      metadata = metadata;
    })
  coerce_event _ = none

  abbrev pub keep_event :
      Option (DeploymentEvent F) → List (DeploymentEvent F) → List (DeploymentEvent F)
  keep_event none events = events
  keep_event (some event) events = event ∷ events

  -- The loop of `load`: an item that is no event is passed over, one that is no JSON ends the loop
  -- with an exception.
  unfoldable pub read_events : List String → Option (List (DeploymentEvent F))
  read_events [] = some []
  read_events (item ∷ items) = do
    parsed ← json.loads item
    events ← read_events items
    some (keep_event (coerce_event parsed) events)

  abbrev pub or_no_events : Option (List (DeploymentEvent F)) → List (DeploymentEvent F)
  or_no_events none = []
  or_no_events (some events) = events

  module _ {R : Type 0} (redis : Redis R) where
    unfoldable pub load : String → ℕ → ℕ → Store R → List (DeploymentEvent F) × Store R
    load tenant_id now then' s =
        let (items, s') = redis_lrange redis (events_key tenant_id) now then' s in
        (or_no_events (read_events items), s')

    unfoldable pub append : String → DeploymentEvent F → Option ℕ → ℕ → ℕ → Store R → Store R
    append tenant_id event events_ttl now then' s = elim (json.dumps (document event)) [
      | none ↦ s
      | some text ↦
          (redis_rpush redis (events_key tenant_id) text events_ttl (some max_events) now then' s).1
    ]

    unfoldable pub clear : String → ℕ → ℕ → Store R → Store R
    clear tenant_id now then' s = (redis_delete redis (events_key tenant_id) now then' s).1
