-- ===== src/Store/Events/Trip.antt =====
-- What is appended is what is loaded.
use becertain.Prelude.{
  ℕ, zero, suc, ◌-◌, String, List, [], ◌∷◌, Option, some, ◌≡◌, refl, ap, ◌∙◌, drop, length, All,
  false,
}
use becertain.Value.{get_field}
use becertain.Store.Documents.{Json, ◌>>=◌, text_fields, dict_of}
use becertain.Store.Client.{Redis, Store, redis_lrange, redis_rpush}
use becertain.Store.Client.Bounds.{after_all, IsSound}
use becertain.Store.Client.Offline.{items}
use becertain.Store.Client.Recent.{pushes, values_of, last_n, redis_lrange-pushes}
use becertain.Store.Events.{
  DeploymentEvent, events_key, max_events, coerce_event, document, read_events, or_no_events, load,
  append,
}

module _ {F : Type 0} (json : Json F) where
  text_fields-dict_of :
      (entries : List (String × String)) → text_fields (dict_of {F = F} entries) ≡ some entries
  text_fields-dict_of [] = refl
  text_fields-dict_of ((key, item) ∷ entries) =
      ap (λ o. o >>= (λ rest. some ((key, item) ∷ rest))) (text_fields-dict_of entries)

  -- Every field of an event survives its document.
  coerce_event-document :
      (event : DeploymentEvent F) → coerce_event json (document event) ≡ some event
  unfolding coerce_event get_field
  coerce_event-document event = rw (text_fields-dict_of event.metadata) refl

  module _ (text_of : DeploymentEvent F → String) where
    abbrev pub texts : List (DeploymentEvent F) → List String
    texts [] = []
    texts (event ∷ events) = text_of event ∷ texts events

    -- The `json` module writes the event as that text, and reads it back.
    abbrev pub IsDumped : DeploymentEvent F → Type 0
    IsDumped event =
        (json.dumps (document event) ≡ some (text_of event))
        × (json.loads (text_of event) ≡ some (document event))

    All-drop :
        (k : ℕ) (events : List (DeploymentEvent F))
        → All IsDumped events
        → All IsDumped (drop k events)
    All-drop zero events h = h
    All-drop (suc k) [] h = tt
    All-drop (suc k) (event ∷ events) h = All-drop k events h.1

    read_events-texts :
        (events : List (DeploymentEvent F))
        → All IsDumped events
        → read_events json (texts events) ≡ some events
    unfolding read_events
    read_events-texts [] h = refl
    read_events-texts (event ∷ events) h =
        rw (h.0.1, read_events-texts events h.1, coerce_event-document event) refl

    length-texts : (events : List (DeploymentEvent F)) → length (texts events) ≡ length events
    length-texts [] = refl
    length-texts (event ∷ events) = ap suc (length-texts events)

    drop-texts :
        (k : ℕ) (events : List (DeploymentEvent F)) → drop k (texts events) ≡ texts (drop k events)
    drop-texts zero events = refl
    drop-texts (suc k) [] = refl
    drop-texts (suc k) (event ∷ events) = drop-texts k events

    last_n-texts :
        (n : ℕ) (events : List (DeploymentEvent F))
        → last_n n (texts events) ≡ texts (last_n n events)
    last_n-texts n events =
        ap (λ k. drop (k - n) (texts events)) (length-texts events)
        ∙ drop-texts (length events - n) events

    module _ {R : Type 0} (redis : Redis R) where
      abbrev pub append_all :
          String → Option ℕ → List (DeploymentEvent F × ℕ × ℕ) → Store R → Store R
      append_all tenant_id ttl [] s = s
      append_all tenant_id ttl ((event, now, then') ∷ events) s =
          append_all tenant_id ttl events (append json redis tenant_id event ttl now then' s)

      abbrev pub events_of : List (DeploymentEvent F × ℕ × ℕ) → List (DeploymentEvent F)
      events_of [] = []
      events_of ((event, now, then') ∷ events) = event ∷ events_of events

      abbrev items_of : List (DeploymentEvent F × ℕ × ℕ) → List (String × ℕ × ℕ)
      items_of [] = []
      items_of ((event, now, then') ∷ events) = (text_of event, now, then') ∷ items_of events

      append-dumped :
          (tenant_id : String) (ttl : Option ℕ) (event : DeploymentEvent F) (now then' : ℕ)
          (s : Store R)
          → json.dumps (document event) ≡ some (text_of event)
          → append json redis tenant_id event ttl now then' s
            ≡ (redis_rpush redis
                (events_key tenant_id)
                (text_of event)
                ttl
                (some max_events)
                now
                then'
                s).1
      unfolding append
      append-dumped tenant_id ttl event now then' s dumped = rw (append, dumped) refl

      module _ (down : (r : R) → (redis.connect r).0 ≡ false) where
        append_all-pushes :
            (tenant_id : String) (ttl : Option ℕ) (events : List (DeploymentEvent F × ℕ × ℕ))
            (s : Store R)
            → All IsDumped (events_of events)
            → append_all tenant_id ttl events s
              ≡ after_all redis
                  (pushes redis down (events_key tenant_id) ttl max_events (items_of events))
                  s
        append_all-pushes tenant_id ttl [] s h = refl
        append_all-pushes tenant_id ttl ((event, now, then') ∷ events) s h =
            ap (append_all tenant_id ttl events)
              (append-dumped tenant_id ttl event now then' s h.0.0)
            ∙ append_all-pushes tenant_id ttl events _ h.1

        values_of-items_of :
            (events : List (DeploymentEvent F × ℕ × ℕ))
            → values_of redis down (items_of events) ≡ texts (events_of events)
        values_of-items_of [] = refl
        values_of-items_of ((event, now, then') ∷ events) =
            ap (◌∷◌ (text_of event)) (values_of-items_of events)

-- With a `json` module that reads back the events that it wrote, and while Redis is down: the events of a
-- tenant that had none are, after any appends, the last 500 appended, in their order and with all
-- their fields.
pub load-append_all :
    {F R : Type 0} (json : Json F) (text_of : DeploymentEvent F → String) (redis : Redis R)
    (tenant_id : String) (ttl : Option ℕ) (events : List (DeploymentEvent F × ℕ × ℕ)) (s : Store R)
    (now then' : ℕ)
    → All (IsDumped json text_of) (events_of json text_of redis events)
    → ((r : R) → (redis.connect r).0 ≡ false)
    → s.redis_client ≡ false
    → IsSound redis s
    → items redis (events_key tenant_id) s ≡ []
    → (load json redis tenant_id now then' (append_all json text_of redis tenant_id ttl events s)).0
      ≡ last_n max_events (events_of json text_of redis events)
unfolding load
load-append_all json text_of redis tenant_id ttl events s now then' dumped down off i fresh =
    let key = events_key tenant_id in
    let appended = append_all-pushes json text_of redis down tenant_id ttl events s dumped in
    let pushed =
      redis_lrange-pushes redis down key ttl 499 (items_of json text_of redis events) s now then'
        off i fresh in
    let values = values_of-items_of json text_of redis down events in
    let stored = last_n-texts json text_of max_events (events_of json text_of redis events) in
    let read =
      read_events-texts json text_of (last_n max_events (events_of json text_of redis events)) (
        All-drop json text_of (length (events_of json text_of redis events) - max_events)
          (events_of json text_of redis events) dumped) in
    ap (λ t. or_no_events json (read_events json (redis_lrange redis key now then' t).0)) appended
    ∙ ap (λ items. or_no_events json (read_events json items))
        (pushed ∙ ap (last_n max_events) values ∙ stored)
    ∙ ap (or_no_events json) read
