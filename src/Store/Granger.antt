-- ===== src/Store/Granger.antt =====
-- store/granger.py: the Granger results of a service, merged with those stored before.
pub mod Distinct
pub mod Merge
use Prim.Native.String.{◌++◌}
use becertain.Prelude.{
  ℕ, String, Bool, true, false, List, [], ◌∷◌, Option, none, some, if◌then◌else◌, str_eq, map,
}
use becertain.Floats.{Floats}
use becertain.Value.{
  ℤ, Value, Items, Fields, bool, int, str, float, list, dict, nil, cons, field, end, get_field,
  or_null,
}
use becertain.Store.Reading.{Reading, got, refused, overflowed, of_option, ◌>>=◌}
use becertain.Store.Documents.{Json, as_text, as_bool, coerce_int, coerce_float}
use becertain.Store.Client.{Redis, Store, redis_get, redis_set, lookup, assign}

-- `GrangerResult` and `GrangerRecord`, which have the same fields.
pub record GrangerRecord (F : Type 0) : Type 0 where
  pub cause_metric : String
  pub effect_metric : String
  pub max_lag : ℤ
  pub f_statistic : F
  pub p_value : F
  pub is_causal : Bool
  pub strength : F

-- `_pair_key`
abbrev pub pair_key : {F : Type 0} → GrangerRecord F → String
pair_key r = r.cause_metric ++ (">>>" ++ r.effect_metric)

module _ {F : Type 0} (json : Json F) where
  unfoldable pub coerce_record : Value F → Reading (GrangerRecord F)
  unfolding get_field
  coerce_record (dict value) = do
    cause_metric ← of_option (as_text (or_null (get_field "cause_metric" value)))
    effect_metric ← of_option (as_text (or_null (get_field "effect_metric" value)))
    max_lag ← coerce_int json (or_null (get_field "max_lag" value))
    f_statistic ← of_option (coerce_float json (or_null (get_field "f_statistic" value)))
    p_value ← of_option (coerce_float json (or_null (get_field "p_value" value)))
    strength ← of_option (coerce_float json (or_null (get_field "strength" value)))
    is_causal ← of_option (as_bool (or_null (get_field "is_causal" value)))
    got (record {
      cause_metric = cause_metric;
      effect_metric = effect_metric;
      max_lag = max_lag;
      f_statistic = f_statistic;
      p_value = p_value;
      is_causal = is_causal;
      strength = strength;
    })
  coerce_record _ = refused

  abbrev pub add_record :
      Reading (GrangerRecord F) → Option (List (GrangerRecord F)) → Option (List (GrangerRecord F))
  add_record refused records = records
  add_record overflowed records = none
  add_record (got r) none = none
  add_record (got r) (some records) = some (r ∷ records)

  -- `none` is the `OverflowError` of an item.
  abbrev pub coerce_records : Items F → Option (List (GrangerRecord F))
  coerce_records nil = some []
  coerce_records (cons item rest) = add_record (coerce_record item) (coerce_records rest)

  abbrev pub records_of : Option (Value F) → Option (List (GrangerRecord F))
  records_of (some (list items)) = coerce_records items
  records_of _ = some []

  -- `if raw`
  abbrev pub parse_records : Option String → Option (List (GrangerRecord F))
  parse_records none = some []
  parse_records (some raw) = if str_eq raw "" then some [] else records_of (json.loads raw)

  abbrev pub record_document : GrangerRecord F → Value F
  record_document r = dict (
      field "cause_metric" (str r.cause_metric) (
        field "effect_metric" (str r.effect_metric) (
          field "max_lag" (int r.max_lag) (
            field "f_statistic" (float r.f_statistic) (
              field "p_value" (float r.p_value) (
                field "is_causal" (bool r.is_causal) (field "strength" (float r.strength) end)))))))

  abbrev pub items_of : List (GrangerRecord F) → Items F
  items_of [] = nil
  items_of (r ∷ rs) = cons (record_document r) (items_of rs)

  module _ {R : Type 0} (redis : Redis R) (granger_key : String → String → String) where
    unfoldable pub load :
        String → String → ℕ → ℕ → Store R → Option (List (GrangerRecord F)) × Store R
    load tenant_id service now then' s =
        let (raw, s') = redis_get redis (granger_key tenant_id service) now then' s in
        (parse_records raw, s')

-- The dict that `save_and_merge` and `load_all_services` build, by pair.
abbrev pub Stored : Type 0 → Type 0
Stored F = List (String × GrangerRecord F)

module _ {F : Type 0} (fl : Floats F) where
  -- A new pair, or a stronger result for a pair, is put into the dict.
  abbrev pub keep_stronger : GrangerRecord F → Stored F → Stored F
  keep_stronger r stored = elim (lookup (pair_key r) stored) [
    | none ↦ assign (pair_key r) r stored
    | some existing ↦
        if fl.lt existing.strength r.strength then assign (pair_key r) r stored else stored
  ]

  unfoldable pub merge : List (GrangerRecord F) → Stored F → Stored F
  merge [] stored = stored
  merge (r ∷ rs) stored = merge rs (keep_stronger r stored)

  -- The dict comprehension over the cached records: the last one of a pair stays.
  abbrev pub index_records : List (GrangerRecord F) → Stored F → Stored F
  index_records [] stored = stored
  index_records (r ∷ rs) stored = index_records rs (assign (pair_key r) r stored)

  -- `sorted(stored.values(), key=lambda x: x["strength"], reverse=True)`; equal ones keep their order.
  abbrev pub insert_weaker : GrangerRecord F → List (GrangerRecord F) → List (GrangerRecord F)
  insert_weaker r [] = r ∷ []
  insert_weaker r (x ∷ xs) =
      if fl.lt r.strength x.strength then x ∷ insert_weaker r xs else r ∷ x ∷ xs

  unfoldable pub by_strength : Stored F → List (GrangerRecord F)
  by_strength [] = []
  by_strength ((key, r) ∷ stored) = insert_weaker r (by_strength stored)

  module _ {R : Type 0} (json : Json F) (redis : Redis R)
      (granger_key : String → String → String) where
    -- What follows `load`; `none` is its `OverflowError`.
    abbrev pub merge_and_save :
        String
        → String
        → List (GrangerRecord F)
        → Option ℕ
        → (ℕ × ℕ)
        → Option (List (GrangerRecord F))
        → Store R
        → Option (List (GrangerRecord F)) × Store R
    merge_and_save tenant_id service fresh_results ttl at none s = (none, s)
    merge_and_save tenant_id service fresh_results ttl (later, then'') (some cached) s =
        let merged = by_strength (merge fresh_results (index_records cached [])) in
        (
          some merged,
          elim (json.dumps (list (items_of json merged))) [
            | none ↦ s
            | some text ↦
                (redis_set redis (granger_key tenant_id service) text ttl later then'' s).1
          ],
        )

    unfoldable pub save_and_merge :
        String
        → String
        → List (GrangerRecord F)
        → Option ℕ
        → (ℕ × ℕ)
        → (ℕ × ℕ)
        → Store R
        → Option (List (GrangerRecord F)) × Store R
    save_and_merge tenant_id service fresh_results ttl (now, then') at' s =
        let (cached, s') = load json redis granger_key tenant_id service now then' s in
        merge_and_save tenant_id service fresh_results ttl at' cached s'
