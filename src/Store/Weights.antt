-- ===== src/Store/Weights.antt =====
-- store/weights.py: the weights of a tenant, as one JSON text in the store. The `OverflowError` of an
-- infinite count, which nothing catches, is an outer `none`.
pub mod Trip
use Prim.Native.String.{◌++◌}
use becertain.Prelude.{
  ℕ, zero, suc, String, Bool, true, false, List, [], ◌∷◌, Option, none, some, str_eq, if◌then◌else◌,
}
use becertain.Value.{
  ℤ, pos, negsuc, Value, Fields, null, bool, int, float, str, list, dict, field, end, get_field,
  or_null,
}
use becertain.Store.Documents.{Json, get_or}
use becertain.Store.Reading.{Reading, got, refused, overflowed, of_option}
use becertain.Store.Client.{Redis, Store, redis_get, redis_set, redis_delete}

pub record StoredWeights (F : Type 0) : Type 0 where
  pub weights : Fields F
  pub update_count : ℕ

-- `keys.weights`
abbrev pub weights_key : String → String
weights_key tenant_id = "bc:" ++ (tenant_id ++ ":weights")

-- `max(0, n)`
abbrev pub not_negative : ℤ → ℕ
not_negative (pos n) = n
not_negative (negsuc n) = 0

abbrev pub or_zero : Option ℤ → ℤ
or_zero none = pos 0
or_zero (some n) = n

-- `int(flag)`
abbrev pub int_of_bool : Bool → ℤ
int_of_bool false = pos 0
int_of_bool true = pos 1

-- The document that `save` dumps.
abbrev pub weights_document : {F : Type 0} → Fields F → ℕ → Value F
weights_document weight_map update_count =
    dict (field "weights" (dict weight_map) (field "update_count" (int (pos update_count)) end))

module _ {F : Type 0} (json : Json F) where
  -- The branches on the type of the count.
  abbrev pub count_of : Value F → Reading ℤ
  count_of (bool b) = got (int_of_bool b)
  count_of (int n) = got n
  count_of (float x) = if json.is_infinite x then overflowed else of_option (json.int_of_float x)
  count_of (str s) = got (or_zero (json.int_of_text s))
  count_of _ = got (pos 0)

  -- The `ValueError` is caught, the `OverflowError` is `none`.
  abbrev pub with_count : Fields F → Reading ℤ → Option (Option (StoredWeights F))
  with_count weights refused = some none
  with_count weights overflowed = none
  with_count weights (got count) =
      some (some (record { weights = weights; update_count = not_negative count }))

  abbrev pub stored_of : Fields F → Option (Value F) → Option (Option (StoredWeights F))
  stored_of payload (some (dict weights)) =
      with_count weights (count_of (get_or (get_field "update_count" payload) (int (pos 0))))
  stored_of payload _ = some none

  abbrev pub stored_payload : Option (Value F) → Option (Option (StoredWeights F))
  stored_payload (some (dict payload)) = stored_of payload (get_field "weights" payload)
  stored_payload _ = some none

  -- What follows `redis_get`.
  abbrev pub read_weights : Option String → Option (Option (StoredWeights F))
  read_weights none = some none
  read_weights (some raw) = if str_eq raw "" then some none else stored_payload (json.loads raw)

  module _ {R : Type 0} (redis : Redis R) where
    unfoldable pub load_weights :
        String → ℕ → ℕ → Store R → Option (Option (StoredWeights F)) × Store R
    load_weights tenant_id now then' s =
        let (raw, s') = redis_get redis (weights_key tenant_id) now then' s in
        (read_weights raw, s')

    unfoldable pub save_weights : String → Fields F → ℕ → Option ℕ → ℕ → ℕ → Store R → Store R
    save_weights tenant_id weight_map update_count ttl now then' s =
        elim (json.dumps (weights_document weight_map update_count)) [
          | none ↦ s
          | some text ↦ (redis_set redis (weights_key tenant_id) text ttl now then' s).1
        ]

    unfoldable pub delete_weights : String → ℕ → ℕ → Store R → Store R
    delete_weights tenant_id now then' s =
        (redis_delete redis (weights_key tenant_id) now then' s).1
