-- ===== src/Correlation/Services.antt =====
-- Which services a signal names: `_normalize_service`, `_service_tokens_from_metric_name` and
-- `_service_tokens_from_log_burst`. A set of names is a list of which only the elements count.
use Prim.Native.Char.{code}
use becertain.Prelude.{
  ℕ, zero, suc, ◌+◌, ◌-◌, String, not, ◌&&◌, ◌||◌, List, [], ◌∷◌, Option, none, some, str_eq, ◌==◌,
  if◌then◌else◌, strip, map, filter, is_space,
}
use becertain.Value.{Value, Fields, dict, null, Runtime, is_truthy, get_field, or_null}
use becertain.Correlation.{LogBurst, attr_or}

-- `s.strip(c)` for one character
abbrev pub strip_char_left : ℕ → String → String
strip_char_left c String.[] = ""
strip_char_left c (String.◌∷◌ x s) = if code x == c then strip_char_left c s else String.◌∷◌ x s

abbrev pub strip_char_right : ℕ → String → String
strip_char_right c String.[] = ""
strip_char_right c (String.◌∷◌ x s) =
    let rest = strip_char_right c s in
    if (code x == c) && str_eq rest "" then "" else String.◌∷◌ x rest

abbrev pub strip_char : ℕ → String → String
strip_char c s = strip_char_right c (strip_char_left c s)

-- A match of a part of a pattern: the text that is left, and the number of characters read.
abbrev pub Rest : Type 0
Rest = String × ℕ

-- A literal at the start of the text.
abbrev pub literal : String → String → Option Rest
literal String.[] s = some (s, 0)
literal (String.◌∷◌ c cs) String.[] = none
literal (String.◌∷◌ c cs) (String.◌∷◌ x s) =
    let rest = literal cs s in
    if code c == code x then elim rest [ none ↦ none | some (s', n) ↦ some (s', suc n) ] else none

-- `\s*`
abbrev pub spaces : String → Rest
spaces String.[] = ("", 0)
spaces (String.◌∷◌ c s) =
    let (s', n) = spaces s in if is_space c then (s', suc n) else (String.◌∷◌ c s, 0)

-- `[^,}]*`, with the text that it reads
abbrev pub value_text : String → String
value_text String.[] = ""
value_text (String.◌∷◌ c s) =
    let rest = value_text s in
    if (code c == b',') || (code c == b'}') then "" else String.◌∷◌ c rest

abbrev pub text_length : String → ℕ
text_length String.[] = 0
text_length (String.◌∷◌ c s) = suc (text_length s)

-- `\s*=\s*([^,}]+)`. Where nothing but blanks stands behind the `=`, the group is the last blank.
abbrev pub assigned : String → Option (String × ℕ)
assigned s =
    let (s1, n1) = spaces s in
    elim (literal "=" s1) [
      | none ↦ none
      | some (s2, n2) ↦
          let (s3, n3) = spaces s2 in
          let group = value_text s3 in
          if str_eq group ""
          then (if n3 == 0 then none else some (" ", n1 + n2 + n3))
          else some (group, n1 + n2 + n3 + text_length group)
    ]

abbrev pub after : Option Rest → (String → Option (String × ℕ)) → Option (String × ℕ)
after none pattern = none
after (some (s, n)) pattern = elim (pattern s) [
  | none ↦ none
  | some (group, k) ↦ some (group, n + k)
]

abbrev pub or_match : Option (String × ℕ) → Option (String × ℕ) → Option (String × ℕ)
or_match none other = other
or_match (some found) other = some found

-- `_SERVICE_LABEL_RE` at the start of the text: the group, and the number of characters read
abbrev pub service_label : String → Option (String × ℕ)
service_label s = or_match (after (literal "service.name" s) assigned) (
    or_match (after (literal "service_name" s) assigned)
      (or_match (after (literal "service" s) assigned) (after (literal "job" s) assigned)))

-- `findall`, after a match has read `skip` more characters
unfoldable pub find_all : ℕ → String → List String
find_all skip String.[] = []
find_all (suc skip) (String.◌∷◌ c s) = find_all skip s
find_all zero (String.◌∷◌ c s) = elim (service_label (String.◌∷◌ c s)) [
  | none ↦ find_all zero s
  | some (group, n) ↦ group ∷ find_all (n - 1) s
]

-- `str.lower` is a parameter.
module _ (lower : String → String) where
  abbrev pub normalize_text : String → String
  normalize_text s = lower (strip_char b'\'' (strip_char b'"' (strip s)))

  -- `_service_tokens_from_metric_name`
  unfoldable pub services_of_metric : String → List String
  services_of_metric metric_name =
      filter (λ service. not (str_eq service "")) (map normalize_text (find_all 0 metric_name))

  module _ {F : Type 0} (rt : Runtime F) where
    -- `_normalize_service`
    abbrev pub normalize_service : Value F → String
    normalize_service v = normalize_text (if is_truthy rt v then rt.str_of v else "")

    abbrev pub stream_services : Fields F → List String
    stream_services stream =
        filter (λ service. not (str_eq service ""))
          (map (λ key. normalize_service (or_null (get_field key stream)))
            ("service" ∷ "service_name" ∷ "service.name" ∷ "job" ∷ []))

    abbrev pub services_of_stream : Value F → List String
    services_of_stream (dict stream) = stream_services stream
    services_of_stream _ = []

    -- `_service_tokens_from_log_burst`
    unfoldable pub services_of_burst : LogBurst F → List String
    services_of_burst burst = services_of_stream (attr_or burst.stream null)
