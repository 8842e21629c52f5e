-- ===== src/Security/Texts.antt =====
-- The methods of `str` and the set operations that services/security_service.py uses.
use Prim.Native.String.{◌++◌, compare}
use Prim.Native.Nat.{Ordering}
use Prim.Native.Char.{Char, code}
use becertain.Prelude.{
  Bool, true, ltb, ◌&&◌, String, List, [], ◌∷◌, Option, none, some, if◌then◌else◌, str_eq, ◌==◌,
}

abbrev pub push_front : Char → List String → List String
push_front c [] = []
push_front c (first ∷ others) = String.◌∷◌ c first ∷ others

-- `s.split(",")`
abbrev pub split_commas : String → List String
split_commas String.[] = "" ∷ []
split_commas (String.◌∷◌ c s) =
    let rest = split_commas s in if code c == b',' then "" ∷ rest else push_front c rest

-- `sorted(set(...))`
abbrev pub insert_unique : String → List String → List String
insert_unique s [] = s ∷ []
insert_unique s (t ∷ ts) = elim (compare s t) [
  | Ordering.lt ↦ s ∷ t ∷ ts
  | Ordering.eq ↦ t ∷ ts
  | Ordering.gt ↦ t ∷ insert_unique s ts
]

abbrev pub sorted_set : List String → List String
sorted_set [] = []
sorted_set (s ∷ ss) = insert_unique s (sorted_set ss)

-- `",".join(...)`
abbrev pub join_commas : List String → String
join_commas [] = ""
join_commas (s ∷ []) = s
join_commas (s ∷ t ∷ ts) = s ++ ("," ++ join_commas (t ∷ ts))

-- `s.split(" ", 1)`, where it gives two parts
abbrev pub split_space : String → Option (String × String)
split_space String.[] = none
split_space (String.◌∷◌ c s) =
    let rest = split_space s in
    if code c == 32
    then some ("", s)
    else elim rest [ none ↦ none | some (a, b) ↦ some (String.◌∷◌ c a, b) ]

-- `s.isascii()`
unfoldable pub is_ascii : String → Bool
is_ascii String.[] = true
is_ascii (String.◌∷◌ c s) = ltb (code c) 128 && is_ascii s

-- `headers.get(name, "")`
abbrev pub or_empty : Option String → String
or_empty none = ""
or_empty (some text) = text

-- An absent header and an empty one are alike.
abbrev pub present_text : Option String → Option String
present_text none = none
present_text (some text) = if str_eq text "" then none else some text
