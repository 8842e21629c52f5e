-- ===== src/Settings/Request/Refused.antt =====
-- How `prepare_request` refuses a document.
use becertain.Prelude.{◌≡◌, ◌≢◌, String, List, Option, none, some, str_eq, inr, strip, false}
use becertain.Settings.{Yaml, ok}
use becertain.Settings.Constants.Refused.{HasOverflow}
use becertain.Settings.Document.{ConfigDocument, value_at}
use becertain.Settings.Request.{Env, AnalyzeRequest, parse_document, unbuilt}

module _ {F : Type 0} where
  -- A key of a dict.
  abbrev pub HasKey : String → List (String × Yaml F) → Type 0
  HasKey key d = value_at key d ≢ none

module _ {F : Type 0} (env : Env F) where
  -- A validated `Settings` has every field that `settings` has.
  abbrev pub HasAllFields : Type 0
  HasAllFields =
      (key : String) (d v : List (String × Yaml F))
      → env.model_validate d ≡ inr v
      → HasKey key env.current
      → HasKey key v

  -- The text has a scalar that `yaml.safe_load` cannot build.
  abbrev pub HasUnbuilt : Option String → Type 0
  HasUnbuilt none = ⊥
  HasUnbuilt (some raw) = (str_eq (strip raw) "" ≡ false) × (env.safe_load raw ≡ unbuilt)

  -- The document of the request has a number among its constants that does not fit.
  unfoldable pub HasLargeNumber : {R : Type 0} → AnalyzeRequest F R → Type 0
  HasLargeNumber req =
      (d : ConfigDocument F) × (parse_document env req.config_yaml ≡ ok d)
      × HasOverflow env.python d.constants
