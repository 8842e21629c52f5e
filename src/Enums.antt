-- ===== src/Enums.antt =====
-- engine/enums.py: the severities, with their weights of config.py, and the signals.
mod Tests
use becertain.Prelude.{ℕ, ◌≤◌, Bool, true, false, if◌then◌else◌, ◌≡◌, arith}
use becertain.Floats.{Floats}

pub data Severity : Type 0 where
  low medium high critical : Severity

-- `SEVERITY_WEIGHTS[self.value]`
unfoldable pub weight : Severity → ℕ
weight low = 1
weight medium = 2
weight high = 4
weight critical = 8

-- `severity_score_medium` and the others, of the settings.
pub record Thresholds (F : Type 0) : Type 0 where
  pub severity_score_medium : F
  pub severity_score_high : F
  pub severity_score_critical : F

unfoldable pub from_score : {F : Type 0} → Floats F → Thresholds F → F → Severity
from_score fl settings score =
    if fl.le settings.severity_score_critical score
    then critical
    else if fl.le settings.severity_score_high score
    then high
    else if fl.le settings.severity_score_medium score
    then medium
    else low

pub data Signal : Type 0 where
  metrics logs traces events : Signal

-- A higher score never has a lighter severity, for every choice of the thresholds.
pub weight-from_score :
    {F : Type 0} (fl : Floats F) (settings : Thresholds F) (score score' : F)
    → ((a b c : F) → fl.le a b ≡ true → fl.le b c ≡ true → fl.le a c ≡ true)
    → fl.le score score' ≡ true
    → weight (from_score fl settings score) ≤ weight (from_score fl settings score')
unfolding weight from_score
weight-from_score fl settings score score' trans h = ground (
  arith,
  trans settings.severity_score_critical score score',
  trans settings.severity_score_high score score',
  trans settings.severity_score_medium score score',
)
