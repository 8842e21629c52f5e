-- ===== src/Enums/Tests.antt =====
-- The severities of sample scores.
use becertain.Prelude.{ℕ, ◌≤◌, ◌≡◌, refl, arith}
use becertain.Floats.Sample.{whole}
use becertain.Enums.{Severity, weight, Thresholds, from_score, weight-from_score}

abbrev settings : Thresholds ℕ
settings = record {
  severity_score_medium = 30;
  severity_score_high = 60;
  severity_score_critical = 85;
}

score_run : from_score whole settings 60 ≡ Severity.high
unfolding from_score
score_run = refl

lighter_run : weight (from_score whole settings 40) ≤ weight (from_score whole settings 90)
lighter_run = weight-from_score whole settings 40 90 (λ a b c p q. ground arith) (ground arith)
