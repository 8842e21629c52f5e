-- ===== src/Correlation/Sample.antt =====
-- Whole numbers in the place of floats, and samples of the signals, for the tests of the modules that
-- read them.
use becertain.Prelude.{
  ℕ, ◌+◌, ◌-◌, ◌*◌, ◌/◌, String, Option, none, some, ltb, leb, ◌==◌, if◌then◌else◌, false, true,
}
use becertain.Value.{Value, pos, float, int, str, Runtime}
use becertain.Enums.{Severity}
use becertain.Correlation.{Arithmetic, MetricAnomaly, LogBurst}

abbrev pub whole_number : Value ℕ → Option ℕ
whole_number (float x) = some x
whole_number _ = none

abbrev pub quotient : ℕ → ℕ → Option ℕ
quotient a b = if b == 0 then none else some (a / b)

abbrev pub whole : Arithmetic ℕ
whole = record {
  lt = ltb;
  le = leb;
  eq = ◌==◌;
  add = ◌+◌;
  sub = ◌-◌;
  mul = ◌*◌;
  div = quotient;
  of_nat = λ n. n;
  round = λ digits x. x;
  is_nan = λ x. false;
  to_float = whole_number;
}

abbrev pub shown : Value ℕ → String
shown (str s) = s
shown (int (pos n)) = if n == 2 then "2" else "1"
shown _ = "?"

abbrev pub runtime : Runtime ℕ
runtime = record {
  str_of = shown;
  int_of_text = λ s. none;
  is_finite = λ x. true;
  truncate = pos;
  is_zero = λ x. x == 0;
}

abbrev pub anomaly : String → ℕ → MetricAnomaly ℕ
anomaly metric_name timestamp = record {
  metric_name = metric_name;
  timestamp = timestamp;
  severity = Severity.low;
}

abbrev pub burst : LogBurst ℕ
burst = record {
  start = none;
  end = none;
  window_start = some (float 100);
  window_end = some (float 110);
  stream = none;
}
