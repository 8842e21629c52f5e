-- ===== src/Retry/Tests.antt =====
-- A function that fails twice: the world counts its calls and the time slept.
use becertain.Prelude.{ℕ, ◌+◌, ◌*◌, ◌≤◌, false, some, if◌then◌else◌, ltb, max, ◌≡◌, refl, ◌⊎◌}
use becertain.Retry.{Outcome, Retry, retry_loop, wrapper}
use becertain.Retry.Outcome.{returned, failed}
use becertain.Retry.Attempts.{Fails, is_failed, wrapper_lem}

abbrev thrice : Retry ℕ (ℕ × ℕ)
thrice = record {
  attempts = 3;
  delay = 1;
  backoff = 2;
  mul = λ a b. a * b;
  sleep = λ delay w. (w.0, w.1 + delay);
}

abbrev flaky : ℕ × ℕ → Outcome ℕ ℕ × (ℕ × ℕ)
flaky w = (if ltb w.0 2 then failed w.0 else returned w.0, (w.0 + 1, w.1))

flaky_run : wrapper thrice flaky (0, 0) ≡ some (returned 2, (3, 3))
unfolding wrapper retry_loop
flaky_run = refl

wrapper_lem_example :
    (n : ℕ) × (w' : ℕ × ℕ) × Fails thrice flaky n 1 (0, 0) w'
    × (wrapper thrice flaky (0, 0) ≡ some (flaky w'))
    × (n + 1 ≤ max 1 3)
    × ((is_failed thrice flaky (flaky w').0 ≡ false) ⊎ (n + 1 ≡ max 1 3))
wrapper_lem_example = wrapper_lem thrice flaky (0, 0)
