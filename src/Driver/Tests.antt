-- ===== src/Driver/Tests.antt =====
-- A client that fails at its third operation.
use rabia_sandbox.Base.{ℕ, ◌+◌, List, [], ◌∷◌, some, false, ◌==◌, ◌≡◌, refl, arith, if◌then◌else◌}
use rabia_sandbox.Status.{Status, ok, internal_error}
use rabia_sandbox.Driver.{Client, Driver, FixedLength, run, next_test, next_fixed}
use rabia_sandbox.Driver.Streams.{generated, next_test-Yields}
use rabia_sandbox.Driver.Runs.{IsSampled, apply_all, sum, of_stream, run-apply_all, run_fixed-test}

instance adder : Client ℕ ℕ
adder = record {
  start = λ c. (ok, c);
  apply = λ op c. (if op == 13 then internal_error else ok, c + op);
  stop = λ c. (ok, c);
}

abbrev ops : List ℕ
ops = 11 ∷ 12 ∷ 13 ∷ 14 ∷ []

abbrev new : Driver ℕ (List ℕ)
new = record {
  client = 0;
  stream = record { terminated = false; inner = ops };
  ops = 0;
  prev_ops = 0;
  samples = [];
}

new-IsSampled : IsSampled new
unfolding sum
new-IsSampled = record { sampled = refl; order = omega arith }

run-apply_all_example :
    (d' : Driver ℕ (List ℕ)) × (run next_test 5 (λ n. n == 1) new ≡ some (ok, d'))
    × (d'.client ≡ 36)
    × (d'.ops ≡ 2)
    × IsSampled d'
unfolding adder apply_all
run-apply_all_example =
    run-apply_all next_test ops 5 (λ n. n == 1) new (omega arith) refl (next_test-Yields ops)
      new-IsSampled refl

run_fixed-test_example :
    (st : Status) × (d : Driver ℕ (FixedLength ℕ)) × (e : Driver ℕ (List ℕ)) × (run
        (next_fixed (λ g. (g, g + 1)))
        5
        (λ n. false)
        (of_stream {G = ℕ} (λ g. (g, g + 1)) 0 (record { generator = 11; length = 3; count = 0 }))
      ≡ some (st, d))
    × (run next_test 5
          (λ n. false)
          (of_stream {G = ℕ} (λ g. (g, g + 1)) 0 (generated (λ g. (g, g + 1)) 3 11))
        ≡ some (st, e))
    × (d.client ≡ e.client)
    × (d.ops ≡ e.ops)
unfolding adder generated
run_fixed-test_example =
    run_fixed-test (λ (g : ℕ). (g, g + 1)) 3 5 (λ n. false) 0 11 (omega arith) refl
