-- ===== src/Driver/Streams.antt =====
-- What a stream gives until it ends.
use rabia_sandbox.Base.{ℕ, zero, suc, ◌+◌, List, [], ◌∷◌, Option, none, some, ◌≡◌, refl, arith}
use rabia_sandbox.Status.{Status, ok, stream_terminated}
use rabia_sandbox.Driver.{next_test, next_fixed, FixedLength}

-- The stream gives these values and then ends.
pub data Yields {S A : Type 0} (next_internal : S → Status × Option A × S)
    : S → List A → Type 0 where
  done : {s s' : S} → next_internal s ≡ (stream_terminated, none, s') → Yields next_internal s []
  more :
      {s s' : S} {x : A} {xs : List A}
      → next_internal s ≡ (ok, some x, s')
      → Yields next_internal s' xs
      → Yields next_internal s (x ∷ xs)

pub next_test-Yields : {A : Type 0} (xs : List A) → Yields next_test xs xs
next_test-Yields [] = done refl
next_test-Yields (x ∷ xs) = more refl (next_test-Yields xs)

-- The first values of a generator.
unfoldable pub generated : {A G : Type 0} → (G → A × G) → ℕ → G → List A
generated generate zero g = []
generated generate (suc n) g = (generate g).0 ∷ generated generate n (generate g).1

pub next_fixed-Yields :
    {A G : Type 0} (generate : G → A × G) (n : ℕ) (s : FixedLength G)
    → s.length ≡ s.count + n
    → Yields (next_fixed generate) s (generated generate n s.generator)
unfolding next_fixed generated
next_fixed-Yields generate zero s e =
    done {s' = record s { count = s.count + 1 }} (ground (arith, e))
next_fixed-Yields generate (suc n) s e =
    more {s' = record s { count = s.count + 1; generator = (generate s.generator).1 }}
      (ground (arith, e))
      (next_fixed-Yields generate n
        (record s { count = s.count + 1; generator = (generate s.generator).1 }) (omega (arith, e)))
