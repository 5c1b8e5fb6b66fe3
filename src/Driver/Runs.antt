-- ===== src/Driver/Runs.antt =====
-- Run, against the list of operations of its stream.
use rabia_sandbox.Base.{
  ℕ, zero, suc, ◌+◌, ◌≤◌, ◌<◌, List, [], ◌∷◌, Option, none, some, Bool, true, false, length,
  if◌then◌else◌, ◌≡◌, refl, sym, ap, arith, ◌∙◌, inl, inr, Bool-cases, subst,
}
use rabia_sandbox.Status.{Status, ok, stream_terminated}
use rabia_sandbox.Driver.{
  Client, Driver, Stream, FixedLength, is_ok, next, next_test, next_fixed, count_op, Turn, turn,
  leave, go_on, loop, run,
}
use rabia_sandbox.Driver.Streams.{
  Yields, done, more, generated, next_test-Yields, next_fixed-Yields,
}

unfoldable pub sum : List ℕ → ℕ
sum [] = 0
sum (n ∷ ns) = n + sum ns

-- Each operation is in one of the samples, or was counted after the last one.
pub record IsSampled {C S : Type 0} (d : Driver C S) : Type 0 where
  pub sampled : sum d.samples ≡ d.prev_ops
  pub order : d.prev_ops ≤ d.ops

module _ {C A : Type 0} ⦃adapter : Client C A⦄ where
  -- The operations one after the other, up to the first that fails: how many succeed, and the client.
  unfoldable pub apply_all : List A → C → ℕ × C
  apply_all [] c = (0, c)
  apply_all (op ∷ ops) c =
      let (result, c') = adapter.apply op c in
      let (n, c'') = apply_all ops c' in if is_ok result then (n + 1, c'') else (0, c')

next_gives :
    {S A : Type 0} (next_internal : S → Status × Option A × S) (s : Stream S) (st : Status)
    (x : Option A) (s' : S)
    → s.terminated ≡ false
    → next_internal s.inner ≡ (st, x, s')
    → next next_internal s ≡ (st, x, record s { inner = s' })
unfolding next
next_gives next_internal s st x s' live e = ground (arith, live, e)

module _ {C S A : Type 0} ⦃adapter : Client C A⦄ (next_internal : S → Status × Option A × S) where
  count_op-IsSampled :
      (due : Bool) (d : Driver C S) → IsSampled d → IsSampled (count_op {A = A} next_internal due d)
  unfolding sum
  count_op-IsSampled true d good = record {
    sampled = omega (arith, good.sampled, good.order);
    order = omega arith;
  }
  count_op-IsSampled false d good = record {
    sampled = good.sampled;
    order = omega (arith, good.order);
  }

  -- The driver when the loop is left.
  pub record After (ops : List A) (d d' : Driver C S) : Type 0 where
    pub client : d'.client ≡ (apply_all ops d.client).1
    pub count : d'.ops ≡ d.ops + (apply_all ops d.client).0
    pub good : IsSampled d'

  counted_ops :
      (due : Bool) (d : Driver C S) → (count_op {A = A} next_internal due d).ops ≡ d.ops + 1
  counted_ops true d = refl
  counted_ops false d = refl

  counted_client :
      (due : Bool) (d : Driver C S) → (count_op {A = A} next_internal due d).client ≡ d.client
  counted_client true d = refl
  counted_client false d = refl

  counted_stream :
      (due : Bool) (d : Driver C S) → (count_op {A = A} next_internal due d).stream ≡ d.stream
  counted_stream true d = refl
  counted_stream false d = refl

  -- The driver with what the stream and the client have become.
  abbrev moved : Driver C S → S → C → Driver C S
  moved d s c = record d { client = c; stream = record d.stream { inner = s } }

  abbrev resume : ℕ → (ℕ → Bool) → Status → Turn C S → Option (Status × Driver C S)
  resume fuel due status (leave st d) = some (st, d)
  resume fuel due status (go_on d) = loop next_internal fuel due status d

  loop_turns :
      (fuel : ℕ) (due : ℕ → Bool) (status : Status) (d : Driver C S) (st : Status) (x : Option A)
      (s' : S)
      → d.stream.terminated ≡ false
      → next_internal d.stream.inner ≡ (st, x, s')
      → loop next_internal (suc fuel) due status d
        ≡ resume fuel due status
            (turn next_internal due status d (st, x, record d.stream { inner = s' }))
  unfolding loop
  loop_turns fuel due status d st x s' live e =
      ap
        (λ (r : Status × Option A × Stream S).
          resume fuel due status (turn next_internal due status d r))
        (next_gives next_internal d.stream st x s' live e)

  loop_ends :
      (fuel : ℕ) (due : ℕ → Bool) (status : Status) (d : Driver C S) (s' : S)
      → d.stream.terminated ≡ false
      → next_internal d.stream.inner ≡ (stream_terminated, none, s')
      → loop next_internal (suc fuel) due status d ≡ some (status, moved d s' d.client)
  unfolding turn
  loop_ends fuel due status d s' live e =
      loop_turns fuel due status d stream_terminated none s' live e

  loop_goes :
      (fuel : ℕ) (due : ℕ → Bool) (status : Status) (d : Driver C S) (op : A) (s' : S)
      → d.stream.terminated ≡ false
      → next_internal d.stream.inner ≡ (ok, some op, s')
      → let (result, c) = adapter.apply op d.client in
        loop next_internal (suc fuel) due status d
        ≡ resume fuel due status (
            if is_ok result
            then go_on (count_op {A = A} next_internal (due d.ops) (moved d s' c))
            else leave result (moved d s' c))
  unfolding turn
  loop_goes fuel due status d op s' live e = loop_turns fuel due status d ok (some op) s' live e

  loop-After :
      (ops : List A) (fuel : ℕ) (due : ℕ → Bool) (status : Status) (d : Driver C S)
      → length ops < fuel
      → d.stream.terminated ≡ false
      → Yields next_internal d.stream.inner ops
      → IsSampled d
      → (st : Status) × (d' : Driver C S) × (loop next_internal fuel due status d ≡ some (st, d'))
        × After ops d d'
  unfolding apply_all
  loop-After ops zero due status d enough live yields good = absurd (omega arith)
  loop-After [] (suc fuel) due status d enough live (done {s' = s'} e) good = (
    status,
    moved d s' d.client,
    loop_ends fuel due status d s' live e,
    record {
      client = refl;
      count = omega arith;
      good = record { sampled = good.sampled; order = good.order };
    },
  )
  loop-After (op ∷ ops) (suc fuel) due status d enough live (more {s' = s'} e rest) good =
      let (result, c) = adapter.apply op d.client in
      let applied = moved d s' c in
      let good' : IsSampled applied = record { sampled = good.sampled; order = good.order } in
      let next_d = count_op {A = A} next_internal (due d.ops) applied in
      let counted = counted_ops (due d.ops) applied in
      let same = counted_client (due d.ops) applied in
      let kept = counted_stream (due d.ops) applied in
      elim (Bool-cases (is_ok result)) [
        | inr bad ↦ (
          result,
          applied,
          loop_goes fuel due status d op s' live e ∙ rw bad refl,
          record { client = rw bad refl; count = rw bad (omega arith); good = good' },
        )
        | inl fine ↦
            let (st, d', run', after) =
              loop-After ops fuel due status next_d (omega (arith, enough))
                (ap (λ (x : Stream S). x.terminated) kept ∙ live)
                (subst (λ (x : Stream S). Yields next_internal x.inner ops) (sym kept) rest)
                (count_op-IsSampled (due d.ops) applied good') in
            (
              st,
              d',
              loop_goes fuel due status d op s' live e ∙ rw fine run',
              record {
                client = after.client ∙ ap (λ (x : C). (apply_all ops x).1) same ∙ rw fine refl;
                count =
                    after.count
                    ∙ ap (λ (x : C). next_d.ops + (apply_all ops x).0) same
                    ∙ (let total : next_d.ops + (apply_all ops c).0
                            ≡ d.ops + ((apply_all ops c).0 + 1) =
                          omega (arith, counted) in
                        total ∙ rw fine refl);
                good = after.good;
              },
            )
      ]

  -- For a stream that gives these operations and then ends, and a client that starts, `Run` with enough
  -- fuel applies them in order up to the first that fails, counts those that succeed, and stops the client.
  -- It returns the status of Stop, also where an operation failed. The rates are sampled without loss:
  -- the operations of all samples are those up to the last sample.
  pub run-apply_all :
      (ops : List A) (fuel : ℕ) (due : ℕ → Bool) (d : Driver C S)
      → length ops < fuel
      → d.stream.terminated ≡ false
      → Yields next_internal d.stream.inner ops
      → IsSampled d
      → is_ok (adapter.start d.client).0 ≡ true
      → let (n, c) = apply_all ops (adapter.start d.client).1 in
        (d' : Driver C S) × (run next_internal fuel due d ≡ some ((adapter.stop c).0, d'))
        × (d'.client ≡ (adapter.stop c).1)
        × (d'.ops ≡ d.ops + n)
        × IsSampled d'
  unfolding run
  run-apply_all ops fuel due d enough live yields good starts =
      let c = (adapter.start d.client).1 in
      let d₁ = record d { client = c } in
      let (st, d₂, looped, after) =
        loop-After ops fuel due (adapter.start d.client).0 d₁ enough live yields
          (record { sampled = good.sampled; order = good.order }) in
      let same = after.client in
      (
        record d₂ { client = (adapter.stop d₂.client).1 },
        rw starts (
            rw looped (
              ap
                (λ (x : C).
                  some ((adapter.stop x).0, record d₂ { client = (adapter.stop d₂.client).1 }))
                same)),
        ap (λ (x : C). (adapter.stop x).1) same,
        after.count,
        record { sampled = after.good.sampled; order = after.good.order },
      )

module _ {C A G : Type 0} ⦃adapter : Client C A⦄ (generate : G → A × G) where
  abbrev pub of_stream : {S : Type 0} → C → S → Driver C S
  of_stream c s = record {
    client = c;
    stream = record { terminated = false; inner = s };
    ops = 0;
    prev_ops = 0;
    samples = [];
  }

  new-IsSampled : {S : Type 0} (c : C) (s : S) → IsSampled (of_stream c s)
  unfolding sum
  new-IsSampled c s = record { sampled = refl; order = omega arith }

  -- A run on a FixedLengthStream and one on a TestStream of the values that its generator gives first
  -- return the same status, with the client in the same state and the same count of operations.
  pub run_fixed-test :
      (n fuel : ℕ) (due : ℕ → Bool) (c : C) (g : G)
      → length (generated generate n g) < fuel
      → is_ok (adapter.start c).0 ≡ true
      → (st : Status) × (d : Driver C (FixedLength G)) × (e : Driver C (List A)) × (run
            (next_fixed generate)
            fuel
            due
            (of_stream c (record { generator = g; length = n; count = 0 }))
          ≡ some (st, d))
        × (run next_test fuel due (of_stream c (generated generate n g)) ≡ some (st, e))
        × (d.client ≡ e.client)
        × (d.ops ≡ e.ops)
  run_fixed-test n fuel due c g enough starts =
      let ops = generated generate n g in
      let s : FixedLength G = record { generator = g; length = n; count = 0 } in
      let (d, run₁, client₁, count₁, good₁) =
        run-apply_all (next_fixed generate) ops fuel due (of_stream c s) enough refl
          (next_fixed-Yields generate n s (omega arith)) (new-IsSampled c s) starts in
      let (e, run₂, client₂, count₂, good₂) =
        run-apply_all next_test ops fuel due (of_stream c ops) enough refl (next_test-Yields ops)
          (new-IsSampled c ops) starts in
      (_, d, e, run₁, run₂, client₁ ∙ sym client₂, count₁ ∙ sym count₂)
