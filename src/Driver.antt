-- ===== src/Driver.antt =====
-- WorkloadDriver and its streams, of oldAPIHelpMark/colosseum/workload_driver.h. The client adapter, the
-- generator of a stream and the clock are arguments. A latency or a rate is a floating point number; of
-- the rates that are sampled, the counts of operations are kept.
pub mod Streams
pub mod Runs
mod Tests
use rabia_sandbox.Base.{
  ℕ, zero, suc, ◌+◌, ◌-◌, List, [], ◌∷◌, Option, none, some, Bool, true, false, ltb, if◌then◌else◌,
}
use rabia_sandbox.Status.{Status, ok, stream_terminated}

abbrev pub is_ok : Status → Bool
is_ok ok = true
is_ok _ = false

abbrev pub is_stream_terminated : Status → Bool
is_stream_terminated stream_terminated = true
is_stream_terminated _ = false

-- Stream<T>, with what its subclass keeps.
pub record Stream (S : Type 0) : Type 0 where
  pub terminated : Bool
  pub inner : S

-- TestStream: what is left from `iter_` on.
abbrev pub next_test : {A : Type 0} → List A → Status × Option A × List A
next_test [] = (stream_terminated, none, [])
next_test (x ∷ xs) = (ok, some x, xs)

-- FixedLengthStream, with the state of its generator.
pub record FixedLength (G : Type 0) : Type 0 where
  pub generator : G
  pub length : ℕ
  pub count : ℕ

-- FixedLengthStream::NextInternal. The count goes up at the end of the stream, too.
unfoldable pub next_fixed :
    {A G : Type 0} → (G → A × G) → FixedLength G → Status × Option A × FixedLength G
next_fixed generate s =
    let counted = record s { count = s.count + 1 } in
    let (x, g) = generate s.generator in
    if ltb s.length counted.count
    then (stream_terminated, none, counted)
    else (ok, some x, record counted { generator = g })

-- TimedStream::NextInternal, on the times of the clock in seconds. `stop_time` is from the constructor.
unfoldable pub next_timed : {A G : Type 0} → (G → A × G) → ℕ → ℕ → G → Status × Option A × G
next_timed generate stop_time now g =
    let (x, g') = generate g in
    if ltb stop_time now then (stream_terminated, none, g) else (ok, some x, g')

module _ {S A : Type 0} (next_internal : S → Status × Option A × S) where
  -- Next
  unfoldable pub next : Stream S → Status × Option A × Stream S
  next s =
      let (st, x, inner) = next_internal s.inner in
      if s.terminated then (stream_terminated, none, s) else (st, x, record s { inner = inner })

abbrev pub terminate : {S : Type 0} → Stream S → Stream S
terminate s = record s { terminated = true }

-- A client adapter: Start, Apply and Stop.
pub record Client (C A : Type 0) : Type 0 where
  pub start : C → Status × C
  pub apply : A → C → Status × C
  pub stop : C → Status × C

-- WorkloadDriver. `samples` are the operations of each period that a rate is taken of, the last first.
pub record Driver (C S : Type 0) : Type 0 where
  pub client : C
  pub stream : Stream S
  pub ops : ℕ
  pub prev_ops : ℕ
  pub samples : List ℕ

-- How a round of the loop ends.
pub data Turn (C S : Type 0) : Type 0 where
  leave : Status → Driver C S → Turn C S
  go_on : Driver C S → Turn C S

module _ {C S A : Type 0} ⦃adapter : Client C A⦄ (next_internal : S → Status × Option A × S) where
  -- After an operation that succeeded: `due` tells whether the sampling period is over.
  abbrev pub count_op : Bool → Driver C S → Driver C S
  count_op due d =
      let counted = record d { ops = d.ops + 1 } in
      if due
      then record counted {
        samples = (counted.ops - counted.prev_ops) ∷ counted.samples;
        prev_ops = counted.ops;
      }
      else counted

  -- One round of the loop of Run, with what the stream gave. `due` gives for each count of operations
  -- whether the sampling period is over after the next.
  unfoldable pub turn : (ℕ → Bool) → Status → Driver C S → Status × Option A × Stream S → Turn C S
  turn due status d (st, none, s) =
      leave (if is_stream_terminated st then status else st) (record d { stream = s })
  turn due status d (st, some op, s) =
      let (result, c) = adapter.apply op d.client in
      let applied = record d { stream = s; client = c } in
      if is_ok st
      then (if is_ok result then go_on (count_op (due d.ops) applied) else leave result applied)
      else leave (if is_stream_terminated st then status else st) (record d { stream = s })

  -- The loop of Run.
  unfoldable pub loop : ℕ → (ℕ → Bool) → Status → Driver C S → Option (Status × Driver C S)
  loop zero due status d = none
  loop (suc fuel) due status d = elim (turn due status d (next next_internal d.stream)) [
    | leave st d' ↦ some (st, d')
    | go_on d' ↦ loop fuel due status d'
  ]

  -- Run. The status of the loop is not returned: the one of Stop is.
  unfoldable pub run : ℕ → (ℕ → Bool) → Driver C S → Option (Status × Driver C S)
  run fuel due d =
      let (started, c) = adapter.start d.client in
      let d₁ = record d { client = c } in
      if is_ok started
      then elim (loop fuel due started d₁) [
        | none ↦ none
        | some r ↦
            let (stopped, c') = adapter.stop r.1.client in
            some (stopped, record r.1 { client = c' })
      ]
      else some (started, d₁)
