-- ===== src/Iht/Remote/Reads.antt =====
-- What the memory says of a key: the way down the PLists that its hashes choose.
use rabia_sandbox.Base.{
  ℕ, zero, suc, ◌+◌, ◌*◌, ◌≤◌, Option, none, some, length, ◌≡◌, ◌≢◌, ◌⊎◌, inl, inr, refl, sym,
  subst, ◌∙◌, arith,
}
use rabia_sandbox.Iht.Key.{Key}
use rabia_sandbox.Iht.Elist.{EList}
use rabia_sandbox.Iht.Elist.Laws.{lookup, IsUnique}
use rabia_sandbox.Iht.Elist.Parts.{part}
use rabia_sandbox.Iht.Remote.{level_hash, Context, Outcome, descend, do_with}
use rabia_sandbox.Iht.Remote.Steps.{descend_down}
use rabia_sandbox.Iht.Remote.Store.{Bucket, Memory, e_unlocked, p_unlocked}

module _ {κ} {K : Type 0} {V : Type κ} where
  -- The depths and the numbers of buckets that the hashes of `do_with` assume of the PLists.
  abbrev pub Deepens : Memory K V → (ℕ → ℕ) → (ℕ → ℕ) → Type 0
  Deepens m depths counts =
      (p : ℕ) (t : ℕ → Bucket) (b : ℕ)
      → m.plists p ≡ some t
      → (t b).lock ≡ p_unlocked
      → (depths (t b).base ≡ depths p + 1) × (counts (t b).base ≡ counts p * 2)

module _ {κ} {K : Type 0} {V : Type κ} ⦃key : Key K⦄ where
  -- The value of a key behind a pointer that is no PList. A list has each key once, and at most `esize`
  -- pairs.
  abbrev pub Holds : ℕ → Memory K V → K → ℕ → Option V → Type κ
  Holds esize m k base r =
      ((base ≡ 0) × (r ≡ none))
      ⊎ ((e : EList K V) × (base ≢ 0)
          × (m.elists base ≡ some e)
          × IsUnique e
          × (length e ≤ esize)
          × (r ≡ lookup k e))

  -- From the PList at a pointer, with its depth and count, the key has the value `r`, and no bucket on
  -- the way is locked.
  pub data Reads (esize : ℕ) (m : Memory K V) (k : K) (r : Option V) : ℕ → ℕ → ℕ → Type κ where
    stop :
        {p depth count : ℕ} (t : ℕ → Bucket)
        → m.plists p ≡ some t
        → (t (level_hash k depth count)).lock ≡ e_unlocked
        → Holds esize m k (t (level_hash k depth count)).base r
        → Reads esize m k r p depth count
    down :
        {p depth count : ℕ} (t : ℕ → Bucket)
        → m.plists p ≡ some t
        → (t (level_hash k depth count)).lock ≡ p_unlocked
        → Reads esize m k r (t (level_hash k depth count)).base (depth + 1) (count * 2)
        → Reads esize m k r p depth count

  -- `f` units of fuel more than the PLists on the way below the first.
  unfoldable pub rounds :
      {esize : ℕ} {m : Memory K V} {k : K} {r : Option V} {p depth count : ℕ}
      → Reads esize m k r p depth count
      → ℕ
      → ℕ
  rounds (stop t mem free holds) f = f
  rounds (down t mem calc below) f = suc (rounds below f)

  abbrev start :
      {esize : ℕ} {m : Memory K V} {k : K} {r : Option V} {p depth count : ℕ}
      → Reads esize m k r p depth count
      → ℕ
      → Bucket
  start (stop t mem free holds) = t
  start (down t mem calc below) = t

  start_lem :
      {esize : ℕ} {m : Memory K V} {k : K} {r : Option V} {p depth count : ℕ}
      (rd : Reads esize m k r p depth count)
      → m.plists p ≡ some (start rd)
  start_lem (stop t mem free holds) = mem
  start_lem (down t mem calc below) = mem

  -- The pairs of a list that go the way of the key through `j` more PLists.
  unfoldable pub sift : ℕ → K → EList K V → ℕ → ℕ → EList K V
  sift zero k e depth count = e
  sift (suc j) k e depth count =
      let h = λ (q : K). level_hash q (depth + 1) (count * 2) in
      sift j k (part h (h k) e) (depth + 1) (count * 2)

  -- The number of such pairs in the list where the key belongs.
  abbrev pub load_of :
      (esize : ℕ) (m : Memory K V) (k : K) (base : ℕ) (r : Option V)
      → Holds esize m k base r
      → ℕ
      → ℕ
      → ℕ
      → ℕ
  load_of esize m k base r (inl h) depth count j = 0
  load_of esize m k base r (inr h) depth count j = length (sift j k h.0 depth count)

  unfoldable pub load :
      {esize : ℕ} {m : Memory K V} {k : K} {r : Option V} {p depth count : ℕ}
      → Reads esize m k r p depth count
      → ℕ
      → ℕ
  load {esize} {m} {k} {r} {depth} {count} (stop t mem free holds) j =
      load_of esize m k (t (level_hash k depth count)).base r holds depth count j
  load (down t mem calc below) j = load below j

  -- A change of the memory that leaves every calcified bucket as it is.
  abbrev pub Keeps : Memory K V → Memory K V → Type 0
  Keeps m m' =
      (p : ℕ) (t : ℕ → Bucket) (b : ℕ)
      → m.plists p ≡ some t
      → (t b).lock ≡ p_unlocked
      → (t' : ℕ → Bucket) × (m'.plists p ≡ some t') × (t' b ≡ t b)

  -- `do_with` has reached the bucket of the key, whose list has `n 0` pairs, `n j` of them on its way
  -- through `j` more PLists.
  pub record End (esize : ℕ) (m : Memory K V) (k : K) (r : Option V) (n : ℕ → ℕ) (c : Context K V)
      : Type κ where
    pub mem : m.plists c.parent_ptr ≡ some c.curr
    pub free : (c.curr (level_hash k c.depth c.count)).lock ≡ e_unlocked
    pub holds : Holds esize m k (c.curr (level_hash k c.depth c.count)).base r
    pub pairs :
        (j : ℕ)
        → load_of esize m k (c.curr (level_hash k c.depth c.count)).base r holds c.depth c.count j
          ≡ n j

  abbrev pub context : Option (EList K V) → ℕ → ℕ → ℕ → ℕ → ℕ → (ℕ → Bucket) → Context K V
  context e base b p depth count curr = record {
    e = e;
    bucket_base = base;
    bucket = b;
    parent_ptr = p;
    depth = depth;
    count = count;
    curr = curr;
  }

  walk :
      {esize : ℕ} {m : Memory K V} {k : K} {r : Option V} {p depth count : ℕ}
      (rd : Reads esize m k r p depth count) (e : Option (EList K V)) (base b : ℕ)
      → (c : Context K V) × End esize m k r (load rd) c
        × ((f : ℕ) (apply : Context K V → Memory K V → Option (Outcome K V))
            → descend (rounds rd f) k apply m (context e base b p depth count (start rd))
              ≡ descend f k apply m c)
        × ((m' : Memory K V) (r' : Option V)
            → Keeps m m'
            → Reads esize m' k r' c.parent_ptr c.depth c.count
            → Reads esize m' k r' p depth count)
        × ((depths counts : ℕ → ℕ)
            → Deepens m depths counts
            → depths p ≡ depth
            → counts p ≡ count
            → (depths c.parent_ptr ≡ c.depth) × (counts c.parent_ptr ≡ c.count))
  unfolding rounds load
  walk {p} {depth} {count} (stop t mem free holds) e base b = (
    context e base b p depth count t,
    record { mem = mem; free = free; holds = holds; pairs = λ j. refl },
    (λ f apply. refl),
    (λ m' r' keeps rd. rd),
    λ depths counts deepens here wide. (here, wide),
  )
  walk {esize} {m} {k} {p} {depth} {count} (down t mem calc below) e base b =
      let j = level_hash k depth count in
      let (c, end, runs, back, levels) = walk below e base j in
      (
        c,
        end,
        (λ f apply.
            descend_down (rounds below f) k apply m (context e base b p depth count t) (start below)
              calc (start_lem below)
            ∙ runs f apply),
        (λ m' r' keeps rd.
            let (t', mem', same) = keeps p t j mem calc in
            down t' mem' (rw same calc) (
              subst (λ (s : Bucket). Reads esize m' k r' s.base (depth + 1) (count * 2)) (sym same)
                (back m' r' keeps rd))),
        λ depths counts deepens here wide.
            let (deeper, wider) = deepens p t j mem calc in
            levels depths counts deepens (rw deeper (omega (arith, here)))
              (rw wider (omega (arith, wide))),
      )

  -- `do_with` goes down to where the key belongs, and what is written there shows from the root if
  -- calcified buckets keep their contents.
  pub do_with-End :
      {esize : ℕ} {m : Memory K V} {k : K} {r : Option V} {root size : ℕ}
      (rd : Reads esize m k r root 1 size)
      → (c : Context K V) × End esize m k r (load rd) c
        × ((f : ℕ) (apply : Context K V → Memory K V → Option (Outcome K V))
            → do_with (rounds rd f) root size k apply m ≡ descend f k apply m c)
        × ((m' : Memory K V) (r' : Option V)
            → Keeps m m'
            → Reads esize m' k r' c.parent_ptr c.depth c.count
            → Reads esize m' k r' root 1 size)
        × ((depths counts : ℕ → ℕ)
            → Deepens m depths counts
            → depths root ≡ 1
            → counts root ≡ size
            → (depths c.parent_ptr ≡ c.depth) × (counts c.parent_ptr ≡ c.count))
  unfolding do_with
  do_with-End rd =
      let (c, end, runs, back, levels) = walk rd none 0 0 in
      (c, end, (λ f apply. rw (start_lem rd) (runs f apply)), back, levels)

  -- What another key reads stays if every bucket that leads to a PList stays, and every other one holds
  -- the same for that key.
  pub Reads-carry :
      {esize : ℕ} {m : Memory K V} {k : K} {r : Option V} {p depth count : ℕ} (m' : Memory K V)
      → Keeps m m'
      → ((q : ℕ) (t : ℕ → Bucket) (b : ℕ)
          → m.plists q ≡ some t
          → (t b).lock ≡ e_unlocked
          → Holds esize m k (t b).base r
          → (t' : ℕ → Bucket) × (m'.plists q ≡ some t')
            × ((t' b).lock ≡ e_unlocked)
            × Holds esize m' k (t' b).base r)
      → Reads esize m k r p depth count
      → Reads esize m' k r p depth count
  Reads-carry {k} {p} {depth} {count} m' keeps ends (stop t mem free holds) =
      let (t', mem', free', holds') = ends p t (level_hash k depth count) mem free holds in
      stop t' mem' free' holds'
  Reads-carry {esize} {k} {r} {p} {depth} {count} m' keeps ends (down t mem calc below) =
      let (t', mem', same) = keeps p t (level_hash k depth count) mem calc in
      down t' mem' (rw same calc) (
        subst (λ (s : Bucket). Reads esize m' k r s.base (depth + 1) (count * 2)) (sym same)
          (Reads-carry m' keeps ends below))

  -- The same for a change that may put PLists below a bucket, where the PLists have their depths.
  pub Reads-graft :
      {esize : ℕ} {m : Memory K V} {k : K} {r : Option V} {p depth count : ℕ} (m' : Memory K V)
      (depths counts : ℕ → ℕ)
      → Deepens m depths counts
      → Keeps m m'
      → ((q d n : ℕ) (t : ℕ → Bucket)
          → depths q ≡ d
          → counts q ≡ n
          → m.plists q ≡ some t
          → (t (level_hash k d n)).lock ≡ e_unlocked
          → Holds esize m k (t (level_hash k d n)).base r
          → Reads esize m' k r q d n)
      → depths p ≡ depth
      → counts p ≡ count
      → Reads esize m k r p depth count
      → Reads esize m' k r p depth count
  Reads-graft {p} {depth} {count} m' depths counts deepens keeps ends here wide
        (stop t mem free holds) =
      ends p depth count t here wide mem free holds
  Reads-graft {esize} {k} {r} {p} {depth} {count} m' depths counts deepens keeps ends here wide
        (down t mem calc below) =
      let (t', mem', same) = keeps p t (level_hash k depth count) mem calc in
      let (deeper, wider) = deepens p t (level_hash k depth count) mem calc in
      down t' mem' (rw same calc) (
        subst (λ (s : Bucket). Reads esize m' k r s.base (depth + 1) (count * 2)) (sym same)
          (Reads-graft m' depths counts deepens keeps ends (rw deeper (omega (arith, here)))
            (rw wider (omega (arith, wide))) below))
