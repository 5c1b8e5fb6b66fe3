-- ===== src/Iht/Remote/Total.antt =====
-- `insert` of RdmaIHT against the map, through every list that it has to rehash on its way.
use rabia_sandbox.Base.{
  ℕ, zero, suc, ◌+◌, ◌*◌, ◌≤◌, ◌<◌, Bool, Option, none, some, length, ltb, ◌≡◌, ◌≢◌, ◌⊎◌, inl, inr,
  refl, sym, ap, subst, ◌∙◌, arith, if◌then◌else◌, Option-cases, Bool-cases,
}
use rabia_sandbox.Iht.Key.{Key}
use rabia_sandbox.Iht.Elist.{EList}
use rabia_sandbox.Iht.Elist.Laws.{lookup, IsUnique}
use rabia_sandbox.Iht.Remote.{level_hash, Context, descend, insert, insert_apply}
use rabia_sandbox.Iht.Remote.Store.{Bucket, Memory, p_unlocked}
use rabia_sandbox.Iht.Remote.Steps.{arrive}
use rabia_sandbox.Iht.Remote.Reads.{
  Holds, Reads, down, rounds, sift, load, load_of, Keeps, End, do_with-End,
}
use rabia_sandbox.Iht.Remote.Writes.{IsMap}
use rabia_sandbox.Iht.Remote.Tree.{IsTree}
use rabia_sandbox.Iht.Remote.Insert.{kept, insert_at}
use rabia_sandbox.Iht.Remote.Calcify.{replanted, opened, full_at}
use rabia_sandbox.Iht.Remote.Replant.{Ready, after-Keeps, after-IsMap, part-Holds, new_at, gate_at}
use rabia_sandbox.Iht.Remote.Replant.Shape.{after-IsTree}

module _ {κ} {K : Type 0} {V : Type κ} ⦃key : Key K⦄ where
  -- Where `insert` is: at a bucket where the key belongs, of a PList with the depth of the context.
  record Place (esize root size : ℕ) (m : Memory K V) (f : K → Option V) (k : K) (n : ℕ → ℕ)
      (c : Context K V) : Type κ where
    pub table : IsMap esize root size m f
    pub tree : IsTree root size m
    pub end : End esize m k (f k) n c
    pub back :
        (m' : Memory K V) (w : Option V)
        → Keeps m m'
        → Reads esize m' k w c.parent_ptr c.depth c.count
        → Reads esize m' k w root 1 size
    pub deep : tree.depths c.parent_ptr ≡ c.depth
    pub wide : tree.counts c.parent_ptr ≡ c.count

  -- The context in the PList that a full list was rehashed into.
  abbrev below : K → Context K V → EList K V → ℕ → (ℕ → Bucket) → Context K V
  below k c e new_p t = record (arrive k c (some e)) {
    curr = t;
    parent_ptr = new_p;
    depth = c.depth + 1;
    count = c.count * 2;
  }

  Keeps-trans : (m m' m'' : Memory K V) → Keeps m m' → Keeps m' m'' → Keeps m m''
  Keeps-trans m m' m'' first second p t b mem calc =
      let (t', mem', same) = first p t b mem calc in
      let (t'', mem'', same') = second p t' b mem' (rw same calc) in (t'', mem'', same' ∙ same)

  -- From a full list without the key `insert` gets to such a place in the new PList, where the pairs that
  -- go the way of the key are those of the list.
  rehash_at :
      (is_local : ℕ → Bool) (esize root size : ℕ) (m : Memory K V) (f : K → Option V) (k : K)
      (v : V) {n : ℕ → ℕ} (c : Context K V) (spare : ℕ) (e : EList K V)
      → Place esize root size m f k n c
      → (c.curr (level_hash k c.depth c.count)).base ≢ 0
      → m.elists (c.curr (level_hash k c.depth c.count)).base ≡ some e
      → IsUnique e
      → length e ≤ esize
      → f k ≡ lookup k e
      → lookup k e ≡ none
      → esize ≤ length e
      → (m' : Memory K V) × (n' : ℕ → ℕ) × (c' : Context K V) × (descend
            (suc (suc spare))
            k
            (insert_apply is_local esize k v)
            m
            c
          ≡ descend spare k (insert_apply is_local esize k v) m' c')
        × Place esize root size m' f k n' c'
        × ((j : ℕ) → n' j ≤ length (sift (suc j) k e c.depth c.count))
  rehash_at is_local esize root size m f k v c spare e at nz list u few is absent full =
      let b = level_hash k c.depth c.count in
      let h = λ (q : K). level_hash q (c.depth + 1) (c.count * 2) in
      let end = at.end in
      let vacant = at.table.fresh in
      let away : c.parent_ptr ≢ m.fresh = λ same.
        let gone = (vacant m.fresh (omega arith)).0 in
        let there = end.mem in
        let moved : m.plists c.parent_ptr ≡ m.plists m.fresh = ap m.plists same in cc in
      let (m₂, t, steps, filled) =
        full_at is_local esize m k v (f k) c spare e end away nz list (λ q le. (vacant q le).1)
          absent full in
      let m₀ = opened k c m in
      let ready : Ready m c.parent_ptr b c.depth c.count c.curr e m₀ m₂ t = record {
        mem = end.mem;
        free = end.free;
        nz = nz;
        list = list;
        vacant = vacant;
        null = at.table.null;
        later = refl;
        lists = refl;
        filled = filled;
      } in
      let m' = replanted is_local m c.parent_ptr b c.curr m₂ t p_unlocked in
      let c' = below k c e m.fresh t in
      let (tree', deep', wide') =
        after-IsTree is_local m c.parent_ptr b c.depth c.count c.curr e m₀ m₂ t ready root size
          at.tree at.deep at.wide in
      let (holds, fewer) =
        part-Holds is_local m c.parent_ptr b c.depth c.count c.curr e m₀ m₂ t ready esize k (f k) u
          few (at.tree.known c.parent_ptr c.curr b end.mem) is in
      let keeps = after-Keeps is_local m c.parent_ptr b c.depth c.count c.curr e m₀ m₂ t ready in
      (
        m',
        (λ j. load_of esize m' k (t (h k)).base (f k) holds (c.depth + 1) (c.count * 2) j),
        c',
        steps,
        record {
          table =
              after-IsMap is_local m c.parent_ptr b c.depth c.count c.curr e m₀ m₂ t ready esize
                root size f at.tree at.table u few at.deep at.wide;
          tree = tree';
          end = record {
            mem = new_at is_local m c.parent_ptr b c.depth c.count c.curr e m₀ m₂ t ready;
            free = filled.free (h k);
            holds = holds;
            pairs = λ j. refl;
          };
          back = λ m'' w keep rd.
              let (t', mem', gate) =
                gate_at is_local m c.parent_ptr b c.depth c.count c.curr e m₀ m₂ t ready m'' keep in
              at.back m'' w (Keeps-trans m m' m'' keeps keep) (
                down t' mem' (rw gate refl) (
                  subst (λ (s : Bucket). Reads esize m'' k w s.base (c.depth + 1) (c.count * 2))
                    (sym gate) rd));
          deep = deep';
          wide = wide';
        },
        fewer,
      )

  -- What `insert` leaves, if it returns `f k` on the memory `m'`.
  abbrev Inserted : ℕ → ℕ → ℕ → (K → Option V) → K → V → Option (Memory K V × Option V) → Type κ
  Inserted esize root size f k v result =
      (m' : Memory K V) × (result ≡ some (m', f k))
      × IsMap esize root size m' (λ q. if key.equal k q then some (kept (f k) v) else f q)
      × IsTree root size m'

  insert_here :
      (is_local : ℕ → Bool) (esize root size : ℕ) (m : Memory K V) (f : K → Option V) (k : K)
      (v : V) {n : ℕ → ℕ} (c : Context K V) (spare : ℕ)
      → Place esize root size m f k n c
      → 1 ≤ esize
      → (f k ≢ none) ⊎ (n 0 < esize)
      → Inserted esize root size f k v
          (descend (suc (suc spare)) k (insert_apply is_local esize k v) m c)
  insert_here is_local esize root size m f k v c spare at pos room =
      insert_at is_local esize root size m f k v c spare at.table at.tree at.end at.back pos room
        at.end.holds (at.end.pairs 0)

  -- The same from any place where the list has no room.
  overflow_at :
      (is_local : ℕ → Bool) (esize root size : ℕ) (m : Memory K V) (f : K → Option V) (k : K)
      (v : V) {n : ℕ → ℕ} (c : Context K V) (spare : ℕ)
      → Place esize root size m f k n c
      → 1 ≤ esize
      → f k ≡ none
      → esize ≤ n 0
      → (holds : Holds esize m k (c.curr (level_hash k c.depth c.count)).base (f k))
      → ((i : ℕ)
          → load_of esize m k
              (c.curr (level_hash k c.depth c.count)).base
              (f k)
              holds
              c.depth
              c.count
              i
            ≡ n i)
      → (m' : Memory K V) × (n' : ℕ → ℕ) × (c' : Context K V) × (descend
            (suc (suc spare))
            k
            (insert_apply is_local esize k v)
            m
            c
          ≡ descend spare k (insert_apply is_local esize k v) m' c')
        × Place esize root size m' f k n' c'
        × ((j : ℕ) → n' j ≤ n (suc j))
  unfolding sift
  overflow_at is_local esize root size m f k v c spare at pos missing full (inl h) pairs =
      absurd (omega (arith, pairs 0))
  overflow_at is_local esize root size m f k v c spare at pos missing full
        (inr (e, nz, list, u, few, is)) pairs =
      let (m', n', c', steps, at', fewer) =
        rehash_at is_local esize root size m f k v c spare e at nz list u few is (sym is ∙ missing)
          (omega (arith, pairs 0)) in
      (m', n', c', steps, at', λ j. omega (arith, fewer j, pairs (suc j)))

  insert_deep :
      (j : ℕ) (is_local : ℕ → Bool) (esize root size : ℕ) (m : Memory K V) (f : K → Option V)
      (k : K) (v : V) {n : ℕ → ℕ} (c : Context K V) (spare : ℕ)
      → Place esize root size m f k n c
      → 1 ≤ esize
      → (f k ≢ none) ⊎ (n j < esize)
      → Inserted esize root size f k v
          (descend (suc (suc (j * 2 + spare))) k (insert_apply is_local esize k v) m c)
  insert_deep zero is_local esize root size m f k v c spare at pos room =
      insert_here is_local esize root size m f k v c (0 * 2 + spare) at pos room
  insert_deep (suc j) is_local esize root size m f k v {n = n} c spare at pos room =
      elim (Option-cases (f k)) [
        | inr (old, there) ↦
            insert_here is_local esize root size m f k v c (suc j * 2 + spare) at pos
              (inl (λ e. cc))
        | inl missing ↦ elim (Bool-cases (ltb (n 0) esize)) [
          | inl space ↦
              insert_here is_local esize root size m f k v c (suc j * 2 + spare) at pos
                (inr (ground arith))
          | inr full ↦
              let narrow : n (suc j) < esize = elim room [
                | inl there ↦ absurd (there missing)
                | inr lt ↦ lt
              ] in
              let (m', n', c', steps, at', fewer) =
                overflow_at is_local esize root size m f k v c (suc (suc (j * 2 + spare))) at pos
                  missing (ground arith) at.end.holds at.end.pairs in
              let (m'', run, table, tree) =
                insert_deep j is_local esize root size m' f k v c' spare at' pos
                  (inr (omega (arith, fewer j))) in
              let fuel : suc j * 2 + spare ≡ suc (suc (j * 2 + spare)) = omega arith in
              (m'', rw fuel (steps ∙ run), table, tree)
        ]
      ]

  -- On a memory that holds the table of a map, where the PLists are a tree and lists have at least one
  -- pair, `insert` returns if for some `j` fewer than `esize` pairs of the list where the key belongs go
  -- the way of the key through `j` more PLists, or if the key is there already. The fuel that is enough
  -- for that is two units more than the PLists on the way below the root and two for each of the `j`, and
  -- any more does as well. It gives the value that the key had, and leaves the table of the map with the
  -- new value, or with the old one where there was one, through every list that it rehashes; the PLists
  -- are a tree again.
  pub insert-IsMap :
      (is_local : ℕ → Bool) (esize root size : ℕ) (m : Memory K V) (f : K → Option V)
      (table : IsMap esize root size m f) (k : K) (v : V) (j spare : ℕ)
      → IsTree root size m
      → 1 ≤ esize
      → (f k ≢ none) ⊎ (load (table.reads k) j < esize)
      → (m' : Memory K V) × (insert is_local
            (rounds (table.reads k) (suc (suc (j * 2 + spare))))
            root
            size
            esize
            k
            v
            m
          ≡ some (m', f k))
        × IsMap esize root size m' (λ q. if key.equal k q then some (kept (f k) v) else f q)
        × IsTree root size m'
  unfolding insert
  insert-IsMap is_local esize root size m f table k v j spare tree pos room =
      let (c, end, runs, back, levels) = do_with-End (table.reads k) in
      let (deep, wide) = levels tree.depths tree.counts tree.deepens tree.top.0 tree.top.1 in
      let at : Place esize root size m f k (load (table.reads k)) c = record {
        table = table;
        tree = tree;
        end = end;
        back = back;
        deep = deep;
        wide = wide;
      } in
      let (m', run, after_map, after_tree) =
        insert_deep j is_local esize root size m f k v c spare at pos room in
      (
        m',
        runs (suc (suc (j * 2 + spare))) (insert_apply is_local esize k v) ∙ run,
        after_map,
        after_tree,
      )
