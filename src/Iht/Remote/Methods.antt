-- ===== src/Iht/Remote/Methods.antt =====
-- `contains` and `remove` of RdmaIHT against the map.
use rabia_sandbox.Base.{
  ℕ, suc, Option, none, some, length, ◌≡◌, inl, inr, refl, sym, ◌∙◌, arith, update, if◌then◌else◌,
  Option-cases,
}
use rabia_sandbox.Iht.Key.{Key}
use rabia_sandbox.Iht.Elist.{EList, edge_swap}
use rabia_sandbox.Iht.Elist.Laws.{lookup, search_from-none, search_from-some, edge_swap-removes}
use rabia_sandbox.Iht.Remote.{
  level_hash, Context, descend, contains, contains_apply, remove, remove_apply,
}
use rabia_sandbox.Iht.Remote.Store.{Memory}
use rabia_sandbox.Iht.Remote.Steps.{locked, arrive}
use rabia_sandbox.Iht.Remote.Reads.{Reads, stop, rounds, End, do_with-End}
use rabia_sandbox.Iht.Remote.Finish.{fetch_null, fetch_some, finishes, finish_at}
use rabia_sandbox.Iht.Remote.Removal.{remove_loop-absent, remove_loop-present}
use rabia_sandbox.Iht.Remote.Tree.{IsTree, IsTree-same}
use rabia_sandbox.Iht.Remote.Writes.{
  IsMap, Writes, Writes-same, Writes-elist, Writes-Keeps, IsMap-Writes,
}

module _ {κ} {K : Type 0} {V : Type κ} ⦃key : Key K⦄ where
  contains_apply-elist :
      (k : K) (e : EList K V) (c : Context K V) (m : Memory K V)
      → c.e ≡ some e
      → contains_apply k c m ≡ some (finishes m c (lookup k e))
  unfolding contains_apply
  contains_apply-elist k e c m is = elim (Option-cases (lookup k e)) [
    | inl absent ↦ rw (is, absent) (ground (arith, search_from-none 0 k e absent))
    | inr (v, there) ↦
        let (j, found, _, _) = search_from-some 0 k e v there in
        rw (is, there) (ground (arith, found))
  ]

  pub contains_at :
      (esize : ℕ) (m : Memory K V) (k : K) (r : Option V) {n : ℕ → ℕ} (c : Context K V) (spare : ℕ)
      → End esize m k r n c
      → descend (suc (suc spare)) k (contains_apply k) m c ≡ some (m, r)
  contains_at esize m k r c spare end =
      let base = (c.curr (level_hash k c.depth c.count)).base in
      elim end.holds [
        | inl (null, is) ↦
            finish_at esize m k r c spare (contains_apply k) none m.elists none end
              (fetch_null m base null) (unfold contains_apply in refl)
            ∙ rw is
        | inr (e, nz, list, u, few, is) ↦
            finish_at esize m k r c spare (contains_apply k) (some e) m.elists (lookup k e) end
              (fetch_some m base e nz list)
              (contains_apply-elist k e (arrive k c (some e)) (locked k c m) refl)
            ∙ rw is
      ]

  -- On a memory that holds the table of a map `contains` returns, with two units of fuel more than the PLists on the way below the root or with
  -- any more than that. It leaves the memory as it was, and gives the value of the map.
  pub contains-IsMap :
      (esize root size : ℕ) (m : Memory K V) (f : K → Option V) (table : IsMap esize root size m f)
      (k : K) (spare : ℕ)
      → contains (rounds (table.reads k) (suc (suc spare))) root size k m ≡ some (m, f k)
  unfolding contains
  contains-IsMap esize root size m f table k spare =
      let (c, end, runs, _, _) = do_with-End (table.reads k) in
      runs (suc (suc spare)) (contains_apply k) ∙ contains_at esize m k (f k) c spare end

  remove_at :
      (esize : ℕ) (m : Memory K V) (k : K) (r : Option V) {n : ℕ → ℕ} (c : Context K V) (spare : ℕ)
      → End esize m k r n c
      → (m' : Memory K V) × (descend (suc (suc spare)) k (remove_apply k) m c ≡ some (m', r))
        × Writes esize m k m'
        × Reads esize m' k none c.parent_ptr c.depth c.count
  remove_at esize m k r c spare end =
      let base = (c.curr (level_hash k c.depth c.count)).base in
      elim end.holds [
        | inl (null, is) ↦ (
          m,
          finish_at esize m k r c spare (remove_apply k) none m.elists none end
                (fetch_null m base null) (unfold remove_apply in refl)
              ∙ rw is,
          Writes-same esize m k,
          stop c.curr end.mem end.free (inl (null, refl)),
        )
        | inr (e, nz, list, u, few, is) ↦ elim (Option-cases (lookup k e)) [
          | inl absent ↦ (
            m,
            finish_at esize m k r c spare (remove_apply k) (some e) m.elists none end
                  (fetch_some m base e nz list)
                  (unfold remove_apply in
                    ground
                      (arith, remove_loop-absent (length e) 0 k base (locked k c m) e none absent))
                ∙ rw (is, absent),
            Writes-same esize m k,
            stop c.curr end.mem end.free (inr (e, nz, list, u, few, sym absent)),
          )
          | inr (v, there) ↦
              let (j, _, short, slot) = search_from-some 0 k e v there in
              let (unique, shorter, gone) = edge_swap-removes k v e j slot u in
              let elists = update m.elists base (some (edge_swap e j)) in
              (
                record m { elists = elists },
                finish_at esize m k r c spare (remove_apply k) (some e) elists (some v) end
                      (fetch_some m base e nz list)
                      (unfold remove_apply in
                        ground (
                          arith,
                          remove_loop-present (length e) 0 k v base (locked k c m) e none j u slot
                              (omega arith) (omega arith),
                        ))
                    ∙ rw (is, there),
                Writes-elist esize m k base e (edge_swap e j) list unique (omega arith)
                    (λ x ne. gone x ∙ rw ne),
                stop c.curr end.mem end.free (
                    inr (
                      edge_swap e j,
                      nz,
                      ground arith,
                      unique,
                      omega arith,
                      sym (gone k ∙ rw ((key.equal_iff k k).1 refl)),
                    )),
              )
        ]
      ]

  -- On a memory that holds the table of a map, where the PLists are a tree, `remove` returns, with two units of fuel more than the PLists on the way below the root or with any
  -- more than that. It gives the value that the key had, and leaves the table of the map without it. The PLists are a
  -- tree again.
  pub remove-IsMap :
      (esize root size : ℕ) (m : Memory K V) (f : K → Option V) (table : IsMap esize root size m f)
      (k : K) (spare : ℕ)
      → IsTree root size m
      → (m' : Memory K V) × (remove (rounds (table.reads k) (suc (suc spare))) root size k m
          ≡ some (m', f k))
        × IsMap esize root size m' (λ q. if key.equal k q then none else f q)
        × IsTree root size m'
  unfolding remove
  remove-IsMap esize root size m f table k spare tree =
      let (c, end, runs, back, _) = do_with-End (table.reads k) in
      let (m', run, writes, rd) = remove_at esize m k (f k) c spare end in
      (
        m',
        runs (suc (suc spare)) (remove_apply k) ∙ run,
        IsMap-Writes esize root size m f k m' none table writes
            (back m' none (Writes-Keeps esize m k m' writes) rd),
        IsTree-same root size m m' writes.same_plists writes.same_fresh tree,
      )
