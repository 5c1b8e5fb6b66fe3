-- ===== src/Iht/Remote/Insert.antt =====
-- `insert` of RdmaIHT against the map, where no list has to be rehashed.
use rabia_sandbox.Base.{
  ℕ, suc, ◌≤◌, ◌<◌, Bool, Option, none, some, length, length-append, [], ◌∷◌, ◌≡◌, ◌≢◌, ◌⊎◌, inl,
  inr, refl, sym, subst, ◌∙◌, arith, update, if◌then◌else◌, Option-cases,
}
use rabia_sandbox.Iht.Key.{Key}
use rabia_sandbox.Iht.Elist.{EList, elist_insert}
use rabia_sandbox.Iht.Elist.Laws.{
  lookup, IsUnique, search_from-none, search_from-some, lookup-insert, insert-IsUnique,
}
use rabia_sandbox.Iht.Remote.{level_hash, Context, descend, insert_apply}
use rabia_sandbox.Iht.Remote.Store.{Bucket, Memory, e_unlocked, write_elist}
use rabia_sandbox.Iht.Remote.Reads.{Holds, Reads, stop, sift, load_of, Keeps, End}
use rabia_sandbox.Iht.Remote.Finish.{fetch_some, finish_at}
use rabia_sandbox.Iht.Remote.Writes.{IsMap, Writes-same, Writes-elist, Writes-Keeps, IsMap-Writes}
use rabia_sandbox.Iht.Remote.Tree.{IsTree, IsTree-same, IsTree-grown}
use rabia_sandbox.Iht.Remote.Grow.{grown, null_at, grown-IsMap, replaced-Keeps}

-- The value of the key afterwards: an old value stays.
abbrev pub kept {κ} : {V : Type κ} → Option V → V → V
kept none v = v
kept (some old) v = old

module _ {κ} {K : Type 0} {V : Type κ} ⦃key : Key K⦄ where
  -- The key is there already.
  present_at :
      (is_local : ℕ → Bool) (esize : ℕ) (m : Memory K V) (k : K) (v old : V) (r : Option V)
      {n : ℕ → ℕ} (c : Context K V) (spare : ℕ) (e : EList K V)
      → End esize m k r n c
      → (c.curr (level_hash k c.depth c.count)).base ≢ 0
      → m.elists (c.curr (level_hash k c.depth c.count)).base ≡ some e
      → lookup k e ≡ some old
      → descend (suc (suc spare)) k (insert_apply is_local esize k v) m c ≡ some (m, some old)
  present_at is_local esize m k v old r c spare e end nz list there =
      let (j, found, _, _) = search_from-some 0 k e old there in
      finish_at esize m k r c spare (insert_apply is_local esize k v) (some e) m.elists (some old)
        end (fetch_some m _ e nz list) (unfold insert_apply in ground (arith, found))

  -- The key is not there, and the list has room.
  room_at :
      (is_local : ℕ → Bool) (esize : ℕ) (m : Memory K V) (k : K) (v : V) (r : Option V) {n : ℕ → ℕ}
      (c : Context K V) (spare : ℕ) (e : EList K V)
      → let base = (c.curr (level_hash k c.depth c.count)).base in
        End esize m k r n c
        → base ≢ 0
        → m.elists base ≡ some e
        → lookup k e ≡ none
        → length e < esize
        → descend (suc (suc spare)) k (insert_apply is_local esize k v) m c
          ≡ some (write_elist m base (elist_insert k v e), none)
  room_at is_local esize m k v r c spare e end nz list absent room =
      let base = (c.curr (level_hash k c.depth c.count)).base in
      finish_at esize m k r c spare (insert_apply is_local esize k v) (some e)
        (update m.elists base (some (elist_insert k v e))) none end (fetch_some m _ e nz list)
        (unfold insert_apply in ground (arith, search_from-none 0 k e absent, room))

  -- A list that has room gets the pair.
  room-IsMap :
      (esize root size : ℕ) (m : Memory K V) (f : K → Option V) (k : K) (v : V) {n : ℕ → ℕ}
      (c : Context K V) (e : EList K V)
      → let base = (c.curr (level_hash k c.depth c.count)).base in
        let m' = write_elist m base (elist_insert k v e) in
        IsMap esize root size m f
        → End esize m k (f k) n c
        → base ≢ 0
        → m.elists base ≡ some e
        → IsUnique e
        → lookup k e ≡ none
        → length e < esize
        → (Keeps m m'
            → Reads esize m' k (some v) c.parent_ptr c.depth c.count
            → Reads esize m' k (some v) root 1 size)
        → IsMap esize root size m' (λ q. if key.equal k q then some v else f q)
  room-IsMap esize root size m f k v c e table end nz list u absent room back =
      let base = (c.curr (level_hash k c.depth c.count)).base in
      let e' = elist_insert k v e in
      let m' = write_elist m base e' in
      let unique = insert-IsUnique k v e absent u in
      let few : length e' ≤ esize =
        unfold elist_insert in omega (arith, length-append e ((k, v) ∷ [])) in
      let writes =
        Writes-elist esize m k base e e' list unique few
          (λ x ne. lookup-insert k v e x absent ∙ rw ne) in
      IsMap-Writes esize root size m f k m' (some v) table writes (
        back (Writes-Keeps esize m k m' writes) (
          stop c.curr end.mem end.free (
            inr (
              e',
              nz,
              ground arith,
              unique,
              few,
              sym (lookup-insert k v e k absent ∙ rw ((key.equal_iff k k).1 refl)),
            ))))

  -- The last round of `insert`, with a key that is there or room for it.
  pub insert_at :
      (is_local : ℕ → Bool) (esize root size : ℕ) (m : Memory K V) (f : K → Option V) (k : K)
      (v : V) {n : ℕ → ℕ} (c : Context K V) (spare : ℕ)
      → IsMap esize root size m f
      → IsTree root size m
      → End esize m k (f k) n c
      → ((m' : Memory K V) (w : Option V)
          → Keeps m m'
          → Reads esize m' k w c.parent_ptr c.depth c.count
          → Reads esize m' k w root 1 size)
      → 1 ≤ esize
      → (f k ≢ none) ⊎ (n 0 < esize)
      → (h : Holds esize m k (c.curr (level_hash k c.depth c.count)).base (f k))
      → load_of esize m k (c.curr (level_hash k c.depth c.count)).base (f k) h c.depth c.count 0
        ≡ n 0
      → (m' : Memory K V) × (descend (suc (suc spare)) k (insert_apply is_local esize k v) m c
          ≡ some (m', f k))
        × IsMap esize root size m' (λ q. if key.equal k q then some (kept (f k) v) else f q)
        × IsTree root size m'
  unfolding sift
  insert_at is_local esize root size m f k v c spare table tree end back pos room (inl (null, is))
        pairs =
      let b = level_hash k c.depth c.count in
      let m' = grown m c.parent_ptr b c.curr k v in
      let s : Bucket = record { base = m.fresh; lock = e_unlocked } in
      (
        m',
        null_at is_local esize m k v (f k) c spare end null ∙ rw is refl,
        rw is (
            grown-IsMap esize root size m f k v c pos table end null (
              back m' (some v)
                (replaced-Keeps m m' c.parent_ptr b c.curr s end.mem end.free refl))),
        IsTree-grown root size m m' c.parent_ptr c.curr b tree end.mem refl refl,
      )
  insert_at is_local esize root size m f k v c spare table tree end back pos room
        (inr (e, nz, list, u, few, is)) pairs =
      let m' = write_elist m (c.curr (level_hash k c.depth c.count)).base (elist_insert k v e) in
      elim (Option-cases (lookup k e)) [
        | inl absent ↦
            let space : length e < esize = elim room [
              | inl there ↦ absurd (there (is ∙ absent))
              | inr lt ↦ omega arith
            ] in
            (
              m',
              room_at is_local esize m k v (f k) c spare e end nz list absent space
                  ∙ rw (is, absent) refl,
              rw (is, absent)
                  (room-IsMap esize root size m f k v c e table end nz list u absent space
                    (back m' (some v))),
              IsTree-same root size m m' refl refl tree,
            )
        | inr (old, there) ↦ (
          m,
          present_at is_local esize m k v old (f k) c spare e end nz list there
              ∙ rw (is, there) refl,
          subst
              (λ (w : Option V).
                IsMap esize root size m (λ q. if key.equal k q then some (kept w v) else f q))
              (sym (is ∙ there))
              (IsMap-Writes esize root size m f k m (some old) table (Writes-same esize m k) (
                subst (λ (w : Option V). Reads esize m k w root 1 size) (is ∙ there)
                  (table.reads k))),
          tree,
        )
      ]
