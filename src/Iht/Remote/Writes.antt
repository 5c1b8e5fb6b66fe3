-- ===== src/Iht/Remote/Writes.antt =====
-- A table in memory as a map, and writes to one list.
use rabia_sandbox.Base.{
  ℕ, ◌≤◌, Option, none, some, false, length, ◌≡◌, inl, inr, refl, sym, ap, subst, ◌∙◌, ◌==◌, ==_iff,
  if◌then◌else◌, Bool-cases,
}
use rabia_sandbox.Iht.Key.{Key}
use rabia_sandbox.Iht.Elist.{EList}
use rabia_sandbox.Iht.Elist.Laws.{lookup, IsUnique}
use rabia_sandbox.Iht.Remote.Store.{Bucket, Memory, write_elist}
use rabia_sandbox.Iht.Remote.Reads.{Holds, Reads, Keeps, Reads-carry}

module _ {κ} {K : Type 0} {V : Type κ} ⦃key : Key K⦄ where
  -- The memory holds, from the PList at `root` with `size` buckets, the table of a map, and nothing
  -- stands at the pointers that are still to be allocated.
  pub record IsMap (esize root size : ℕ) (m : Memory K V) (f : K → Option V) : Type κ where
    pub reads : (k : K) → Reads esize m k (f k) root 1 size
    pub fresh : (q : ℕ) → m.fresh ≤ q → (m.plists q ≡ none) × (m.elists q ≡ none)
    pub null : 1 ≤ m.fresh

  -- A write to one list that concerns one key.
  pub record Writes (esize : ℕ) (m : Memory K V) (k : K) (m' : Memory K V) : Type κ where
    pub same_plists : m'.plists ≡ m.plists
    pub same_fresh : m'.fresh ≡ m.fresh
    pub others :
        (q : K)
        → key.equal k q ≡ false
        → (base : ℕ) (r : Option V) → Holds esize m q base r
        → Holds esize m' q base r
    pub vacant : (q : ℕ) → m.elists q ≡ none → m'.elists q ≡ none

  pub Writes-same : (esize : ℕ) (m : Memory K V) (k : K) → Writes esize m k m
  Writes-same esize m k = record {
    same_plists = refl;
    same_fresh = refl;
    others = λ q ne base r h. h;
    vacant = λ q h. h;
  }

  pub Writes-elist :
      (esize : ℕ) (m : Memory K V) (k : K) (q : ℕ) (e e' : EList K V)
      → m.elists q ≡ some e
      → IsUnique e'
      → length e' ≤ esize
      → ((x : K) → key.equal k x ≡ false → lookup x e' ≡ lookup x e)
      → Writes esize m k (write_elist m q e')
  Writes-elist esize m k q e e' old u few same = record {
    same_plists = refl;
    same_fresh = refl;
    others = λ x ne base r h. elim h [
      | inl null ↦ inl null
      | inr (d, nz, list, ud, fd, is) ↦ elim (Bool-cases (base == q)) [
        | inl here ↦
            let at : base ≡ q = (==_iff base q).0 here in
            let same_list : d ≡ e = cc in
            inr (e', nz, rw here refl, u, few, is ∙ ap (lookup x) same_list ∙ sym (same x ne))
        | inr away ↦ inr (d, nz, rw away list, ud, fd, is)
      ]
    ];
    vacant = λ x h. elim (Bool-cases (x == q)) [
      | inl here ↦ let at : x ≡ q = (==_iff x q).0 here in cc
      | inr away ↦ rw away h
    ];
  }

  pub Writes-Keeps :
      (esize : ℕ) (m : Memory K V) (k : K) (m' : Memory K V) → Writes esize m k m' → Keeps m m'
  Writes-Keeps esize m k m' w p t b mem calc =
      (t, ap (λ (f : ℕ → Option (ℕ → Bucket)). f p) w.same_plists ∙ mem, refl)

  -- The map after such a write.
  pub IsMap-Writes :
      (esize root size : ℕ) (m : Memory K V) (f : K → Option V) (k : K) (m' : Memory K V)
      (w : Option V)
      → IsMap esize root size m f
      → Writes esize m k m'
      → Reads esize m' k w root 1 size
      → IsMap esize root size m' (λ q. if key.equal k q then w else f q)
  IsMap-Writes esize root size m f k m' w table writes rd = record {
    reads = λ q. elim (Bool-cases (key.equal k q)) [
      | inl same ↦
          rw same
            (subst (λ (x : K). Reads esize m' x w root 1 size) ((key.equal_iff k q).0 same) rd)
      | inr other ↦ rw other (
          Reads-carry m' (Writes-Keeps esize m k m' writes)
            (λ p t b mem free h. (
              t,
              ap (λ (g : ℕ → Option (ℕ → Bucket)). g p) writes.same_plists ∙ mem,
              free,
              writes.others q other (t b).base (f q) h,
            ))
            (table.reads q))
    ];
    fresh = λ q le.
        let (no_plist, no_elist) = table.fresh q (rw (← writes.same_fresh) le) in
        (
          ap (λ (g : ℕ → Option (ℕ → Bucket)). g q) writes.same_plists ∙ no_plist,
          writes.vacant q no_elist,
        );
    null = rw writes.same_fresh table.null;
  }
