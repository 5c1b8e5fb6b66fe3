-- ===== src/Iht/Remote/Init.antt =====
-- `InitAsFirst` of RdmaIHT: a table with nothing in it. A client that takes the root from there by
-- `InitFromPointer` works on the same memory with that root.
use mathlib.Core.Path.{fun_ext}
use rabia_sandbox.Base.{
  ℕ, zero, suc, ◌*◌, ◌≤◌, ◌<◌, none, some, false, ◌≡◌, inl, refl, sym, ap, ◌∙◌, subst, arith, ◌==◌,
  ltb, Bool-cases, inr, update,
}
use rabia_sandbox.Iht.Key.{Key}
use rabia_sandbox.Iht.Remote.Store.{Bucket, Memory, e_unlocked, allocate_plist}
use rabia_sandbox.Iht.Remote.Reads.{stop}
use rabia_sandbox.Iht.Remote.Writes.{IsMap}
use rabia_sandbox.Iht.Remote.Tree.{IsTree}

-- What InitPList writes to a pair.
abbrev pub unused : Bucket
unused = record { base = 0; lock = e_unlocked }

-- The loop of InitPList, for the first `n` pairs.
unfoldable pub init_pairs : ℕ → (ℕ → Bucket) → ℕ → Bucket
init_pairs zero p = p
init_pairs (suc n) p = update (init_pairs n p) n unused

-- InitPList, on memory that holds `p`.
unfoldable pub init_plist : ℕ → (ℕ → Bucket) → ℕ → ℕ → Bucket
unfolding init_pairs
init_plist plist_size p mult_modder = init_pairs (plist_size * mult_modder) p

-- The root pointer, and the memory. `p` is what the memory that Allocate gives holds.
unfoldable pub init_as_first {ℓ κ} :
    {K : Type ℓ} {V : Type κ} → ℕ → (ℕ → Bucket) → Memory K V → ℕ × Memory K V
unfolding init_plist
init_as_first plist_size p m = allocate_plist m (init_plist plist_size p 1)

init_pairs_below : (n i : ℕ) (p : ℕ → Bucket) → i < n → init_pairs n p i ≡ unused
unfolding init_pairs
init_pairs_below zero i p lt = absurd (omega arith)
init_pairs_below (suc n) i p lt = elim (Bool-cases (i == n)) [
  | inl here ↦ rw here refl
  | inr away ↦ rw away (init_pairs_below n i p (ground arith))
]

init_pairs_above : (n i : ℕ) (p : ℕ → Bucket) → n ≤ i → init_pairs n p i ≡ p i
unfolding init_pairs
init_pairs_above zero i p le = refl
init_pairs_above (suc n) i p le =
    let away : (i == n) ≡ false = ground arith in rw away (init_pairs_above n i p (omega arith))

-- InitPList leaves every pair of the array unused, whatever the memory holds.
init_plist_lem :
    (plist_size mult_modder : ℕ) (p : ℕ → Bucket)
    → ((i : ℕ) → plist_size * mult_modder ≤ i → p i ≡ unused)
    → init_plist plist_size p mult_modder ≡ (λ i. unused)
unfolding init_plist
init_plist_lem plist_size mult_modder p outside =
    let n = plist_size * mult_modder in
    fun_ext (λ i. elim (Bool-cases (ltb i n)) [
      | inl below ↦ init_pairs_below n i p (ground arith)
      | inr above ↦ let le : n ≤ i = ground arith in init_pairs_above n i p le ∙ outside i le
    ])

-- The table with nothing in it.
abbrev empty_table {ℓ κ} : {K : Type ℓ} {V : Type κ} → Memory K V → ℕ × Memory K V
empty_table m = allocate_plist m (λ i. unused)

module _ {κ} {K : Type 0} {V : Type κ} ⦃key : Key K⦄ where
  only_root :
      (m : Memory K V) (p : ℕ) (t : ℕ → Bucket)
      → ((q : ℕ) → m.plists q ≡ none)
      → (empty_table m).1.plists p ≡ some t
      → t ≡ (λ i. unused)
  only_root m p t clear mem = elim (Bool-cases (p == m.fresh)) [
    | inl here ↦ let there : (empty_table m).1.plists p ≡ some (λ i. unused) = rw here refl in cc
    | inr away ↦ let gone : (empty_table m).1.plists p ≡ none = rw away (clear p) in cc
  ]

  empty_table-IsMap :
      (esize size : ℕ) (m : Memory K V)
      → ((q : ℕ) → m.plists q ≡ none)
      → ((q : ℕ) → m.fresh ≤ q → m.elists q ≡ none)
      → 1 ≤ m.fresh
      → let (root, m') = empty_table m in IsMap esize root size m' (λ k. none) × IsTree root size m'
  empty_table-IsMap esize size m clear vacant pos = (
    record {
      reads = λ k. stop (λ i. unused) (ground arith) refl (inl (refl, refl));
      fresh = λ q le. (ground (arith, clear q), vacant q (omega arith));
      null = omega arith;
    },
    record {
      depths = λ q. 1;
      counts = λ q. size;
      top = (refl, refl);
      rooted = omega arith;
      deepens = λ p t b mem calc.
          let is = ap (λ (f : ℕ → Bucket). (f b).lock) (only_root m p t clear mem) in
          absurd (omega arith);
      single = λ p q t u b c mem mem' free free' nz same.
          absurd (nz (ap (λ (f : ℕ → Bucket). (f b).base) (only_root m p t clear mem)));
      known = λ p t b mem.
          let is = ap (λ (f : ℕ → Bucket). (f b).base) (only_root m p t clear mem) in omega arith;
    },
  )

  -- In a memory without PLists, where nothing stands at the pointers that are still to be allocated,
  -- `InitAsFirst` leaves, for every number of buckets and whatever the new PList held in the pairs of its
  -- array (outside it a table reads as unused pairs), the table of the map without keys, whose PLists are a
  -- tree.
  pub init_as_first-IsMap :
      (esize size : ℕ) (p : ℕ → Bucket) (m : Memory K V)
      → ((i : ℕ) → size ≤ i → p i ≡ unused)
      → ((q : ℕ) → m.plists q ≡ none)
      → ((q : ℕ) → m.fresh ≤ q → m.elists q ≡ none)
      → 1 ≤ m.fresh
      → let (root, m') = init_as_first size p m in
        IsMap esize root size m' (λ k. none) × IsTree root size m'
  unfolding init_as_first
  init_as_first-IsMap esize size p m outside clear vacant pos =
      subst
        (λ (t : ℕ → Bucket).
          let (root, m') = allocate_plist m t in
          IsMap esize root size m' (λ k. none) × IsTree root size m')
        (sym (init_plist_lem size 1 p (λ i le. outside i (omega arith))))
        (empty_table-IsMap esize size m clear vacant pos)
