-- ===== src/Iht/Elist/Laws.antt =====
-- What an EList means as a map, and the effect of the writes on that map.
mod Snoc
use Snoc.{edge_swap-snoc, snoc_view, set_beyond, get_elem?-snoc_cases}
use rabia_sandbox.Base.{
  ℕ, zero, suc, ◌+◌, ◌-◌, ◌≤◌, ◌<◌, List, [], ◌∷◌, ◌++◌, Option, none, some, Bool, true, length,
  set, if◌then◌else◌, get_elem?, ◌≡◌, refl, sym, ap, subst, ◌⊎◌, inl, inr, arith, Bool-cases,
  length-append, length-set,
}
use rabia_sandbox.Iht.Key.{Key}
use rabia_sandbox.Iht.Elist.{EList, elist_insert, edge_swap, search_from, search_key}

module _ {ℓ κ} {K : Type ℓ} {V : Type κ} ⦃key : Key K⦄ where
  -- The list as a map: the value of the first pair with this key.
  unfoldable pub lookup : K → EList K V → Option V
  lookup q [] = none
  lookup q (p ∷ e) = if key.equal p.0 q then some p.1 else lookup q e

  unfoldable pub count_key : K → EList K V → ℕ
  count_key q [] = 0
  count_key q (p ∷ e) = (if key.equal p.0 q then 1 else 0) + count_key q e

  -- No key stands in two pairs.
  abbrev pub IsUnique : EList K V → Type ℓ
  IsUnique e = (q : K) → count_key q e ≤ 1

  pub lookup-eq_none : (q : K) (e : EList K V) → count_key q e ≡ 0 → lookup q e ≡ none
  unfolding lookup count_key
  lookup-eq_none q [] h = refl
  lookup-eq_none q (p ∷ e) h = ground (arith, lookup-eq_none q e)

  pub count_key-eq_zero : (q : K) (e : EList K V) → lookup q e ≡ none → count_key q e ≡ 0
  unfolding lookup count_key
  count_key-eq_zero q [] h = refl
  count_key-eq_zero q (p ∷ e) h = ground (arith, count_key-eq_zero q e)

  -- The search fails exactly where the map has no value.
  pub search_from-none :
      (i : ℕ) (q : K) (e : EList K V) → lookup q e ≡ none → search_from i q e ≡ none
  unfolding lookup search_from
  search_from-none i q [] h = refl
  search_from-none i q (p ∷ e) h = ground (arith, search_from-none (i + 1) q e)

  -- A value of the map is found, at a slot that holds the pair.
  pub search_from-some :
      (i : ℕ) (q : K) (e : EList K V) (v : V)
      → lookup q e ≡ some v
      → (j : ℕ) × (search_from i q e ≡ some (i + j, v))
        × (j < length e)
        × (get_elem? e j ≡ some (q, v))
  unfolding lookup search_from
  search_from-some i q [] v h = cc
  search_from-some i q (p ∷ e) v h = elim (Bool-cases (key.equal p.0 q)) [
    | inl same ↦ (0, ground arith, ground arith, ground (arith, key.equal_iff p.0 q))
    | inr other ↦
        let (j, found, lt, here) = search_from-some (i + 1) q e v (ground arith) in
        (suc j, ground arith, ground arith, ground arith)
  ]

  pub lookup-insert :
      (k : K) (v : V) (e : EList K V) (q : K)
      → lookup k e ≡ none
      → lookup q (elist_insert k v e) ≡ (if key.equal k q then some v else lookup q e)
  unfolding lookup elist_insert
  lookup-insert k v [] q h = refl
  lookup-insert k v (p ∷ e) q h =
      ground
        (arith, lookup-insert k v e q, key.equal_iff p.0 k, key.equal_iff p.0 q, key.equal_iff k q)

  pub count_key-insert :
      (k : K) (v : V) (e : EList K V) (q : K)
      → count_key q (elist_insert k v e) ≡ count_key q e + (if key.equal k q then 1 else 0)
  unfolding count_key elist_insert
  count_key-insert k v [] q = ground arith
  count_key-insert k v (p ∷ e) q = ground (arith, count_key-insert k v e q)

  pub insert-IsUnique :
      (k : K) (v : V) (e : EList K V)
      → lookup k e ≡ none
      → IsUnique e
      → IsUnique (elist_insert k v e)
  insert-IsUnique k v e h u q = ground (
    arith,
    count_key-insert k v e q,
    u q,
    key.equal_iff k q,
    count_key-eq_zero k e,
    count_key-eq_zero q e,
  )

  pub count_key-at :
      (e : EList K V) (i : ℕ) (p : K × V) → get_elem? e i ≡ some p → 1 ≤ count_key p.0 e
  unfolding count_key
  count_key-at [] i p h = cc
  count_key-at (r ∷ e) zero p h = ground (arith, key.equal_iff r.0 r.0)
  count_key-at (r ∷ e) (suc i) p h = omega (arith, count_key-at e i p h)

  lookup-set :
      (k : K) (v : V) (e : EList K V) (i : ℕ) (x : K) (w : V) (q : K)
      → get_elem? e i ≡ some (k, v)
      → IsUnique e
      → count_key x e ≡ 0
      → lookup q (set e i (x, w))
        ≡ (if key.equal x q then some w else (if key.equal k q then none else lookup q e))
  unfolding lookup count_key
  lookup-set k v [] i x w q h u z = cc
  lookup-set k v (p ∷ e) zero x w q h u z =
      ground
        (arith, u q, lookup-eq_none q e, key.equal_iff p.0 q, key.equal_iff k q, key.equal_iff x q)
  lookup-set k v (p ∷ e) (suc i) x w q h u z = ground (
    arith,
    u p.0,
    u q,
    count_key-at e i (k, v) h,
    key.equal_iff p.0 q,
    key.equal_iff p.0 p.0,
    key.equal_iff p.0 x,
    key.equal_iff x q,
    key.equal_iff k q,
    key.equal_iff p.0 k,
    lookup-set k v e i x w q h (λ r. omega (arith, u r)) (ground arith),
  )

  count_key-append :
      (q : K) (a b : EList K V) → count_key q (a ++ b) ≡ count_key q a + count_key q b
  unfolding count_key
  count_key-append q [] b = omega arith
  count_key-append q (p ∷ a) b = omega (arith, count_key-append q a b)

  lookup-append_none :
      (q : K) (a : EList K V) (p : K × V)
      → lookup q (a ++ p ∷ [])
        ≡ elim (lookup q a) [ some v ↦ some v | none ↦ if key.equal p.0 q then some p.1 else none ]
  unfolding lookup
  lookup-append_none q [] p = refl
  lookup-append_none q (r ∷ a) p = ground (arith, lookup-append_none q a p)

  count_key-set :
      (e : EList K V) (i : ℕ) (p r : K × V) (q : K)
      → get_elem? e i ≡ some p
      → count_key q (set e i r) + (if key.equal p.0 q then 1 else 0)
        ≡ count_key q e + (if key.equal r.0 q then 1 else 0)
  unfolding count_key
  count_key-set [] i p r q h = cc
  count_key-set (x ∷ e) zero p r q h = ground arith
  count_key-set (x ∷ e) (suc i) p r q h = omega (arith, count_key-set e i p r q h)

  -- The statement of `edge_swap-removes` for the list `after`.
  abbrev Removed : K → EList K V → EList K V → Type (ℓ ⊔ κ)
  Removed k e after =
      IsUnique after
      × (length after + 1 ≡ length e)
      × ((q : K) → lookup q after ≡ (if key.equal k q then none else lookup q e))

  Removed-inner :
      (k : K) (v : V) (ys : EList K V) (l : K × V) (i : ℕ)
      → get_elem? ys i ≡ some (k, v)
      → IsUnique (ys ++ l ∷ [])
      → Removed k (ys ++ l ∷ []) (set ys i l)
  unfolding count_key
  Removed-inner k v ys l i h u =
      let fresh : count_key l.0 ys ≡ 0 =
        ground (arith, u l.0, count_key-append l.0 ys (l ∷ []), key.equal_iff l.0 l.0) in
      (
        (λ q.
            ground
              (arith, u q, u k, count_key-append q ys (l ∷ []), count_key-set ys i (k, v) l q h)),
        omega (arith, length-set ys i l, length-append ys (l ∷ [])),
        λ q. ground (
          arith,
          lookup-set k v ys i l.0 l.1 q h (λ r. ground (arith, u r, count_key-append r ys (l ∷ [])))
              fresh,
          lookup-append_none q ys l,
          count_key-at ys i (k, v) h,
          lookup-eq_none q ys,
          key.equal_iff l.0 q,
          key.equal_iff k q,
        ),
      )

  Removed-last :
      (k : K) (v : V) (ys : EList K V) (l : K × V)
      → l ≡ (k, v)
      → IsUnique (ys ++ l ∷ [])
      → Removed k (ys ++ l ∷ []) ys
  unfolding count_key
  Removed-last k v ys l e u = (
    (λ q. ground (arith, u q, count_key-append q ys (l ∷ []))),
    omega (arith, length-append ys (l ∷ [])),
    λ q. ground (
      arith,
      ap (λ (t : K × V). t.0) e,
      u q,
      count_key-append q ys (l ∷ []),
      lookup-append_none q ys l,
      lookup-eq_none q ys,
      key.equal_iff l.0 q,
    ),
  )

  -- Overwriting the pair of a key by the last pair, and dropping the last, removes just that key.
  pub edge_swap-removes :
      (k : K) (v : V) (e : EList K V) (i : ℕ)
      → get_elem? e i ≡ some (k, v)
      → IsUnique e
      → Removed k e (edge_swap e i)
  edge_swap-removes k v [] i h u = cc
  edge_swap-removes k v (x ∷ xs) i h u =
      let (ys, l, e) = snoc_view x xs in
      subst (λ (t : EList K V). Removed k t (edge_swap t i)) (sym e)
        (Removed-snoc ys l (subst (λ (t : EList K V). get_elem? t i ≡ some (k, v)) e h)
          (subst (λ (t : EList K V). IsUnique t) e u))
    where
      Removed-snoc :
          (ys : EList K V) (l : K × V)
          → get_elem? (ys ++ l ∷ []) i ≡ some (k, v)
          → IsUnique (ys ++ l ∷ [])
          → Removed k (ys ++ l ∷ []) (edge_swap (ys ++ l ∷ []) i)
      Removed-snoc ys l g w =
          rw (edge_swap-snoc ys l i) (elim (get_elem?-snoc_cases ys l i (k, v) g) [
            | inl inner ↦ Removed-inner k v ys l i inner w
            | inr (beyond, same) ↦ rw (set_beyond ys i l beyond) (Removed-last k v ys l same w)
          ])

  -- In a list that has each key once, a key stands in one slot.
  pub slots-IsUnique :
      (k : K) (v : V) (e : EList K V) (i j : ℕ) (p : K × V)
      → IsUnique e
      → get_elem? e i ≡ some p
      → get_elem? e j ≡ some (k, v)
      → key.equal p.0 k ≡ true
      → i ≡ j
  unfolding count_key
  slots-IsUnique k v [] i j p u at there same = cc
  slots-IsUnique k v (x ∷ e) zero zero p u at there same = refl
  slots-IsUnique k v (x ∷ e) zero (suc j) p u at there same =
      ground (arith, u k, count_key-at e j (k, v) there, key.equal_iff p.0 k)
  slots-IsUnique k v (x ∷ e) (suc i) zero p u at there same =
      ground (arith, u k, count_key-at e i p at, key.equal_iff p.0 k, key.equal_iff k k)
  slots-IsUnique k v (x ∷ e) (suc i) (suc j) p u at there same =
      ap suc (slots-IsUnique k v e i j p (λ q. omega (arith, u q)) at there same)
