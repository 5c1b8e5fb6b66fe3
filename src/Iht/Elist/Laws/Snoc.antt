-- ===== src/Iht/Elist/Laws/Snoc.antt =====
-- `edge_swap` on a list that is split before its last pair.
use rabia_sandbox.Base.{
  ℕ, zero, suc, ◌-◌, ◌≤◌, ◌<◌, List, [], ◌∷◌, ◌++◌, some, length, set, take, get_elem?, ◌≡◌, refl,
  ap, ◌∙◌, ◌⊎◌, inl, inr, arith, length-append,
}
use rabia_sandbox.Iht.Elist.{EList, edge_swap}

module _ {ℓ} {A : Type ℓ} where
  pub snoc_view : (x : A) (xs : List A) → (ys : List A) × (l : A) × (x ∷ xs ≡ ys ++ l ∷ [])
  snoc_view x [] = ([], x, refl)
  snoc_view x (y ∷ xs) =
      let (ys, l, e) = snoc_view y xs in (x ∷ ys, l, ap (λ (t : List A). x ∷ t) e)

  get_elem?-snoc : (ys : List A) (l : A) → get_elem? (ys ++ l ∷ []) (length ys) ≡ some l
  get_elem?-snoc [] l = refl
  get_elem?-snoc (y ∷ ys) l = get_elem?-snoc ys l

  take-snoc : (ys : List A) (l : A) → take (length ys) (ys ++ l ∷ []) ≡ ys
  take-snoc [] l = refl
  take-snoc (y ∷ ys) l = ap (λ (t : List A). y ∷ t) (take-snoc ys l)

  take-set-snoc :
      (ys : List A) (l : A) (i : ℕ) → take (length ys) (set (ys ++ l ∷ []) i l) ≡ set ys i l
  take-set-snoc [] l i = refl
  take-set-snoc (y ∷ ys) l zero = ap (λ (t : List A). l ∷ t) (take-snoc ys l)
  take-set-snoc (y ∷ ys) l (suc i) = ap (λ (t : List A). y ∷ t) (take-set-snoc ys l i)

  pub set_beyond : (e : List A) (i : ℕ) (v : A) → length e ≤ i → set e i v ≡ e
  set_beyond [] i v h = refl
  set_beyond (x ∷ e) zero v h = absurd (omega arith)
  set_beyond (x ∷ e) (suc i) v h = ap (λ (t : List A). x ∷ t) (set_beyond e i v (omega arith))

  -- A slot of the longer list is one of the shorter, or the last.
  pub get_elem?-snoc_cases :
      (ys : List A) (l : A) (i : ℕ) (p : A)
      → get_elem? (ys ++ l ∷ []) i ≡ some p
      → (get_elem? ys i ≡ some p) ⊎ ((length ys ≤ i) × (l ≡ p))
  get_elem?-snoc_cases [] l zero p h = inr (omega arith, cc)
  get_elem?-snoc_cases [] l (suc i) p h = cc
  get_elem?-snoc_cases (y ∷ ys) l zero p h = inl h
  get_elem?-snoc_cases (y ∷ ys) l (suc i) p h = elim (get_elem?-snoc_cases ys l i p h) [
    | inl inner ↦ inl inner
    | inr (beyond, same) ↦ inr (omega arith, same)
  ]

module _ {ℓ κ} {K : Type ℓ} {V : Type κ} where
  edge_swap_last :
      (e : EList K V) (l : K × V) (n i : ℕ)
      → length e - 1 ≡ n
      → get_elem? e n ≡ some l
      → 1 < length e
      → edge_swap e i ≡ take n (set e i l)
  unfolding edge_swap
  edge_swap_last e l n i size last two = ground arith

  -- The last pair overwrites slot `i`, or is itself the one that goes.
  pub edge_swap-snoc :
      (ys : EList K V) (l : K × V) (i : ℕ) → edge_swap (ys ++ l ∷ []) i ≡ set ys i l
  edge_swap-snoc [] l i = unfold edge_swap in refl
  edge_swap-snoc (y ∷ ys) l i =
      edge_swap_last (y ∷ ys ++ l ∷ []) l (length (y ∷ ys)) i
        (omega (arith, length-append ys (l ∷ []))) (get_elem?-snoc (y ∷ ys) l)
        (omega (arith, length-append ys (l ∷ [])))
      ∙ take-set-snoc (y ∷ ys) l i
