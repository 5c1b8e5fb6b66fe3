-- ===== src/Atree/Search.antt =====
-- Where a search goes.
use rabia_sandbox.Base.{
  ℕ, zero, suc, List, ◌∷◌, Option, none, some, true, false, ltb, ◌==◌, ==_iff, if◌then◌else◌, ◌≡◌,
  ◌≢◌, refl, sym, ap, arith, ◌∙◌, inl, inr, Bool-cases, Option-cases, ◌⊎◌,
}
use rabia_sandbox.Atree.{Node, Found, find_from}

abbrev pub way : Node → ℕ → ℕ
way n key = if ltb n.key key then n.right else n.left

-- One step of a search at a node.
pub step :
    (fuel : ℕ) (nodes : ℕ → Option Node) (key parent curr : ℕ) (stack : List ℕ) (n : Node)
    → (curr == 0) ≡ false
    → nodes curr ≡ some n
    → find_from (suc fuel) nodes key parent curr stack ≡ (
        if n.key == key
        then some (record { parent = parent; curr = curr; stack = stack })
        else find_from fuel nodes key curr (way n key) (curr ∷ stack))
unfolding find_from
step fuel nodes key parent curr stack n real here = rw (real, here) refl

pub stop :
    (fuel : ℕ) (nodes : ℕ → Option Node) (key parent : ℕ) (stack : List ℕ)
    → find_from (suc fuel) nodes key parent 0 stack
      ≡ some (record { parent = parent; curr = 0; stack = stack })
unfolding find_from
stop fuel nodes key parent stack = refl

pub at_null :
    (fuel : ℕ) (nodes : ℕ → Option Node) (key parent curr : ℕ) (stack : List ℕ)
    → curr ≡ 0
    → find_from (suc fuel) nodes key parent curr stack
      ≡ some (record { parent = parent; curr = curr; stack = stack })
unfolding find_from
at_null fuel nodes key parent curr stack e = ground (arith, e)

-- A step at no node gives nothing.
pub lost :
    (fuel : ℕ) (nodes : ℕ → Option Node) (key parent curr : ℕ) (stack : List ℕ)
    → (curr == 0) ≡ false
    → nodes curr ≡ none
    → find_from (suc fuel) nodes key parent curr stack ≡ none
unfolding find_from
lost fuel nodes key parent curr stack real gone = rw (real, gone) refl

-- How a search that finds something goes on: it ends at a null pointer or at its key, or goes to a child.
pub search_cases :
    (fuel : ℕ) (nodes : ℕ → Option Node) (key parent curr : ℕ) (stack : List ℕ) (f : Found)
    → find_from (suc fuel) nodes key parent curr stack ≡ some f
    → ((curr ≡ 0) × (f ≡ record { parent = parent; curr = curr; stack = stack }))
      ⊎ ((n : Node) × ((curr == 0) ≡ false)
          × (nodes curr ≡ some n)
          × ((((n.key == key) ≡ true)
                × (f ≡ record { parent = parent; curr = curr; stack = stack }))
              ⊎ (((n.key == key) ≡ false)
                  × (find_from fuel nodes key curr (way n key) (curr ∷ stack) ≡ some f))))
search_cases fuel nodes key parent curr stack f run = elim (Bool-cases (curr == 0)) [
  | inl null ↦
      let e = (==_iff curr 0).0 null in
      let same = sym run ∙ at_null fuel nodes key parent curr stack e in
      inl (e, (let s = same in cc))
  | inr real ↦ elim (Option-cases (nodes curr)) [
    | inl gone ↦ let nothing = sym run ∙ lost fuel nodes key parent curr stack real gone in cc
    | inr (n, here) ↦
        let go = sym (step fuel nodes key parent curr stack n real here) ∙ run in
        inr (
          n,
          real,
          here,
          elim (Bool-cases (n.key == key)) [
            | inl hit ↦ inl (hit, ground (arith, go, hit))
            | inr miss ↦ inr (miss, ground (arith, go, miss))
          ],
        )
  ]
]

-- More fuel gives the same.
pub find_from_more :
    (fuel : ℕ) (nodes : ℕ → Option Node) (key parent curr : ℕ) (stack : List ℕ) (f : Found)
    → find_from fuel nodes key parent curr stack ≡ some f
    → find_from (suc fuel) nodes key parent curr stack ≡ some f
unfolding find_from
find_from_more zero nodes key parent curr stack f run = cc
find_from_more (suc fuel) nodes key parent curr stack f run =
    elim (search_cases fuel nodes key parent curr stack f run) [
      | inl (null, e) ↦ at_null (suc fuel) nodes key parent curr stack null ∙ ap some (sym e)
      | inr (n, real, here, how) ↦
          step (suc fuel) nodes key parent curr stack n real here ∙ elim how [
            | inl (hit, e) ↦ rw hit (ap some (sym e))
            | inr (miss, on) ↦
                rw miss (find_from_more fuel nodes key curr (way n key) (curr ∷ stack) f on)
          ]
    ]

-- A search that does not end at a null pointer ends at a node with the key.
pub found_node :
    (fuel : ℕ) (nodes : ℕ → Option Node) (key x c : ℕ) (stack : List ℕ) (f : Found)
    → find_from fuel nodes key x c stack ≡ some f
    → f.curr ≢ 0
    → (n : Node) × (nodes f.curr ≡ some n) × (n.key ≡ key)
unfolding find_from
found_node zero nodes key x c stack f run some_node = cc
found_node (suc fuel) nodes key x c stack f run some_node =
    elim (search_cases fuel nodes key x c stack f run) [
      | inl (z, e) ↦ absurd (some_node (ap (λ (h : Found). h.curr) e ∙ z))
      | inr (n, real, here, how) ↦ elim how [
        | inl (hit, e) ↦
            (n, ap nodes (ap (λ (h : Found). h.curr) e) ∙ here, (==_iff n.key key).0 hit)
        | inr (miss, on) ↦ found_node fuel nodes key c (way n key) (c ∷ stack) f on some_node
      ]
    ]
