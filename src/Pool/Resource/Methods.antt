-- ===== src/Pool/Resource/Methods.antt =====
-- What `allocate` and `deallocate` of `rdma_allocator` do to the allocator.
use rabia_sandbox.Base.{
  ℕ, ◌+◌, ◌-◌, ◌*◌, ◌/◌, ◌%◌, ◌^◌, ◌≤◌, ◌<◌, List, [], ◌∷◌, some, ltb, ◌==◌, ==_iff, update, ◌≡◌,
  ◌⊎◌, inl, inr, refl, ap, subst, arith, ◌∙◌, Bool-cases,
}
use rabia_sandbox.Pool.Resource.{
  Resource, slab_class, slab_index, zero_range, bump, allocate, do_deallocate, deallocate,
}
use rabia_sandbox.Pool.Resource.Laws.{
  All64, IsResource, bump_lem, slab_index-lt, slab_size, allocate_lem, slab_lem, slab_again,
}

-- A slab of `b` bytes is cut from the top: it lies below the old head, rounded down to 64, and nothing
-- else changes.
abbrev pub FromTop : Resource → ℕ → ℕ → Resource → Type 0
FromTop r b p r' =
    (r.freelists (slab_index b) ≡ [])
    × (r.raw ≤ p)
    × (p + b ≡ r.head / 64 * 64)
    × (r' ≡ record r { head = p })

-- There is no room: the pointer is null, and nothing changes.
abbrev pub NoRoom : Resource → ℕ → ℕ → Resource → Type 0
NoRoom r b p r' =
    (r.freelists (slab_index b) ≡ []) × (r.head / 64 * 64 < r.raw + b) × (p ≡ 0) × (r' ≡ r)

-- The slab of the class that was freed first is used again, and as many bytes as its class has are zero.
abbrev pub Again : Resource → ℕ → ℕ → Resource → Type 0
Again r b p r' =
    (left : List (ℕ × ℕ)) × (r.freelists (slab_index b) ≡ (64, p) ∷ left)
    × (r'.freelists ≡ update r.freelists (slab_index b) left)
    × (r'.memory ≡ zero_range p (2 ^ slab_class b) r.memory)
    × (r'.head ≡ r.head)

List-cases : {A : Type 0} (xs : List A) → (xs ≡ []) ⊎ ((x : A) × (ys : List A) × (xs ≡ x ∷ ys))
List-cases [] = inl refl
List-cases (x ∷ ys) = inr (x, ys, refl)

cut :
    (r : Resource) (b : ℕ)
    → IsResource r
    → b ≤ 2 ^ 20
    → r.freelists (slab_index b) ≡ []
    → (p : ℕ) × (r' : Resource) × (bump r b 64 ≡ (p, r'))
      × IsResource r'
      × (FromTop r b p r' ⊎ NoRoom r b p r')
cut r b ok few vacant =
    let down = r.head / 64 * 64 - b in
    let low = ok.low in
    let room = ok.room in
    let word = ok.head_word in
    elim (Bool-cases (ltb down r.raw)) [
      | inl full ↦
          (0, r, bump_lem r b ok few ∙ rw full refl, ok, inr (vacant, ground arith, refl, refl))
      | inr space ↦ (
        down,
        record r { head = down },
        bump_lem r b ok few ∙ rw space refl,
        record {
          aligned = ok.aligned;
          marked = ok.marked;
          head_word = omega arith;
          low = ok.low;
          room = ground arith;
        },
        inl (vacant, ground arith, ground arith, refl),
      )
    ]

again :
    (r : Resource) (b : ℕ) (f : ℕ × ℕ) (fs : List (ℕ × ℕ))
    → IsResource r
    → r.freelists (slab_index b) ≡ f ∷ fs
    → r.alignments (slab_index b) ≡ 64
    → IsResource (record r {
      freelists = update r.freelists (slab_index b) fs;
      alignments = elim fs [ [] ↦ update r.alignments (slab_index b) 0 | g ∷ gs ↦ r.alignments ];
      memory = zero_range f.1 (2 ^ slab_class b) r.memory;
    })
again r b f [] ok list at = record {
  aligned = λ i. elim (Bool-cases (i == slab_index b)) [
    | inl here ↦ rw here tt
    | inr away ↦ rw away (ok.aligned i)
  ];
  marked = λ i. elim (Bool-cases (i == slab_index b)) [
    | inl here ↦ rw here (inl (refl, refl))
    | inr away ↦ rw away (ok.marked i)
  ];
  head_word = ok.head_word;
  low = ok.low;
  room = ok.room;
}
again r b f (g ∷ gs) ok list at = record {
  aligned = λ i. elim (Bool-cases (i == slab_index b)) [
    | inl here ↦ rw here (subst All64 list (ok.aligned (slab_index b))).1
    | inr away ↦ rw away (ok.aligned i)
  ];
  marked = λ i. elim (Bool-cases (i == slab_index b)) [
    | inl here ↦ rw here (inr (ap r.alignments ((==_iff i (slab_index b)).0 here) ∙ at, λ e. cc))
    | inr away ↦ rw away (ok.marked i)
  ];
  head_word = ok.head_word;
  low = ok.low;
  room = ok.room;
}

-- For at most 2 ^ 20 bytes `allocate` ends without a failed assertion and keeps the allocator well
-- formed. It uses the slab of the class that was freed first, if there is one, and cuts one from the top
-- otherwise; it gives null only if there is no room.
pub allocate-IsResource :
    (r : Resource) (size n : ℕ)
    → IsResource r
    → size * n ≤ 2 ^ 20
    → let b = slab_size size n in
      (p : ℕ) × (r' : Resource) × (allocate r size n ≡ some (p, r'))
      × IsResource r'
      × (Again r b p r' ⊎ FromTop r b p r' ⊎ NoRoom r b p r')
allocate-IsResource r size n ok few =
    let b = slab_size size n in
    let small : b ≤ 2 ^ 20 = ground arith in
    let pos : 1 ≤ b = ground arith in
    let index = slab_index-lt b pos small in
    elim (ok.marked (slab_index b)) [
      | inl (unmarked, vacant) ↦
          let (p, r', run, ok', what) = cut r b ok small vacant in
          (
            p,
            r',
            allocate_lem r size n few ∙ slab_lem r b index unmarked ∙ ap some run,
            ok',
            inr what,
          )
      | inr (mark, some_left) ↦ elim (List-cases (r.freelists (slab_index b))) [
        | inl none_left ↦ absurd (some_left none_left)
        | inr (f, fs, list) ↦
            let aligned : f.0 ≡ 64 = (subst All64 list (ok.aligned (slab_index b))).0 in
            (
              f.1,
              _,
              allocate_lem r size n few ∙ slab_again r b f fs index mark list aligned,
              again r b f fs ok list mark,
              inl (fs, list ∙ ap (λ (a : ℕ). (a, f.1) ∷ fs) aligned, refl, refl, refl),
            )
      ]
    ]

pub deallocate_lem :
    (r : Resource) (p size n : ℕ)
    → size * n ≤ 2 ^ 20
    → deallocate r p size n ≡ do_deallocate r p (size * n) 64
unfolding deallocate
deallocate_lem r p size n few =
    let whole : size * n % 2 ^ 64 ≡ size * n = omega arith in
    ap (λ (t : ℕ). do_deallocate r p t 64) whole
