-- ===== src/Verbs/Card.antt =====
-- What is relied on of the network card and its library, where nobody else uses it.
use rabia_sandbox.Base.{
  ℕ, zero, suc, ◌+◌, ◌-◌, ◌≤◌, [], ◌∷◌, Option, some, true, ◌≡◌, ap, subst, arith, ◌∙◌, ◌==◌,
  update, update_twice, ◌>>=◌, if◌then◌else◌,
}
use rabia_sandbox.Verbs.{
  Device, Request, atomic_cmp_and_swp, nothing, success, MemoryPool, wait_for, round_trip,
}

-- The words of the other machines after a compare-and-swap.
abbrev pub swapped : (ℕ → ℕ → ℕ) → Request → ℕ → ℕ → ℕ
swapped cell r machine a =
    if machine == r.machine
    then (if a == r.remote_addr
        then (if cell r.machine r.remote_addr == r.compare_add then r.swap else cell machine a)
        else cell machine a)
    else cell machine a

module _ {W : Type 0} ⦃card : Device W⦄ where
  -- The send queue of a machine is empty for `d` polls, and then has the completion of `i`.
  abbrev pub Delivers : ℕ → ℕ → ℕ → W → W → Type 0
  Delivers zero machine i w w' = card.poll machine w ≡ (success i, w')
  Delivers (suc d) machine i w w' =
      (v : W) × (card.poll machine w ≡ (nothing, v)) × Delivers d machine i v w'

  -- A signaled compare-and-swap is carried out once, and then completes: the word that was there stands
  -- in local memory. `cell` are the words of the other machines.
  pub record IsAtomic (cell : W → ℕ → ℕ → ℕ) : Type 0 where
    pub atomic :
        (w : W) (r : Request)
        → r.opcode ≡ atomic_cmp_and_swp
        → r.signaled ≡ true
        → (w₁ : W) × (w₂ : W) × (d : ℕ) × (card.post (r ∷ []) w ≡ some w₁)
          × Delivers d r.machine r.wr_id w₁ w₂
          × (card.load w₂ r.local ≡ cell w r.machine r.remote_addr)
          × ((machine a : ℕ) → cell w₂ machine a ≡ swapped (cell w) r machine a)

  zero_counter :
      (fuel machine i : ℕ) (counters : ℕ → ℕ) (w : W)
      → counters i ≡ 0
      → wait_for (suc fuel) machine i counters w ≡ some (counters, w)
  unfolding wait_for
  zero_counter fuel machine i counters w done = ground (arith, done)

  taken_off :
      (fuel machine i : ℕ) (counters : ℕ → ℕ) (w w' : W)
      → counters i ≡ 1
      → card.poll machine w ≡ (success i, w')
      → wait_for (suc fuel) machine i counters w
        ≡ wait_for fuel machine i (update counters i (counters i - 1)) w'
  unfolding wait_for
  taken_off fuel machine i counters w w' one h = ground (arith, one, h)

  polled_again :
      (fuel machine i : ℕ) (counters : ℕ → ℕ) (w w' : W)
      → counters i ≡ 1
      → card.poll machine w ≡ (nothing, w')
      → wait_for (suc fuel) machine i counters w ≡ wait_for fuel machine i counters w'
  unfolding wait_for
  polled_again fuel machine i counters w w' one h = ground (arith, one, h)

  -- The loop ends with the completion.
  wait_for-Delivers :
      (d fuel machine i : ℕ) (counters : ℕ → ℕ) (w w' : W)
      → d + 2 ≤ fuel
      → counters i ≡ 1
      → Delivers d machine i w w'
      → wait_for fuel machine i counters w ≡ some (update counters i 0, w')
  wait_for-Delivers d zero machine i counters w w' enough one h = absurd (omega arith)
  wait_for-Delivers zero (suc zero) machine i counters w w' enough one h = absurd (omega arith)
  wait_for-Delivers zero (suc (suc fuel)) machine i counters w w' enough one h =
      taken_off (suc fuel) machine i counters w w' one h
      ∙ ap (λ (x : ℕ). wait_for (suc fuel) machine i (update counters i x) w')
          (let none_left : counters i - 1 ≡ 0 = omega arith in none_left)
      ∙ zero_counter fuel machine i (update counters i 0) w' (ground arith)
  wait_for-Delivers (suc d) (suc fuel) machine i counters w w' enough one (v, h, rest) =
      polled_again fuel machine i counters w v one h
      ∙ wait_for-Delivers d fuel machine i counters v w' (omega arith) one rest

  -- The round trip of a compare-and-swap, with the fuel that it needs.
  pub record Trip (cell : W → ℕ → ℕ → ℕ) (i : ℕ) (r : Request) (m : MemoryPool) (w : W)
      : Type 0 where
    pub after : W
    pub need : ℕ
    pub runs :
        (fuel : ℕ)
        → need ≤ fuel
        → round_trip fuel i r m w ≡ some (record m { counters = update m.counters i 0 }, after)
    pub found : card.load after r.local ≡ cell w r.machine r.remote_addr
    pub cells : (machine a : ℕ) → cell after machine a ≡ swapped (cell w) r machine a

  pub trip :
      (cell : W → ℕ → ℕ → ℕ) (i : ℕ) (r : Request) (m : MemoryPool) (w : W)
      → IsAtomic cell
      → r.opcode ≡ atomic_cmp_and_swp
      → r.signaled ≡ true
      → r.wr_id ≡ i
      → Trip cell i r m w
  unfolding round_trip
  trip cell i r m w ok kind signal mine =
      let (w₁, w₂, d, posted, delivers, found, cells) = ok.atomic w r kind signal in
      record {
        after = w₂;
        need = d + 2;
        runs = λ fuel le. rw posted (
            ap (λ (x : Option ((ℕ → ℕ) × W)). x >>= λ y. some (record m { counters = y.0 }, y.1))
              (wait_for-Delivers d fuel r.machine i (update m.counters i 1) w₁ w₂ le (ground arith)
                  (subst (λ (x : ℕ). Delivers d r.machine x w₁ w₂) mine delivers)
                ∙ ap (λ (x : ℕ → ℕ). some (x, w₂)) (update_twice m.counters i 1 0)));
        found = found;
        cells = cells;
      }
