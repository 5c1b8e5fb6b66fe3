-- ===== src/Iht/Remote/Locks.antt =====
-- The locks of the buckets with several clients at once (oldAPIHelpMark/iht/iht_ds.h: `acquire`, `unlock`
-- and the loop of `do_with`). A lock is the word at its address. What a client reads or writes besides
-- the locks is not part of this model.
use rabia_sandbox.Base.{
  ℕ, ◌≤◌, ◌<◌, ◌≡◌, ◌≢◌, ◌⊎◌, inl, inr, refl, ap, arith, update, weigh, weigh-update, weigh-none,
  weigh-place, weigh-some, weigh-one, ◌==◌, if◌then◌else◌,
}
use rabia_sandbox.Iht.Remote.Store.{e_locked, e_unlocked, p_unlocked}

-- Where a client stands: on its way down, in the spin loop on a lock, and in `apply` with a lock held.
pub data Phase : Type 0 where
  walking : Phase
  spinning holding : ℕ → Phase

pub record Clients : Type 0 where
  pub locks : ℕ → ℕ
  pub pc : ℕ → Phase

-- A step of a client: the lock words before, where it stands, the lock words after, where it stands then.
pub data Act (l : ℕ → ℕ) : Phase → (ℕ → ℕ) → Phase → Type 0 where
  -- It takes a bucket for one with a list, and calls `acquire`.
  begin : (a : ℕ) → Act l walking l (spinning a)
  -- The compare-and-swap of `acquire`, on each of the values it can find.
  win : {a : ℕ} → l a ≡ e_unlocked → Act l (spinning a) (update l a e_locked) (holding a)
  spin : {a : ℕ} → l a ≡ e_locked → Act l (spinning a) l (spinning a)
  refetch : {a : ℕ} → l a ≡ p_unlocked → Act l (spinning a) l walking
  -- `apply` has returned true, or false after a rehash.
  finish : {a : ℕ} → Act l (holding a) (update l a e_unlocked) walking
  calcify : {a : ℕ} → Act l (holding a) (update l a p_unlocked) walking

-- Any of `n` clients moves.
pub data ClientStep (n : ℕ) (s : Clients) : Clients → Type 0 where
  pick :
      (i : ℕ) {l : ℕ → ℕ} {p : Phase}
      → i < n
      → Act s.locks (s.pc i) l p
      → ClientStep n s (record { locks = l; pc = update s.pc i p })

-- The states from a table that nobody uses on.
pub data Locking (n : ℕ) : Clients → Type 0 where
  start :
      (l : ℕ → ℕ)
      → ((a : ℕ) → (l a ≡ e_unlocked) ⊎ (l a ≡ p_unlocked))
      → Locking n (record { locks = l; pc = λ i. walking })
  turn : {s t : Clients} → Locking n s → ClientStep n s t → Locking n t

-- A client that holds the lock at `a`.
abbrev holds : ℕ → Phase → ℕ
holds a (holding b) = if b == a then 1 else 0
holds a _ = 0

-- A lock is E_LOCKED if one client holds it, and one of the free values if none does.
pub record Owned (n : ℕ) (s : Clients) : Type 0 where
  pub owners : (a : ℕ) → weigh (holds a) s.pc n ≡ (if s.locks a == e_locked then 1 else 0)
  pub values :
      (a : ℕ) → (s.locks a ≡ e_locked) ⊎ ((s.locks a ≡ e_unlocked) ⊎ (s.locks a ≡ p_unlocked))

start-Owned :
    (n : ℕ) (l : ℕ → ℕ)
    → ((a : ℕ) → (l a ≡ e_unlocked) ⊎ (l a ≡ p_unlocked))
    → Owned n (record { locks = l; pc = λ i. walking })
start-Owned n l free = record {
  owners = λ a. ground (arith, weigh-none (holds a) walking n refl, free a);
  values = λ a. inr (free a);
}

Act-Owned :
    (n : ℕ) (s : Clients) (i : ℕ) {p p' : Phase} {l : ℕ → ℕ}
    → i < n
    → s.pc i ≡ p
    → Act s.locks p l p'
    → Owned n s
    → Owned n (record { locks = l; pc = update s.pc i p' })
Act-Owned n s i lt at (begin b) ok = record {
  owners = λ a. ground (arith, ok.owners a, weigh-update (holds a) s.pc i (spinning b) n);
  values = ok.values;
}
Act-Owned n s i lt at (win {a = b} free) ok = record {
  owners = λ a. ground (arith, ok.owners a, weigh-update (holds a) s.pc i (holding b) n);
  values = λ a. ground (arith, ok.values a);
}
Act-Owned n s i lt at (spin {a = b} busy) ok = record {
  owners = λ a. ground (arith, ok.owners a, weigh-update (holds a) s.pc i (spinning b) n);
  values = ok.values;
}
Act-Owned n s i lt at (refetch calc) ok = record {
  owners = λ a. ground (arith, ok.owners a, weigh-update (holds a) s.pc i walking n);
  values = ok.values;
}
Act-Owned n s i lt at (finish {a = b}) ok = record {
  owners = λ a. ground (
    arith,
    ok.owners a,
    weigh-update (holds a) s.pc i walking n,
    weigh-place (holds a) s.pc i n lt,
  );
  values = λ a. ground (arith, ok.values a);
}
Act-Owned n s i lt at (calcify {a = b}) ok = record {
  owners = λ a. ground (
    arith,
    ok.owners a,
    weigh-update (holds a) s.pc i walking n,
    weigh-place (holds a) s.pc i n lt,
  );
  values = λ a. ground (arith, ok.values a);
}

Locking-Owned : {n : ℕ} {s : Clients} → Locking n s → Owned n s
Locking-Owned {n} (start l free) = start-Owned n l free
Locking-Owned {n} (turn {s = s} r (pick i lt mv)) = Act-Owned n s i lt refl mv (Locking-Owned r)

-- In every state that clients reach from a table in which no lock is held, no two clients hold the lock
-- of one bucket, and the lock that a client holds is E_LOCKED.
pub holding_exclusive :
    (n : ℕ) (s : Clients) (i j a : ℕ)
    → Locking n s
    → i < n
    → j < n
    → s.pc i ≡ holding a
    → s.pc j ≡ holding a
    → (i ≡ j) × (s.locks a ≡ e_locked)
holding_exclusive n s i j a r below_i below_j at_i at_j =
    let owners = (Locking-Owned r).owners a in
    (
      weigh-one (holds a) s.pc i j n (ground (arith, owners)) below_i below_j (ground arith)
          (ground arith),
      ground (arith, owners, weigh-place (holds a) s.pc i n below_i),
    )

held_by : (a : ℕ) (p : Phase) → 1 ≤ holds a p → p ≡ holding a
held_by a walking h = absurd (omega arith)
held_by a (spinning b) h = absurd (omega arith)
held_by a (holding b) h = ground (arith, ap holding)

-- In every such state, and for every bucket, the lock is free for the next client that tries, or the
-- bucket is calcified, or there is a client that holds the lock and has yet to give it back: nobody
-- spins on a lock that was left behind.
pub never_abandoned :
    (n : ℕ) (s : Clients) (a : ℕ)
    → Locking n s
    → ((s.locks a ≡ e_unlocked) ⊎ (s.locks a ≡ p_unlocked))
      ⊎ ((j : ℕ) × (j < n) × (s.pc j ≡ holding a))
never_abandoned n s a r =
    let ok = Locking-Owned r in
    elim (ok.values a) [
      | inl taken ↦
          let (j, lt, pos) = weigh-some (holds a) s.pc n (ground (arith, ok.owners a)) in
          inr (j, lt, held_by a (s.pc j) pos)
      | inr free ↦ inl free
    ]

Act-calcified :
    (n : ℕ) (s : Clients) (i a : ℕ) {p p' : Phase} {l : ℕ → ℕ}
    → i < n
    → s.pc i ≡ p
    → Owned n s
    → Act s.locks p l p'
    → s.locks a ≡ p_unlocked
    → l a ≡ p_unlocked
Act-calcified n s i a lt at ok (begin b) calc = calc
Act-calcified n s i a lt at ok (win {a = b} free) calc = ground arith
Act-calcified n s i a lt at ok (spin busy) calc = calc
Act-calcified n s i a lt at ok (refetch c) calc = calc
Act-calcified n s i a lt at ok (finish {a = b}) calc =
    ground (arith, ok.owners a, weigh-place (holds a) s.pc i n lt)
Act-calcified n s i a lt at ok (calcify {a = b}) calc = ground arith

-- In every such state a bucket that is calcified stays so in every step of any client, and no client
-- holds its lock.
pub calcified_forever :
    (n : ℕ) (s t : Clients) (a : ℕ)
    → Locking n s
    → ClientStep n s t
    → s.locks a ≡ p_unlocked
    → (t.locks a ≡ p_unlocked) × ((i : ℕ) → i < n → s.pc i ≢ holding a)
calcified_forever n s t a r (pick i lt mv) calc =
    let ok = Locking-Owned r in
    (
      Act-calcified n s i a lt refl ok mv calc,
      λ j l at. absurd (ground (arith, ok.owners a, weigh-place (holds a) s.pc j n l)),
    )
