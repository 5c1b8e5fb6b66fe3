-- ===== src/Manager/Invariant.antt =====
-- The table of connections and the endpoints behind it.
use rabia_sandbox.Base.{
  ℕ, Option, none, some, false, ◌≡◌, ◌≢◌, refl, arith, ap, subst, sym, update, update_at, inl, inr,
  Option-cases,
}
use rabia_sandbox.Manager.{Manager, Connection, emplace, destroy_ep}

-- A connection stands under its peer, its endpoint is not destroyed, and no two share one.
pub record IsManager (m : Manager) : Type 0 where
  pub own :
      (p : ℕ) (c : Connection)
      → m.established p ≡ some c
      → (c.src_id ≡ m.my_id) × (c.dst_id ≡ p) × (m.destroyed c.endpoint ≡ false)
  pub single :
      (p q : ℕ) (c d : Connection)
      → m.established p ≡ some c
      → m.established q ≡ some d
      → c.endpoint ≡ d.endpoint
      → p ≡ q

-- An endpoint that no connection has.
abbrev pub Unused : Manager → ℕ → Type 0
Unused m i = (p : ℕ) (c : Connection) → m.established p ≡ some c → c.endpoint ≢ i

-- What a connection to a peer is like.
abbrev pub joined : Manager → ℕ → ℕ → Connection
joined m p i = record { src_id = m.my_id; dst_id = p; endpoint = i }

pub emplace_there :
    (m : Manager) (p i : ℕ) (c : Connection) → m.established p ≡ some c → emplace m p i ≡ m
unfolding emplace
emplace_there m p i c e = rw e (
    ap (λ (f : ℕ → Option Connection). record m { established = f })
      (update_at m.established p (some c) e))

pub emplace_absent :
    (m : Manager) (p i : ℕ)
    → m.established p ≡ none
    → emplace m p i ≡ record m { established = update m.established p (some (joined m p i)) }
unfolding emplace
emplace_absent m p i e = rw e refl

joined-IsManager :
    (m : Manager) (p i : ℕ)
    → IsManager m
    → Unused m i
    → m.destroyed i ≡ false
    → IsManager (record m { established = update m.established p (some (joined m p i)) })
joined-IsManager m p i ok unused live = record {
  own = λ q c e. ground (arith, ok.own q c);
  single = λ q r c d e f same. ground (arith, ok.single q r c d, unused q c, unused r d);
}

pub emplace-IsManager :
    (m : Manager) (p i : ℕ)
    → IsManager m
    → Unused m i
    → m.destroyed i ≡ false
    → IsManager (emplace m p i)
emplace-IsManager m p i ok unused live = elim (Option-cases (m.established p)) [
  | inl e ↦ subst IsManager (sym (emplace_absent m p i e)) (joined-IsManager m p i ok unused live)
  | inr (c, e) ↦ subst IsManager (sym (emplace_there m p i c e)) ok
]

pub destroy_ep-IsManager :
    (m : Manager) (i : ℕ) → IsManager m → Unused m i → IsManager (destroy_ep m i)
destroy_ep-IsManager m i ok unused = record {
  own = λ p c e. ground (arith, ok.own p c e, unused p c e);
  single = ok.single;
}

pub erase-IsManager :
    (m : Manager) (p : ℕ)
    → IsManager m
    → IsManager (record m { established = update m.established p none })
erase-IsManager m p ok = record {
  own = λ q c e. ground (arith, ok.own q c);
  single = λ q r c d e f same. ground (arith, ok.single q r c d);
}
