-- ===== src/Broker/Devices.antt =====
-- The ports that GetAvailableDevices finds.
use rabia_sandbox.Base.{
  ℕ, zero, suc, ◌+◌, ◌≤◌, ◌<◌, List, [], ◌∷◌, ◌++◌, map, Option, none, some, Bool, true, ◌≡◌, ◌⊎◌,
  ◌↔◌, inl, inr, refl, sym, ap, subst, ◌∙◌, arith, Bool-cases, ◌==◌, ==_iff,
}
use rabia_sandbox.Status.{Status, ok, unavailable}
use rabia_sandbox.Broker.{
  RdmaDevice, ports_from, find_active_ports, add_ports, devices_from, get_available_devices,
}

pub data IsIn {ℓ} {A : Type ℓ} (a : A) : List A → Type ℓ where
  here : {x : A} {xs : List A} → a ≡ x → IsIn a (x ∷ xs)
  there : {x : A} {xs : List A} → IsIn a xs → IsIn a (x ∷ xs)

pub IsIn-cons : {A : Type 0} (a x : A) (xs : List A) → IsIn a (x ∷ xs) → (a ≡ x) ⊎ IsIn a xs
IsIn-cons a x xs (here e) = inl e
IsIn-cons a x xs (there h) = inr h

-- The ports of a loop from port `i` on, `n` of them.
abbrev Active : (ℕ → Bool) → ℕ → ℕ → ℕ → Type 0
Active active i n p = (i ≤ p) × (p < i + n) × (active p ≡ true)

ports_sound : (active : ℕ → Bool) (i n p : ℕ) → IsIn p (ports_from active i n) → Active active i n p
unfolding ports_from
ports_sound active i zero p h = elim h [ ]
ports_sound active i (suc n) p h = elim (Bool-cases (active i)) [
  | inl up ↦ elim (IsIn-cons p i (ports_from active (i + 1) n) (subst (IsIn p) (rw up refl) h)) [
    | inl e ↦ (omega arith, omega arith, ap active e ∙ up)
    | inr more ↦
        let (low, high, is) = ports_sound active (i + 1) n p more in (omega arith, omega arith, is)
  ]
  | inr down ↦
      let (low, high, is) = ports_sound active (i + 1) n p (subst (IsIn p) (rw down refl) h) in
      (omega arith, omega arith, is)
]

ports_complete :
    (active : ℕ → Bool) (i n p : ℕ) → Active active i n p → IsIn p (ports_from active i n)
unfolding ports_from
ports_complete active i zero p (low, high, is) = absurd (omega arith)
ports_complete active i (suc n) p (low, high, is) = elim (Bool-cases (i == p)) [
  | inl first ↦
      let at : i ≡ p = (==_iff i p).0 first in
      let up : active i ≡ true = ap active at ∙ is in rw up (here (sym at))
  | inr later ↦
      let more = ports_complete active (i + 1) n p (ground arith, omega arith, is) in
      elim (Bool-cases (active i)) [ inl up ↦ rw up (there more) | inr down ↦ rw down more ]
]

find_none :
    (d : RdmaDevice)
    → ports_from d.active 1 d.phys_port_cnt ≡ []
    → find_active_ports d ≡ (unavailable, [])
unfolding find_active_ports
find_none d e = rw (find_active_ports, e) refl

find_some :
    (d : RdmaDevice) (p : ℕ) (ps : List ℕ)
    → ports_from d.active 1 d.phys_port_cnt ≡ p ∷ ps
    → find_active_ports d ≡ (ok, p ∷ ps)
unfolding find_active_ports
find_some d p ps e = rw (find_active_ports, e) refl

devices_some :
    (d : RdmaDevice) (ds : List (Option RdmaDevice))
    → devices_from (some d ∷ ds)
      ≡ map (λ (p : ℕ). (d.name, p)) (ports_from d.active 1 d.phys_port_cnt) ++ devices_from ds
unfolding devices_from
devices_some d ds = go (ports_from d.active 1 d.phys_port_cnt) refl
  where
    go :
        (ps : List ℕ)
        → ports_from d.active 1 d.phys_port_cnt ≡ ps
        → add_ports d.name (find_active_ports d) (devices_from ds)
          ≡ map (λ (p : ℕ). (d.name, p)) ps ++ devices_from ds
    go [] e =
        ap (λ (r : Status × List ℕ). add_ports d.name r (devices_from ds)) (find_none d e)
        ∙ unfold add_ports in refl
    go (p ∷ ps) e =
        ap (λ (r : Status × List ℕ). add_ports d.name r (devices_from ds)) (find_some d p ps e)
        ∙ unfold add_ports in refl

paired_sound :
    (name : ℕ) (ps : List ℕ) (rest : List (ℕ × ℕ)) (x : ℕ × ℕ)
    → IsIn x (map (λ (p : ℕ). (name, p)) ps ++ rest)
    → ((x.0 ≡ name) × IsIn x.1 ps) ⊎ IsIn x rest
paired_sound name [] rest x h = inr h
paired_sound name (p ∷ ps) rest x (here e) =
    inl (ap (λ (y : ℕ × ℕ). y.0) e, here (ap (λ (y : ℕ × ℕ). y.1) e))
paired_sound name (p ∷ ps) rest x (there h) = elim (paired_sound name ps rest x h) [
  | inl (same, more) ↦ inl (same, there more)
  | inr more ↦ inr more
]

paired_complete :
    (name : ℕ) (ps : List ℕ) (rest : List (ℕ × ℕ)) (x : ℕ × ℕ)
    → ((x.0 ≡ name) × IsIn x.1 ps) ⊎ IsIn x rest
    → IsIn x (map (λ (q : ℕ). (name, q)) ps ++ rest)
paired_complete name [] rest x (inl (same, h)) = elim h [ ]
paired_complete name [] rest x (inr h) = h
paired_complete name (q ∷ ps) rest (n, p) (inl (same, h)) = elim (IsIn-cons p q ps h) [
  | inl e ↦ here (cc)
  | inr more ↦ there (paired_complete name ps rest (n, p) (inl (same, more)))
]
paired_complete name (q ∷ ps) rest x (inr h) = there (paired_complete name ps rest x (inr h))

-- A device that was opened has the name and the active port.
pub record Offers (ds : List (Option RdmaDevice)) (name p : ℕ) : Type 0 where
  pub device : RdmaDevice
  pub opened : IsIn (some device) ds
  pub named : device.name ≡ name
  pub range : (1 ≤ p) × (p ≤ device.phys_port_cnt)
  pub is_active : device.active p ≡ true

skipped :
    (o : Option RdmaDevice) (ds : List (Option RdmaDevice)) (name p : ℕ)
    → Offers ds name p
    → Offers (o ∷ ds) name p
skipped o ds name p f = record {
  device = f.device;
  opened = there f.opened;
  named = f.named;
  range = f.range;
  is_active = f.is_active;
}

devices_sound :
    (ds : List (Option RdmaDevice)) (name p : ℕ)
    → IsIn (name, p) (devices_from ds)
    → Offers ds name p
unfolding devices_from
devices_sound [] name p h = elim h [ ]
devices_sound (none ∷ ds) name p h = skipped none ds name p (devices_sound ds name p h)
devices_sound (some d ∷ ds) name p h =
    elim (paired_sound d.name (ports_from d.active 1 d.phys_port_cnt) (devices_from ds) (name, p)
      (subst (IsIn (name, p)) (devices_some d ds) h)) [
        | inl (same, port) ↦
            let (low, high, is) = ports_sound d.active 1 d.phys_port_cnt p port in
            record {
              device = d;
              opened = here refl;
              named = sym same;
              range = (low, omega arith);
              is_active = is;
            }
        | inr more ↦ skipped (some d) ds name p (devices_sound ds name p more)
      ]

devices_complete :
    (ds : List (Option RdmaDevice)) (d : RdmaDevice) (p : ℕ)
    → IsIn (some d) ds
    → (1 ≤ p) × (p ≤ d.phys_port_cnt)
    → d.active p ≡ true
    → IsIn (d.name, p) (devices_from ds)
unfolding devices_from
devices_complete [] d p h range is = elim h [ ]
devices_complete (none ∷ ds) d p (here e) range is = cc
devices_complete (none ∷ ds) d p (there h) range is = devices_complete ds d p h range is
devices_complete (some c ∷ ds) d p (here e) range is =
    let same : d ≡ c = cc in
    subst (λ (x : RdmaDevice). IsIn (x.name, p) (devices_from (some c ∷ ds))) (sym same)
      (subst (IsIn (c.name, p)) (sym (devices_some c ds)) (
        paired_complete c.name (ports_from c.active 1 c.phys_port_cnt) (devices_from ds) (c.name, p)
          (inl (
            refl,
            ports_complete c.active 1 c.phys_port_cnt p (
              range.0,
              port_bound p c (subst (λ (x : RdmaDevice). p ≤ x.phys_port_cnt) same range.1),
              subst (λ (x : RdmaDevice). x.active p ≡ true) same is,
            ),
          ))))
  where
    port_bound : (q : ℕ) (x : RdmaDevice) → q ≤ x.phys_port_cnt → q < 1 + x.phys_port_cnt
    port_bound q x le = omega arith
devices_complete (some c ∷ ds) d p (there h) range is =
    subst (IsIn (d.name, p)) (sym (devices_some c ds)) (
      paired_complete c.name (ports_from c.active 1 c.phys_port_cnt) (devices_from ds) (d.name, p)
        (inr (devices_complete ds d p h range is)))

-- If there are devices at all, GetAvailableDevices returns Ok with the pairs of a name and a port such that
-- a device that could be opened has the name, and the port is one of its ports, from 1 on, and active: all
-- of these pairs and no other. In particular it returns Ok where no device has an active port.
pub available-Offers :
    (o : Option RdmaDevice) (ds : List (Option RdmaDevice)) (name p : ℕ)
    → ((get_available_devices (o ∷ ds)).0 ≡ ok)
      × (IsIn (name, p) (get_available_devices (o ∷ ds)).1 ↔ Offers (o ∷ ds) name p)
unfolding get_available_devices
available-Offers o ds name p = (
  refl,
  (
    devices_sound (o ∷ ds) name p,
    λ f.
        subst (λ (n : ℕ). IsIn (n, p) (devices_from (o ∷ ds))) f.named
          (devices_complete (o ∷ ds) f.device p f.opened f.range f.is_active),
  ),
)
