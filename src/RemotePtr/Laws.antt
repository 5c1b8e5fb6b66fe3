-- ===== src/RemotePtr/Laws.antt =====
-- A remote pointer is a pair of a 16-bit id and a 48-bit address, and arithmetic stays in the address.
use rabia_sandbox.Base.{
  ℕ, ◌+◌, ◌-◌, ◌*◌, ◌/◌, ◌%◌, ◌^◌, ◌<◌, bit_and, bit_or, ◌≡◌, ap, arith, true, ◌↔◌,
}
use rabia_sandbox.Bits.{bit_or-field, bit_and-low, bit_and-high}
use rabia_sandbox.RemotePtr.{make, id, address, advance, is_null, address_bitmask}

-- The two masks cut a word at bit 48.
address_lem : (raw : ℕ) → address raw ≡ raw % 2 ^ 48
unfolding address
address_lem raw = bit_and-low 48 raw

id_field : (raw : ℕ) → bit_and raw ((2 ^ 16 - 1) * 2 ^ 48) ≡ raw / 2 ^ 48 % 2 ^ 16 * 2 ^ 48
id_field raw = omega (
  arith,
  ap (λ (t : ℕ). bit_and t ((2 ^ 16 - 1) * 2 ^ 48))
      (let e : raw ≡ raw / 2 ^ 48 * 2 ^ 48 + raw % 2 ^ 48 = omega arith in e),
  bit_and-high 48 (2 ^ 16 - 1) (raw / 2 ^ 48) (raw % 2 ^ 48) (omega arith),
  bit_and-low 16 (raw / 2 ^ 48),
)

id_lem : (raw : ℕ) → id raw ≡ raw / 2 ^ 48 % 2 ^ 16
unfolding id
id_lem raw = omega (arith, id_field raw)

make_lem : (i a : ℕ) → make i a ≡ i % 2 ^ 16 * 2 ^ 48 + a % 2 ^ 48
unfolding make
make_lem i a = omega (
  arith,
  ap (λ (t : ℕ). bit_or t (bit_and a address_bitmask))
      (let e : (i % 2 ^ 16) * 2 ^ 48 % 2 ^ 64 ≡ i % 2 ^ 16 * 2 ^ 48 = omega arith in e),
  bit_and-low 48 a,
  bit_or-field 48 (i % 2 ^ 16) (bit_and a address_bitmask) (omega (arith, bit_and-low 48 a)),
)

advance_lem :
    (size raw s : ℕ)
    → advance size raw s ≡ raw / 2 ^ 48 % 2 ^ 16 * 2 ^ 48 + (raw + size * s) % 2 ^ 48
unfolding advance
advance_lem size raw s =
    let moved : ℕ = (raw + size * s % 2 ^ 64) % 2 ^ 64 in
    omega (
      arith,
      ap (λ (t : ℕ). bit_or t (bit_and moved address_bitmask)) (id_field raw),
      bit_and-low 48 moved,
      bit_or-field 48 (raw / 2 ^ 48 % 2 ^ 16) (bit_and moved address_bitmask)
          (omega (arith, bit_and-low 48 moved)),
    )

-- A constructed pointer gives back its id modulo 2 ^ 16 and its address modulo 2 ^ 48: both are
-- recovered exactly when they fit their fields.
pub make_fields : (i a : ℕ) → (id (make i a) ≡ i % 2 ^ 16) × (address (make i a) ≡ a % 2 ^ 48)
make_fields i a = (
  omega (arith, id_lem (make i a), make_lem i a),
  omega (arith, address_lem (make i a), make_lem i a),
)

-- Every 64-bit word is the pointer made of its own id and address.
pub make-id-address : (raw : ℕ) → raw < 2 ^ 64 → make (id raw) (address raw) ≡ raw
make-id-address raw h = omega (arith, id_lem raw, address_lem raw, make_lem (id raw) (address raw))

-- `+=` keeps the id whatever the distance, and moves the address by the size of the elements
-- modulo 2 ^ 48.
pub advance_fields :
    (size raw s : ℕ)
    → (id (advance size raw s) ≡ id raw)
      × (address (advance size raw s) ≡ (address raw + size * s) % 2 ^ 48)
advance_fields size raw s = (
  omega (arith, id_lem raw, id_lem (advance size raw s), advance_lem size raw s),
  omega (arith, address_lem raw, address_lem (advance size raw s), advance_lem size raw s),
)

-- Two moves are one move by the sum.
pub advance-advance :
    (size raw s t : ℕ) → advance size (advance size raw s) t ≡ advance size raw (s + t)
advance-advance size raw s t = omega (
  arith,
  advance_lem size raw s,
  advance_lem size (advance size raw s) t,
  advance_lem size raw (s + t),
)

-- The only pointer made of an id and an address that fit their fields and that tests as null is the
-- one of id 0 and address 0.
pub make-is_null :
    (i a : ℕ) → i < 2 ^ 16 → a < 2 ^ 48 → (is_null (make i a) ≡ true) ↔ ((i ≡ 0) × (a ≡ 0))
unfolding is_null
make-is_null i a hi ha = (λ h. ground (arith, make_lem i a), λ e. ground (arith, make_lem i a))
