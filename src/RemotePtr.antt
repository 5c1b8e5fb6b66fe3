-- ===== src/RemotePtr.antt =====
-- oldAPIHelpMark/rdma/remote_ptr.h: a pointer to memory of another machine, packed into 64 bits.
-- A `remote_ptr<T>` is its `raw_`; the element type shows only in `sizeof(element_type)`, an argument.
pub mod Laws
mod Tests
use rabia_sandbox.Base.{ℕ, ◌+◌, ◌-◌, ◌*◌, ◌/◌, ◌%◌, ◌^◌, bit_and, bit_or, bit_xor, Bool, ltb, ◌==◌}

-- bitsof(sizeof(uint64_t)) - bitsof(sizeof(id_type))
abbrev pub address_bits : ℕ
address_bits = 64 - 16

abbrev pub address_bitmask : ℕ
address_bitmask = 2 ^ address_bits - 1

abbrev pub id_bitmask : ℕ
id_bitmask = bit_xor (2 ^ 64 - 1) address_bitmask

-- remote_ptr(uint64_t id, uint64_t address): the id is narrowed to `id_type`, the address masked.
unfoldable pub make : ℕ → ℕ → ℕ
make i a = bit_or ((i % 2 ^ 16) * 2 ^ address_bits % 2 ^ 64) (bit_and a address_bitmask)

unfoldable pub id : ℕ → ℕ
id raw = bit_and raw id_bitmask / 2 ^ address_bits

unfoldable pub address : ℕ → ℕ
address raw = bit_and raw address_bitmask

-- operator+=(s): the address moves by `s` elements, the id stays.
unfoldable pub advance : ℕ → ℕ → ℕ → ℕ
advance size raw s =
    bit_or (bit_and raw id_bitmask) (bit_and ((raw + size * s % 2 ^ 64) % 2 ^ 64) address_bitmask)

-- operator++: `*this += 1`.
unfoldable pub next : ℕ → ℕ → ℕ
unfolding advance
next size raw = advance size raw 1

-- `p == remote_nullptr`
unfoldable pub is_null : ℕ → Bool
is_null raw = raw == 0

-- operator==, operator<
unfoldable pub equal : ℕ → ℕ → Bool
equal p q = p == q

unfoldable pub less : ℕ → ℕ → Bool
less p q = ltb p q

-- pointer_to(p): the id -1 is narrowed to 16 bits.
unfoldable pub pointer_to : ℕ → ℕ
unfolding make
pointer_to p = make (2 ^ 64 - 1) p
