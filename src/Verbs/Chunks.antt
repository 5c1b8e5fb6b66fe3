-- ===== src/Verbs/Chunks.antt =====
-- The chunks of ReadInternal.
use native.Mathlib.Nat.{mod-add-div', mul-le-mul_left}
use rabia_sandbox.Base.{
  ==_iff, subst, sym, ltb, ◌-◌, ℕ, zero, suc, ◌+◌, ◌*◌, ◌/◌, ◌%◌, ◌^◌, ◌≤◌, ◌<◌, List, [], ◌∷◌,
  true, false, ◌≡◌, refl, ap, arith, ◌==◌, if◌then◌else◌, inl, inr, Bool-cases,
}
use rabia_sandbox.RemotePtr.{address}
use rabia_sandbox.Verbs.{ConnInfo, Request, num_chunks, chunks_from, chunks}

-- The requests read one stretch from `local` and from the remote address on, without gap or overlap, and
-- only the last asks for a completion.
pub data Covers (local remote : ℕ) : ℕ → List Request → ℕ → Type 0 where
  last :
      {from to : ℕ} (r : Request)
      → r.local ≡ local + from
      → r.remote_addr ≡ remote + from
      → r.signaled ≡ true
      → from + r.length ≡ to
      → Covers local remote from (r ∷ []) to
  more :
      {from mid to : ℕ} {rs : List Request} (r : Request)
      → r.local ≡ local + from
      → r.remote_addr ≡ remote + from
      → r.signaled ≡ false
      → from + r.length ≡ mid
      → Covers local remote mid rs to
      → Covers local remote from (r ∷ rs) to

-- The number of chunks as a number.
abbrev count : ℕ → ℕ → ℕ
count bytes chunk_size =
    if bytes % chunk_size == 0 then bytes / chunk_size else bytes / chunk_size + 1

-- A number of whole chunks.
whole_chunks :
    (bytes chunk_size q : ℕ)
    → bytes / chunk_size ≡ q
    → bytes / chunk_size * chunk_size ≡ q * chunk_size
whole_chunks bytes chunk_size q e = ap (λ (x : ℕ). x * chunk_size) e

-- What is left for the last chunk.
last_chunk :
    (bytes chunk_size j : ℕ)
    → 1 ≤ chunk_size
    → j + 1 ≡ count bytes chunk_size
    → j * chunk_size + (if bytes % chunk_size == 0 then chunk_size else bytes % chunk_size) ≡ bytes
last_chunk bytes chunk_size j pos e = elim (Bool-cases (bytes % chunk_size == 0)) [
  | inl whole ↦
      let product = whole_chunks bytes chunk_size (j + 1) (ground (arith, whole)) in
      let sum = mod-add-div' bytes chunk_size in
      let none_left : bytes % chunk_size ≡ 0 = (==_iff (bytes % chunk_size) 0).0 whole in
      rw whole (omega arith)
  | inr rest ↦
      let product = whole_chunks bytes chunk_size j (ground (arith, rest)) in
      let sum = mod-add-div' bytes chunk_size in rw rest (omega arith)
]

-- A chunk that is not the last one ends before the bytes do.
earlier_chunk :
    (bytes chunk_size j n : ℕ)
    → 1 ≤ chunk_size
    → j + suc (suc n) ≡ count bytes chunk_size
    → (j + 1) * chunk_size ≤ bytes
earlier_chunk bytes chunk_size j n pos e =
    let more : j + 1 ≤ bytes / chunk_size = ground arith in
    let product = mul-le-mul_left chunk_size more in
    let sum = mod-add-div' bytes chunk_size in omega (arith, product, sum)

-- No more chunks than bytes.
count_le : (bytes chunk_size : ℕ) → 1 ≤ chunk_size → count bytes chunk_size ≤ bytes
count_le bytes chunk_size pos =
    let product = mul-le-mul_left (bytes / chunk_size) pos in
    let sum = mod-add-div' bytes chunk_size in ground (arith, product, sum)

count_pos : (bytes chunk_size : ℕ) → 1 ≤ chunk_size → 1 ≤ bytes → 1 ≤ count bytes chunk_size
count_pos bytes chunk_size pos some_bytes =
    let sum = mod-add-div' bytes chunk_size in
    elim (Bool-cases (ltb 0 (bytes / chunk_size))) [
      | inl some_chunk ↦ ground arith
      | inr no_chunk ↦ let product = whole_chunks bytes chunk_size 0 (ground arith) in ground arith
    ]

chunks_cover :
    (ptr : ℕ) (info : ConnInfo) (key i local offset bytes chunk_size j n from : ℕ)
    → 1 ≤ chunk_size
    → bytes < 2 ^ 31
    → local + (offset + bytes) < 2 ^ 64
    → address ptr + (offset + bytes) < 2 ^ 64
    → j + suc n ≡ count bytes chunk_size
    → from ≡ offset + j * chunk_size
    → Covers local
        (address ptr)
        from
        (chunks_from ptr info key i local offset bytes chunk_size j (suc n))
        (offset + bytes)
unfolding chunks_from
chunks_cover ptr info key i local offset bytes chunk_size j zero from pos word here there e at =
    let size = last_chunk bytes chunk_size j pos e in
    let offset_fits : (offset + j * chunk_size) % 2 ^ 64 ≡ from = omega arith in
    last _ (omega arith) (omega arith) refl (omega arith)
chunks_cover ptr info key i local offset bytes chunk_size j (suc n) from pos word here there e at =
    let not_last : (suc n == 0) ≡ false = ground arith in
    let inside = earlier_chunk bytes chunk_size j n pos e in
    let size : (j + 1) * chunk_size ≡ j * chunk_size + chunk_size = omega arith in
    let offset_fits : (offset + j * chunk_size) % 2 ^ 64 ≡ from = omega arith in
    more _ (omega arith) (omega arith) not_last (ground arith) (
      chunks_cover ptr info key i local offset bytes chunk_size (j + 1) n
        (offset + (j + 1) * chunk_size) pos word here there (omega arith) refl)

-- For at least one byte and less than 2 ^ 31, in chunks of at least one, where the stretch ends below 2 ^ 64
-- in the local memory and in the remote one, ReadInternal posts requests that read the bytes from the offset
-- on, in order, without gap or overlap, and with one completion in all.
pub chunks-Covers :
    (ptr : ℕ) (info : ConnInfo) (key i local offset bytes chunk_size : ℕ)
    → 1 ≤ chunk_size
    → 1 ≤ bytes
    → bytes < 2 ^ 31
    → local + (offset + bytes) < 2 ^ 64
    → address ptr + (offset + bytes) < 2 ^ 64
    → Covers local
        (address ptr)
        offset
        (chunks ptr info key i local offset bytes chunk_size)
        (offset + bytes)
unfolding chunks num_chunks
chunks-Covers ptr info key i local offset bytes chunk_size pos some_bytes word here there =
    let n = count bytes chunk_size in
    let positive = count_pos bytes chunk_size pos some_bytes in
    let small = count_le bytes chunk_size pos in
    let fits : (if ltb (n % 2 ^ 32) (2 ^ 31) then n % 2 ^ 32 else 0) ≡ suc (n - 1) = ground arith in
    subst
      (λ (x : ℕ).
        Covers local (address ptr) offset
          (chunks_from ptr info key i local offset bytes chunk_size 0 x) (offset + bytes))
      (sym fits)
      (chunks_cover ptr info key i local offset bytes chunk_size 0 (n - 1) offset pos word here
        there (omega arith) (omega arith))
