-- ===== src/Messenger/Send.antt =====
-- What SendMessage leaves in the send buffer.
use rabia_sandbox.Base.{
  ℕ, zero, suc, ◌+◌, ◌%◌, ◌^◌, ◌≤◌, ◌<◌, List, [], ◌∷◌, Option, none, some, Bool, true, length, ltb,
  leb, ◌==◌, if◌then◌else◌, ◌≡◌, ◌≢◌, refl, ap, arith, ◌∙◌, inl, inr, ◌⊎◌, Bool-cases, Option-cases,
}
use rabia_sandbox.Status.{Status, ok, resource_exhausted, internal_error}
use rabia_sandbox.Messenger.{
  Messenger, Poll, success, copy, read_bytes, wait, send_message, send_cap,
}

copy_outside :
    (at : ℕ) (bytes : List ℕ) (buffer : ℕ → ℕ) (i : ℕ)
    → (i < at) ⊎ (at + length bytes ≤ i)
    → copy at bytes buffer i ≡ buffer i
unfolding copy
copy_outside at [] buffer i out = refl
copy_outside at (b ∷ bytes) buffer i out = ground (arith, copy_outside (at + 1) bytes buffer i)

read_same :
    (f g : ℕ → ℕ) (at n : ℕ)
    → ((i : ℕ) → at ≤ i → f i ≡ g i)
    → read_bytes f at n ≡ read_bytes g at n
unfolding read_bytes
read_same f g at zero same = refl
read_same f g at (suc n) same =
    let head = same at (omega arith) in
    let tail = read_same f g (at + 1) n (λ i le. same i (omega arith)) in cc

pub read_copy :
    (at : ℕ) (bytes : List ℕ) (buffer : ℕ → ℕ)
    → read_bytes (copy at bytes buffer) at (length bytes) ≡ bytes
unfolding copy read_bytes
read_copy at [] buffer = refl
read_copy at (b ∷ bytes) buffer =
    let tail =
      read_same (copy at (b ∷ bytes) buffer) (copy (at + 1) bytes buffer) (at + 1) (length bytes)
        (λ i le. ground arith)
      ∙ read_copy (at + 1) bytes buffer in
    let head : (at == at) ≡ true = ground arith in rw head (ap (λ (t : List ℕ). b ∷ t) tail)

-- A message stands in the send buffer at an offset where it fits, and the rest of the buffer is as before.
abbrev pub Holds : Messenger → List ℕ → Messenger → Type 0
Holds m msg m' =
    (at : ℕ) × (at + length msg ≤ 2048)
    × (read_bytes m'.send_buffer at (length msg) ≡ msg)
    × ((i : ℕ) → (i < at) ⊎ (at + length msg ≤ i) → m'.send_buffer i ≡ m.send_buffer i)

-- The message that has been copied, and the pointer and the count afterwards.
abbrev after : Messenger → List ℕ → ℕ → ℕ → Messenger
after m msg at next = record m {
  send_buffer = copy at msg m.send_buffer;
  send_next = next;
  send_total = (m.send_total + 1) % 2 ^ 32;
}

held :
    (m : Messenger) (msg : List ℕ) (at next : ℕ)
    → at + length msg ≤ 2048
    → Holds m msg (after m msg at next)
held m msg at next fits =
    (at, fits, read_copy at msg m.send_buffer, λ i out. copy_outside at msg m.send_buffer i out)

-- How a message that has been posted ends.
abbrev outcome : Messenger → List ℕ → ℕ → Poll → Option (Status × Messenger)
outcome m msg at success = some (ok, after m msg at (at + length msg))
outcome m msg at _ = some (internal_error, after m msg at at)

posted_ends :
    (m : Messenger) (msg : List ℕ) (at : ℕ) (p : Poll)
    → at + length msg ≤ 2048
    → (s : Status) × (m' : Messenger) × (outcome m msg at p ≡ some (s, m'))
      × (m'.send_next ≤ 2048)
      × Holds m msg m'
posted_ends m msg at success fits =
    (ok, after m msg at (at + length msg), refl, fits, held m msg at (at + length msg) fits)
posted_ends m msg at _ fits =
    (internal_error, after m msg at at, refl, omega arith, held m msg at at fits)

-- With a send pointer inside the buffer, and a wait for the completion that ends, `SendMessage` ends and
-- keeps the pointer inside. A message of 256 bytes or more is refused with nothing changed. A shorter one
-- is put whole into the buffer, whatever the calls of ibverbs return, and touches nothing else of it.
pub send_message-Holds :
    (m : Messenger) (msg : List ℕ) (posted : Bool) (polls : List Poll)
    → m.send_next ≤ 2048
    → wait polls ≢ none
    → (s : Status) × (m' : Messenger) × (send_message m msg posted polls ≡ some (s, m'))
      × (m'.send_next ≤ 2048)
      × (((256 ≤ length msg) × (s ≡ resource_exhausted) × (m' ≡ m))
          ⊎ ((length msg < 256) × Holds m msg m'))
unfolding send_message
send_message-Holds m msg posted polls inside ends =
    let at = if ltb send_cap (m.send_next + length msg) then 0 else m.send_next in
    elim (Bool-cases (leb 256 (length msg))) [
      | inl large ↦ (resource_exhausted, m, rw large refl, inside, inl (ground arith, refl, refl))
      | inr small ↦
          let short : length msg < 256 = ground arith in
          let fits : at + length msg ≤ 2048 = ground arith in
          elim (Option-cases (wait polls)) [
            | inl never ↦ absurd (ends never)
            | inr (p, done) ↦ elim (Bool-cases posted) [
              | inl accepted ↦
                  let (s, m', run, next, holds) = posted_ends m msg at p fits in
                  (s, m', rw (small, accepted, done) run, next, inr (short, holds))
              | inr refused ↦ (
                internal_error,
                after m msg at at,
                rw (small, refused) refl,
                omega arith,
                inr (short, held m msg at at fits),
              )
            ]
          ]
    ]
