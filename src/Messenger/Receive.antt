-- ===== src/Messenger/Receive.antt =====
-- Receives come in the order of the posted buffers.
use rabia_sandbox.Base.{
  ℕ, suc, ◌+◌, ◌-◌, ◌*◌, ◌%◌, ◌^◌, ◌≤◌, ◌<◌, List, ◌++◌, Option, none, some, Bool, true, false,
  length, zero, ltb, ◌==◌, ◌≡◌, ◌≢◌, ◌⊎◌, refl, sym, ap, arith, ◌∙◌, inl, inr, Bool-cases,
}
use rabia_sandbox.Status.{Status}
use rabia_sandbox.Messenger.{
  Messenger, Completion, received, again, call_failed, flushed, other_status, post_from,
  prepare_recv_buffer, read_bytes, try_deliver_message, recv_max_bytes, rest_of,
}

-- The buffers from `recv_next` on are posted, and as many have been used as the count of receives tells.
pub record IsReceiver (m : Messenger) : Type 0 where
  pub slot : m.recv_next ≡ m.recv_total % 8 * 256
  pub queue : m.posted ≡ post_from m.recv_next (8 - m.recv_total % 8)
  pub word : m.recv_total < 2 ^ 32

-- The posted buffers behind the first.
rest_queue :
    (posted : List ℕ) (at n k : ℕ)
    → posted ≡ post_from at n
    → n ≡ k + 1
    → rest_of posted ≡ post_from (at + 256) k
unfolding post_from
rest_queue posted at n k queue more =
    ap rest_of (queue ∙ ap (post_from at) (let e : n ≡ suc k = omega arith in e))

pub length-post_from : (at n : ℕ) → length (post_from at n) ≡ n
unfolding post_from
length-post_from at zero = refl
length-post_from at (suc n) = ap suc (length-post_from (at + 256) n)

-- A message that has come.
pub received-IsReceiver :
    (m : Messenger) (n : ℕ)
    → IsReceiver m
    → (s : Status) × (msg : Option (List ℕ)) × (m' : Messenger) × (try_deliver_message m
          (received n)
        ≡ some (s, msg, m'))
      × IsReceiver m'
      × (m'.recv_next ≤ 1792)
unfolding try_deliver_message prepare_recv_buffer post_from
received-IsReceiver m n ok =
    let slot = ok.slot in
    let word = ok.word in
    elim (Bool-cases (ltb 1792 (m.recv_next + 256))) [
      | inl last ↦
          let whole : ((m.recv_total + 1) % 2 ^ 32 % 8 == 0) ≡ true = ground arith in
          (
            Status.ok,
            some (read_bytes m.recv_buffer m.recv_next n),
            record m {
              recv_total = (m.recv_total + 1) % 2 ^ 32;
              recv_next = 0;
              posted = rest_of m.posted ++ post_from 0 8;
            },
            rw (last, whole) refl,
            record {
              slot = ground arith;
              queue =
                  ap (λ (q : List ℕ). q ++ post_from 0 8)
                    (rest_queue m.posted m.recv_next (8 - m.recv_total % 8) 0 ok.queue
                      (ground arith))
                  ∙ ap (λ (k : ℕ). post_from 0 (8 - k))
                      (let z : 0 ≡ (m.recv_total + 1) % 2 ^ 32 % 8 = ground arith in z);
              word = omega arith;
            },
            omega arith,
          )
      | inr room ↦ (
        Status.ok,
        some (read_bytes m.recv_buffer m.recv_next n),
        record m {
          recv_total = (m.recv_total + 1) % 2 ^ 32;
          recv_next = m.recv_next + recv_max_bytes;
          posted = rest_of m.posted;
        },
        rw room refl,
        record {
          slot = ground arith;
          queue =
              rest_queue m.posted m.recv_next (8 - m.recv_total % 8)
                (8 - (m.recv_total + 1) % 2 ^ 32 % 8) ok.queue (ground arith);
          word = omega arith;
        },
        ground arith,
      )
    ]

-- A completion with an error status.
abbrev pub has_error : Completion → Bool
has_error flushed = true
has_error other_status = true
has_error _ = false

-- One posted buffer less than there should be.
short-IsReceiver :
    (m : Messenger) → IsReceiver m → ¬ IsReceiver (record m { posted = rest_of m.posted })
short-IsReceiver m ok still =
    let left = 7 - m.recv_total % 8 in
    let here = rest_queue m.posted m.recv_next (8 - m.recv_total % 8) left ok.queue (omega arith) in
    let count : left ≡ 8 - m.recv_total % 8 =
      sym (length-post_from (m.recv_next + 256) left)
      ∙ ap (λ (q : List ℕ). length q) (sym here ∙ still.queue)
      ∙ length-post_from m.recv_next (8 - m.recv_total % 8) in
    omega arith

-- Whatever completion comes, the assertion of PrepareRecvBuffer does not fail. Without an error status the
-- buffers from `recv_next` on are posted afterwards, at least one of them. With an error status the result
-- is an error without a message and one posted buffer is used up, but `recv_next` stays, so that the posted
-- buffers are no longer those from there on.
pub try_deliver_message-IsReceiver :
    (m : Messenger) (c : Completion)
    → IsReceiver m
    → (s : Status) × (msg : Option (List ℕ)) × (m' : Messenger) × (try_deliver_message m c
        ≡ some (s, msg, m'))
      × (((has_error c ≡ false) × IsReceiver m' × (m'.recv_next ≤ 1792))
          ⊎ ((has_error c ≡ true)
              × (s ≢ Status.ok)
              × (msg ≡ none)
              × (m' ≡ record m { posted = rest_of m.posted })
              × (¬ IsReceiver m')))
unfolding try_deliver_message
try_deliver_message-IsReceiver m (received n) ok =
    let (s, msg, m', run, good, low) = received-IsReceiver m n ok in
    (s, msg, m', run, inl (refl, good, low))
try_deliver_message-IsReceiver m again ok = (_, _, m, refl, inl (refl, ok, omega (arith, ok.slot)))
try_deliver_message-IsReceiver m call_failed ok =
    (_, _, m, refl, inl (refl, ok, omega (arith, ok.slot)))
try_deliver_message-IsReceiver m flushed ok =
    (_, _, _, refl, inr (refl, (λ e. cc), refl, refl, short-IsReceiver m ok))
try_deliver_message-IsReceiver m other_status ok =
    (_, _, _, refl, inr (refl, (λ e. cc), refl, refl, short-IsReceiver m ok))
