-- ===== src/Messenger.antt =====
-- TwoSidedRdmaMessenger of oldAPIHelpMark/rdma/connection_manager.h: messages through a send buffer and
-- posted receive buffers. Addresses are offsets into the two buffers. What the calls of ibverbs and
-- librdmacm return is given as arguments.
pub mod Send
pub mod Receive
pub mod PollCq
mod Tests
use rabia_sandbox.Base.{
  ℕ, zero, suc, ◌+◌, ◌-◌, ◌*◌, ◌/◌, ◌%◌, ◌^◌, List, [], ◌∷◌, ◌++◌, Option, none, some, Bool, true,
  false, length, get_elem?, ltb, leb, ◌==◌, if◌then◌else◌,
}
use rabia_sandbox.Status.{Status, ok, resource_exhausted, internal_error, unavailable, aborted}

abbrev pub capacity : ℕ
capacity = 2 ^ 12

abbrev pub recv_max_bytes : ℕ
recv_max_bytes = 2 ^ 8

abbrev pub send_cap : ℕ
send_cap = capacity / 2

abbrev pub recv_cap : ℕ
recv_cap = capacity / 2

-- `posted` are the receive buffers on the receive queue, the next one to be used first.
pub record Messenger : Type 0 where
  pub send_buffer : ℕ → ℕ
  pub send_next : ℕ
  pub send_total : ℕ
  pub recv_buffer : ℕ → ℕ
  pub recv_next : ℕ
  pub recv_total : ℕ
  pub posted : List ℕ

-- std::memcpy of a message to an offset of a buffer.
unfoldable pub copy : ℕ → List ℕ → (ℕ → ℕ) → ℕ → ℕ
copy at [] buffer i = buffer i
copy at (b ∷ bytes) buffer i =
    let rest = copy (at + 1) bytes buffer i in if i == at then b else rest

-- What rdma_get_send_comp gives: a failure with EAGAIN or another one, or a completion, with success or
-- without.
pub data Poll : Type 0 where
  retry failed bad_status success : Poll

-- The loop that waits for the completion, over the results of its calls.
unfoldable pub wait : List Poll → Option Poll
wait [] = none
wait (retry ∷ polls) = wait polls
wait (p ∷ polls) = some p

-- SendMessage. `posted` tells whether ibv_post_send succeeds. `none` is a loop that does not end with the
-- results given.
unfoldable pub send_message : Messenger → List ℕ → Bool → List Poll → Option (Status × Messenger)
send_message m msg posted polls =
    let next = if ltb send_cap (m.send_next + length msg) then 0 else m.send_next in
    let copied = record m {
      send_buffer = copy next msg m.send_buffer;
      send_next = next;
      send_total = (m.send_total + 1) % 2 ^ 32;
    } in
    if leb recv_max_bytes (length msg)
    then some (resource_exhausted, m)
    else (if posted
        then elim (wait polls) [
          | none ↦ none
          | some success ↦ some (ok, record copied { send_next = next + length msg })
          | some _ ↦ some (internal_error, copied)
        ]
        else some (internal_error, copied))

-- The loop of PrepareRecvBuffer, from an offset on, for so many receive buffers.
unfoldable pub post_from : ℕ → ℕ → List ℕ
post_from curr zero = []
post_from curr (suc n) = curr ∷ post_from (curr + recv_max_bytes) n

-- PrepareRecvBuffer, where each call to post a buffer succeeds. `none` is the failed ROME_ASSERT.
unfoldable pub prepare_recv_buffer : Messenger → Option Messenger
prepare_recv_buffer m =
    if m.recv_total % (recv_cap / recv_max_bytes) == 0
    then some
        (record m { posted = m.posted ++ post_from 0 (recv_cap / recv_max_bytes); recv_next = 0 })
    else none

-- What a receive completion is: none with EAGAIN or another failure, a flushed work request, another
-- status, or so many bytes received.
pub data Completion : Type 0 where
  again call_failed flushed other_status : Completion
  received : ℕ → Completion

-- The bytes of a message that was received.
unfoldable pub read_bytes : (ℕ → ℕ) → ℕ → ℕ → List ℕ
read_bytes buffer at zero = []
read_bytes buffer at (suc n) = buffer at ∷ read_bytes buffer (at + 1) n

abbrev pub rest_of : List ℕ → List ℕ
rest_of [] = []
rest_of (x ∷ xs) = xs

-- TryDeliverMessage. A completion uses up the first posted buffer, whatever its status is.
unfoldable pub try_deliver_message :
    Messenger → Completion → Option (Status × Option (List ℕ) × Messenger)
try_deliver_message m again = some (unavailable, none, m)
try_deliver_message m call_failed = some (internal_error, none, m)
try_deliver_message m flushed = some (aborted, none, record m { posted = rest_of m.posted })
try_deliver_message m other_status =
    some (internal_error, none, record m { posted = rest_of m.posted })
try_deliver_message m (received n) =
    let message = read_bytes m.recv_buffer m.recv_next n in
    let moved = record m {
      recv_total = (m.recv_total + 1) % 2 ^ 32;
      recv_next = m.recv_next + recv_max_bytes;
      posted = rest_of m.posted;
    } in
    if ltb (recv_cap - recv_max_bytes) moved.recv_next
    then elim (prepare_recv_buffer moved) [ none ↦ none | some m' ↦ some (ok, some message, m') ]
    else some (ok, some message, moved)

-- What ibv_poll_cq gives: a failure with EAGAIN or another one; nothing, with what the work completion
-- holds that has not been set; or a completion.
pub data CqResult : Type 0 where
  cq_again cq_failed : CqResult
  cq_empty cq_completed : Completion → CqResult

-- TryPollMessage. It does not tell nothing from a completion, but where there is none no posted buffer is
-- used up: the receive queue is as long as before.
unfoldable pub try_poll_message :
    Messenger → CqResult → Option (Status × Option (List ℕ) × Messenger)
try_poll_message m cq_again = some (unavailable, none, m)
try_poll_message m cq_failed = some (internal_error, none, m)
try_poll_message m (cq_completed c) = try_deliver_message m c
try_poll_message m (cq_empty c) =
    try_deliver_message (record m { posted = m.recv_next ∷ m.posted }) c
