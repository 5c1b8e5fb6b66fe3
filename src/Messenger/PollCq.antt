-- ===== src/Messenger/PollCq.antt =====
-- TryPollMessage against TryDeliverMessage.
use rabia_sandbox.Base.{
  ℕ, ◌+◌, ◌-◌, ◌%◌, ◌^◌, ◌<◌, List, Option, some, none, false, length, ltb, ◌≡◌, refl, ap, sym,
  arith, ◌∙◌,
}
use rabia_sandbox.Status.{Status}
use rabia_sandbox.Messenger.{
  Messenger, Completion, again, received, call_failed, CqResult, cq_again, cq_failed, cq_empty,
  cq_completed, read_bytes, try_deliver_message, try_poll_message,
}
use rabia_sandbox.Messenger.Receive.{IsReceiver, length-post_from}

-- What rdma_get_recv_comp gives where ibv_poll_cq gives this, and there is something in the queue.
abbrev pub as_completion : CqResult → Option Completion
as_completion cq_again = some again
as_completion cq_failed = some call_failed
as_completion (cq_empty c) = none
as_completion (cq_completed c) = some c

-- On a failure and on a completion TryPollMessage does what TryDeliverMessage does.
pub try_poll_message-try_deliver_message :
    (m : Messenger) (r : CqResult) (c : Completion)
    → as_completion r ≡ some c
    → try_poll_message m r ≡ try_deliver_message m c
unfolding try_poll_message try_deliver_message
try_poll_message-try_deliver_message m cq_again c e = cc
try_poll_message-try_deliver_message m cq_failed c e = cc
try_poll_message-try_deliver_message m (cq_empty d) c e = cc
try_poll_message-try_deliver_message m (cq_completed d) c e = cc

-- Where the queue is empty, and the work completion that has not been set happens to hold a success,
-- TryPollMessage returns Ok with whatever the next receive buffer holds, and goes on to the buffer behind
-- it: the messenger has then lost count of the posted buffers.
pub try_poll_message_stale :
    (m : Messenger) (n : ℕ)
    → IsReceiver m
    → m.recv_next < 1792
    → (m' : Messenger) × (try_poll_message m (cq_empty (received n))
        ≡ some (Status.ok, some (read_bytes m.recv_buffer m.recv_next n), m'))
      × (m'.posted ≡ m.posted)
      × (¬ IsReceiver m')
unfolding try_poll_message try_deliver_message
try_poll_message_stale m n good room =
    let short : ltb 1792 (m.recv_next + 256) ≡ false = ground arith in
    let slot = good.slot in
    (
      record m { recv_next = m.recv_next + 256; recv_total = (m.recv_total + 1) % 2 ^ 32 },
      rw short refl,
      refl,
      λ still.
          let count : 8 - m.recv_total % 8 ≡ 8 - (m.recv_total + 1) % 2 ^ 32 % 8 =
            sym (length-post_from m.recv_next (8 - m.recv_total % 8))
            ∙ ap (λ (q : List ℕ). length q) (sym good.queue ∙ still.queue)
            ∙ length-post_from (m.recv_next + 256) (8 - (m.recv_total + 1) % 2 ^ 32 % 8) in
          omega arith,
    )
