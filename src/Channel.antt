-- ===== src/Channel.antt =====
-- Connection::RdmaChannel of oldAPIHelpMark/rdma/connection_manager.h: messages of a protocol buffer type
-- over a TwoSidedRdmaMessenger. The library that turns them into bytes is an argument.
pub mod Delivery
mod Tests
use rabia_sandbox.Base.{
  ℕ, List, [], ◌∷◌, Option, none, some, Bool, true, false, ◌>>=◌, if◌then◌else◌,
}
use rabia_sandbox.Status.{Status, ok, unavailable}
use rabia_sandbox.Messenger.{
  Messenger, Completion, Poll, CqResult, send_message, try_deliver_message, try_poll_message,
}

-- SerializeToArray and ParseFromArray. A message that does not parse leaves some value; the code does not
-- look at the result.
pub record Proto (P : Type 0) : Type 0 where
  pub serialize : P → List ℕ
  pub parse : List ℕ → P

abbrev pub is_unavailable : Status → Bool
is_unavailable unavailable = true
is_unavailable _ = false

module _ {P : Type 0} ⦃proto : Proto P⦄ where
  abbrev pub parsed : Option (List ℕ) → Option P
  parsed none = none
  parsed (some bytes) = some (proto.parse bytes)

  -- Send
  unfoldable pub send : Messenger → P → Bool → List Poll → Option (Status × Messenger)
  send m p posted polls = send_message m (proto.serialize p) posted polls

  -- TryDeliver
  unfoldable pub try_deliver : Messenger → Completion → Option (Status × Option P × Messenger)
  try_deliver m c = try_deliver_message m c >>= λ r. some (r.0, parsed r.1, r.2)

  -- Deliver, with the completions that come, one for each try.
  unfoldable pub deliver : Messenger → List Completion → Option (Status × Option P × Messenger)
  deliver m [] = none
  deliver m (c ∷ cs) = try_deliver m c >>= λ r.
      let again = deliver r.2 cs in if is_unavailable r.0 then again else some r

  -- TryReceive
  unfoldable pub try_receive : Messenger → CqResult → Option (Option P × Messenger)
  try_receive m r = try_poll_message m r >>= λ s. some (parsed s.1, s.2)
