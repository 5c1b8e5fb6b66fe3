-- ===== src/Channel/Tests.antt =====
-- A message of two bytes, between two messengers.
use rabia_sandbox.Base.{ℕ, List, [], ◌∷◌, some, true, ◌≡◌, refl, arith}
use rabia_sandbox.Status.{ok}
use rabia_sandbox.Messenger.{Messenger, retry, success, wait, post_from, copy, read_bytes}
use rabia_sandbox.Messenger.Receive.{IsReceiver}
use rabia_sandbox.Channel.{Proto, send, deliver}
use rabia_sandbox.Channel.Delivery.{Carried, after_tries, slot_of, sent, send-deliver}

instance bytes-Proto : Proto (List ℕ)
bytes-Proto = record { serialize = λ b. b; parse = λ b. b }

abbrev idle : Messenger
idle = record {
  send_buffer = λ i. 0;
  send_next = 0;
  send_total = 0;
  recv_buffer = λ i. 0;
  recv_next = 0;
  recv_total = 0;
  posted = post_from 0 8;
}

idle-IsReceiver : IsReceiver idle
idle-IsReceiver = record { slot = refl; queue = refl; word = omega arith }

abbrev word : List ℕ
word = 5 ∷ 6 ∷ []

-- The receiver with the two bytes in its first buffer.
abbrev reached : Messenger
reached = record idle { recv_buffer = copy 0 word idle.recv_buffer }

carried : Carried (sent idle word) (slot_of idle word) 2 idle reached
unfolding copy read_bytes
carried = record { bytes = refl; same_next = refl; count = refl; queue = refl }

send-deliver_example :
    (send idle word true (retry ∷ success ∷ []) ≡ some (ok, sent idle word))
    × (r' : Messenger) × (deliver reached (after_tries 3 2) ≡ some (ok, some word, r'))
    × IsReceiver r'
unfolding wait bytes-Proto
send-deliver_example =
    send-deliver word idle idle reached (retry ∷ success ∷ []) 3 (λ q. refl) (omega arith)
      idle-IsReceiver refl carried
