-- ===== src/Messenger/Tests.antt =====
-- A fresh messenger, and one near the end of its send buffer.
use rabia_sandbox.Base.{ℕ, ◌≤◌, List, Option, none, some, true, false, ◌≡◌, ◌≢◌, ◌⊎◌, refl, arith}
use rabia_sandbox.Status.{Status}
use rabia_sandbox.Messenger.{Messenger, received, post_from, rest_of, try_deliver_message}
use rabia_sandbox.Messenger.Receive.{IsReceiver, has_error, try_deliver_message-IsReceiver}

abbrev busy : Messenger
busy = record {
  send_buffer = λ i. 0;
  send_next = 2047;
  send_total = 9;
  recv_buffer = λ i. i;
  recv_next = 1792;
  recv_total = 15;
  posted = post_from 1792 1;
}

busy-IsReceiver : IsReceiver busy
busy-IsReceiver = record { slot = refl; queue = refl; word = omega arith }

try_deliver_message-IsReceiver_example :
    (s : Status) × (msg : Option (List ℕ)) × (m' : Messenger) × (try_deliver_message busy
        (received 3)
      ≡ some (s, msg, m'))
    × (((has_error (received 3) ≡ false) × IsReceiver m' × (m'.recv_next ≤ 1792))
        ⊎ ((has_error (received 3) ≡ true)
            × (s ≢ Status.ok)
            × (msg ≡ none)
            × (m' ≡ record busy { posted = rest_of busy.posted })
            × (¬ IsReceiver m')))
try_deliver_message-IsReceiver_example =
    try_deliver_message-IsReceiver busy (received 3) busy-IsReceiver
