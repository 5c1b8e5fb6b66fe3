-- ===== src/Channel/Delivery.antt =====
-- A message from one machine to another.
use rabia_sandbox.Base.{
  ℕ, zero, suc, ◌+◌, ◌-◌, ◌*◌, ◌%◌, ◌^◌, ◌<◌, List, [], ◌∷◌, Option, none, some, Bool, true, false,
  length, ltb, leb, ◌≡◌, refl, ap, sym, arith, ◌∙◌, if◌then◌else◌,
}
use rabia_sandbox.Status.{Status, ok}
use rabia_sandbox.Messenger.{
  Messenger, Completion, again, received, Poll, success, wait, copy, send_message, send_cap,
  read_bytes, try_deliver_message, prepare_recv_buffer, recv_max_bytes, recv_cap, rest_of,
}
use rabia_sandbox.Messenger.Send.{read_copy}
use rabia_sandbox.Messenger.Receive.{IsReceiver, received-IsReceiver}
use rabia_sandbox.Channel.{Proto, send, try_deliver, deliver}

-- The receives that find nothing before the one that finds the message.
abbrev pub after_tries : ℕ → ℕ → List Completion
after_tries zero n = received n ∷ []
after_tries (suc tries) n = again ∷ after_tries tries n

-- The card has written the bytes at an offset of the sender's buffer to the first posted receive buffer,
-- which starts at `recv_next`, and has changed nothing else of the receiver.
pub record Carried (s : Messenger) (from n : ℕ) (r r' : Messenger) : Type 0 where
  pub bytes : read_bytes r'.recv_buffer r.recv_next n ≡ read_bytes s.send_buffer from n
  pub same_next : r'.recv_next ≡ r.recv_next
  pub count : r'.recv_total ≡ r.recv_total
  pub queue : r'.posted ≡ r.posted

-- The end of a receive, by whether the last buffer is used and the buffers can be posted again.
abbrev shape :
    Bool
    → Option Messenger
    → Option (List ℕ)
    → Messenger
    → Option (Status × Option (List ℕ) × Messenger)
shape true none x moved = none
shape true (some n) x moved = some (ok, x, n)
shape false o x moved = some (ok, x, moved)

received_shape :
    (b : Bool) (o : Option Messenger) (x : Option (List ℕ)) (moved m' : Messenger) (s : Status)
    (msg : Option (List ℕ))
    → shape b o x moved ≡ some (s, msg, m')
    → shape b o x moved ≡ some (ok, x, m')
received_shape true none x moved m' s msg run = cc
received_shape true (some n) x moved m' s msg run = cc
received_shape false o x moved m' s msg run = cc

shaped :
    (m : Messenger) (n : ℕ)
    → let moved = record m {
      recv_total = (m.recv_total + 1) % 2 ^ 32;
      recv_next = m.recv_next + recv_max_bytes;
      posted = rest_of m.posted;
    } in
      try_deliver_message m (received n)
      ≡ shape
          (ltb (recv_cap - recv_max_bytes) moved.recv_next)
          (prepare_recv_buffer moved)
          (some (read_bytes m.recv_buffer m.recv_next n))
          moved
unfolding try_deliver_message
shaped m n = ground arith

-- A receive that gives anything gives the bytes of the receive buffer.
received_message :
    (m m' : Messenger) (n : ℕ) (s : Status) (msg : Option (List ℕ))
    → try_deliver_message m (received n) ≡ some (s, msg, m')
    → try_deliver_message m (received n)
      ≡ some (ok, some (read_bytes m.recv_buffer m.recv_next n), m')
received_message m m' n s msg run =
    shaped m n ∙ received_shape _ _ _ _ m' s msg (sym (shaped m n) ∙ run)

-- Where SendMessage puts a message, and the sender afterwards.
abbrev pub slot_of : Messenger → List ℕ → ℕ
slot_of m msg = if ltb send_cap (m.send_next + length msg) then 0 else m.send_next

abbrev pub sent : Messenger → List ℕ → Messenger
sent m msg = record m {
  send_buffer = copy (slot_of m msg) msg m.send_buffer;
  send_next = slot_of m msg + length msg;
  send_total = (m.send_total + 1) % 2 ^ 32;
}

module _ {P : Type 0} ⦃proto : Proto P⦄ where
  pub sends :
      (m : Messenger) (p : P) (polls : List Poll)
      → length (proto.serialize p) < 256
      → wait polls ≡ some success
      → send m p true polls ≡ some (ok, sent m (proto.serialize p))
  unfolding send send_message
  sends m p polls short done =
      let small : leb 256 (length (proto.serialize p)) ≡ false = ground arith in
      rw (small, done) refl

  retried :
      (m : Messenger) (cs : List Completion) → deliver {P = P} m (again ∷ cs) ≡ deliver {P = P} m cs
  unfolding deliver try_deliver try_deliver_message
  retried m cs = refl

  delivers :
      (m m' : Messenger) (n tries : ℕ)
      → try_deliver_message m (received n)
        ≡ some (ok, some (read_bytes m.recv_buffer m.recv_next n), m')
      → deliver m (after_tries tries n)
        ≡ some (ok, some (proto.parse (read_bytes m.recv_buffer m.recv_next n)), m')
  unfolding deliver try_deliver
  delivers m m' n zero run = rw run refl
  delivers m m' n (suc tries) run = retried m (after_tries tries n) ∙ delivers m m' n tries run

  -- For a message of less than 256 bytes and a receiver whose buffers are posted, where the calls of
  -- ibverbs succeed and the library parses what it serializes: Send returns Ok, and once the card has
  -- carried the bytes that it put into the send buffer over, Deliver returns Ok and the message that was
  -- sent, after however many tries that find nothing, and the receiver is ready again.
  pub send-deliver :
      (p : P) (s r r₁ : Messenger) (polls : List Poll) (tries : ℕ)
      → ((q : P) → proto.parse (proto.serialize q) ≡ q)
      → length (proto.serialize p) < 256
      → IsReceiver r
      → wait polls ≡ some success
      → let msg = proto.serialize p in
        Carried (sent s msg) (slot_of s msg) (length msg) r r₁
        → (send s p true polls ≡ some (ok, sent s msg))
          × (r' : Messenger) × (deliver r₁ (after_tries tries (length msg)) ≡ some (ok, some p, r'))
          × IsReceiver r'
  send-deliver p s r r₁ polls tries parses short good done carried =
      let msg = proto.serialize p in
      let n = length msg in
      let good₁ : IsReceiver r₁ = record {
        slot = carried.same_next ∙ good.slot ∙ ap (λ (t : ℕ). t % 8 * 256) (sym carried.count);
        queue =
            (let next = carried.same_next in
              let count = carried.count in let posted = carried.queue ∙ good.queue in cc);
        word = omega (arith, good.word, carried.count);
      } in
      let (st, x, r', got, good', low) = received-IsReceiver r₁ n good₁ in
      (
        sends s p polls short done,
        r',
        delivers r₁ r' n tries (received_message r₁ r' n st x got)
            ∙ ap (λ (q : P). some (ok, some q, r'))
                (ap proto.parse (
                    ap (λ (a : ℕ). read_bytes r₁.recv_buffer a n) carried.same_next
                    ∙ carried.bytes
                    ∙ read_copy (slot_of s msg) msg s.send_buffer)
                  ∙ parses p),
        good',
      )
