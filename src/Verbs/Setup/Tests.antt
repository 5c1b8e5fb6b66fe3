-- ===== src/Verbs/Setup/Tests.antt =====
-- A machine with two peers, the second of which rejects the first attempt.
use rabia_sandbox.Base.{
  ℕ, ◌+◌, List, [], ◌∷◌, none, some, true, if◌then◌else◌, ◌==◌, ◌≡◌, refl, arith,
}
use rabia_sandbox.Status.{ok}
use rabia_sandbox.Manager.{Calls, Polled, event, event_established, event_rejected, fresh}
use rabia_sandbox.Messenger.{
  Messenger, success, received, wait, post_from, try_deliver_message, read_bytes,
}
use rabia_sandbox.Channel.{Proto, deliver, try_deliver}
use rabia_sandbox.Pool.Regions.{RdmaMemory, no_path, find_region, default_id}
use rabia_sandbox.Pool.Resource.{Resource}
use rabia_sandbox.Verbs.{at}
use rabia_sandbox.Verbs.Setup.{RemoteObject, SetupCalls, Setup, setup}
use rabia_sandbox.Verbs.Setup.Joined.{accepted, turned, Every, none_left, also, HasPeer}
use rabia_sandbox.Verbs.Setup.Exchange.{info, Delivers, Sends, setup-Every}

instance abbrev key_proto : Proto RemoteObject
key_proto = record {
  serialize = λ o. o.rkey ∷ [];
  parse =
      λ l. elim l [ [] ↦ record { rkey = 0; raddr = 0 } | k ∷ ks ↦ record { rkey = k; raddr = 0 } ];
}

abbrev quiet : Messenger
quiet = record {
  send_buffer = λ i. 0;
  send_next = 0;
  send_total = 0;
  recv_buffer = λ i. 0;
  recv_next = 0;
  recv_total = 0;
  posted = post_from 0 8;
}

abbrev attempt : ℕ → List Polled → Calls
attempt i events = record {
  resolved = true;
  created = true;
  endpoint = i;
  connecting = true;
  configured = true;
  disconnected = true;
  looped = true;
  events = events;
}

abbrev well : SetupCalls
well = record {
  created = true;
  found = no_path;
  allocation = some 64;
  registered = true;
  contents = λ i. 0;
  rkey = 4;
  lkey = 5;
  attempts = λ p.
      if p == 3
      then attempt 30 (event event_rejected true ∷ [])
        ∷ attempt 31 (event event_established true ∷ [])
        ∷ []
      else attempt 20 (event event_established true ∷ []) ∷ [];
  posted = λ p. true;
  polls = λ p. success ∷ [];
  arrive = λ p x. record quiet { recv_buffer = λ i. p + 7 };
  completions = λ p. received 1 ∷ [];
}

abbrev theirs : ℕ → RemoteObject
theirs p = record { rkey = p + 7; raddr = 0 }

well-Sends : Sends well theirs
unfolding wait
well-Sends p = (refl, refl)

well-Delivers : Delivers well theirs
unfolding deliver try_deliver try_deliver_message read_bytes
well-Delivers p x = (_, refl)

abbrev alone : Setup
alone = record { manager = fresh 1; channels = λ i. quiet; resource = none; conn_info = [] }

setup-Every_example :
    (s' : Setup) × (m : RdmaMemory) × (r : Resource) × (setup 1 alone 4088 well (2 ∷ 3 ∷ [])
      ≡ some (ok, s'))
    × (s'.resource ≡ some (m, r))
    × (find_region default_id m.memory_regions ≡ some (record { base = 64; length = 4096 }))
    × Every (HasPeer s'.manager) (2 ∷ 3 ∷ [])
    × Every (λ p. at p s'.conn_info ≡ some (info well theirs p)) (2 ∷ 3 ∷ [])
    × (s'.manager.mu ≡ none)
setup-Every_example =
    setup-Every well theirs 0 alone 4088 64 (2 ∷ 3 ∷ []) refl refl refl (omega arith) refl refl refl
      (also
        (
          (λ e. omega arith),
          accepted (record {
            resolved = refl;
            created = refl;
            connecting = refl;
            configured = refl;
            rest = [];
            events = refl;
          }),
        )
        (also
          (
            (λ e. omega arith),
            turned
                (record {
                  resolved = refl;
                  created = refl;
                  connecting = refl;
                  rest = [];
                  events = refl;
                })
                (accepted (record {
                  resolved = refl;
                  created = refl;
                  connecting = refl;
                  configured = refl;
                  rest = [];
                  events = refl;
                })),
          )
          none_left))
      (omega arith) well-Sends well-Delivers
