-- ===== src/Manager/Tests.antt =====
-- Machines 1 and 2, without a connection and with one.
use rabia_sandbox.Base.{ℕ, suc, Option, none, some, true, false, ◌≡◌, refl, arith, [], ◌∷◌, inl}
use rabia_sandbox.Status.{Status, ok, internal_error, unavailable}
use rabia_sandbox.Manager.{
  Manager, Connection, Calls, rejected, retry, event, event_established, event_addr_resolved, fresh,
  destroy_ep, connect, on_connect_request, on_disconnect, get_connection,
}
use rabia_sandbox.Manager.Invariant.{IsManager, joined}
use rabia_sandbox.Manager.Requests.{with_peer, on_disconnect_unlocks}
use rabia_sandbox.Manager.Connecting.{Ends, settles, connect-Ends}
use rabia_sandbox.Manager.Locked.{lock_leaks}
use rabia_sandbox.Manager.Handshake.{
  handshake, crossing, backed_off, handshake-joined, crossing-backed_off,
}

abbrev first : Manager
first = record (fresh 1) { accepting = true }

abbrev second : Manager
second = record (fresh 2) { accepting = true }

abbrev joint : Manager
joint = with_peer first 2 31

first-IsManager : IsManager first
first-IsManager = record { own = λ p c e. cc; single = λ p q c d e f same. cc }

joint-IsManager : IsManager joint
joint-IsManager = record { own = λ p c e. ground arith; single = λ p q c d e f same. ground arith }

abbrev calls : Calls
calls = record {
  resolved = true;
  created = true;
  endpoint = 30;
  connecting = true;
  configured = true;
  disconnected = true;
  looped = true;
  events = retry ∷ event event_addr_resolved true ∷ event event_established true ∷ [];
}

on_disconnect_unlocks_example :
    (m' : Manager) × (on_disconnect 1 (record joint { mu = some 1 }) 2 31 ≡ some m')
    × (m'.mu ≡ none)
    × (m'.established 2 ≡ none)
on_disconnect_unlocks_example =
    on_disconnect_unlocks 0 (record joint { mu = some 1 }) 2 31 (joined first 2 31) refl refl refl

settled : settles calls.events ≡ true
unfolding settles
settled = refl

connect-Ends_example :
    (s : Status) × (c : Option Connection) × (m' : Manager) × (connect 1 first 2 calls
      ≡ some (s, c, m'))
    × Ends first 2 s c m'
connect-Ends_example =
    connect-Ends 0 first 2 calls first-IsManager (λ p c e. cc) refl settled (inl refl)

lock_leaks_example :
    (m' : Manager) × (connect 1 first 2 (record calls { resolved = false })
      ≡ some (internal_error, none, m'))
    × ((fuel' p : ℕ) (b : Calls) → connect (suc fuel') m' p b ≡ some (unavailable, none, m'))
    × ((fuel' i : ℕ)
        → on_connect_request (suc fuel') m' 2 i true ≡ some (rejected, destroy_ep m' i))
    × ((fuel' p : ℕ) → get_connection fuel' m' p ≡ none)
lock_leaks_example =
    lock_leaks 0 first 2 2 (record calls { resolved = false }) refl refl refl refl
      (λ e. omega arith)

handshake-joined_example :
    (handshake 1 first second 31 32
      ≡ some ((ok, some (joined first 2 31), with_peer first 2 31), with_peer second 1 32))
    × ((a : Calls)
        → connect 1 (with_peer first 2 31) 2 a
          ≡ some (ok, some (joined first 2 31), with_peer first 2 31))
    × ((a : Calls)
        → connect 1 (with_peer second 1 32) 1 a
          ≡ some (ok, some (joined second 1 32), with_peer second 1 32))
handshake-joined_example =
    handshake-joined 0 first second 31 32 (λ e. omega arith) refl refl refl refl refl refl

crossing-backed_off_example :
    crossing 1 first second 31 32 33 34
    ≡ some
        ((unavailable, none, backed_off first 33 31), (unavailable, none, backed_off second 34 32))
crossing-backed_off_example =
    crossing-backed_off 0 first second 31 32 33 34 (λ e. omega arith) refl refl refl refl refl refl
