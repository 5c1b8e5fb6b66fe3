-- ===== src/Rpc.antt =====
-- oldAPIHelpMark/iht/rpc.h: `TwoSidedIHT`, a table of several machines, each with an iht_carumap for its
-- part of the keys. `tables` has the table of each machine. One operation runs at a time: the request is
-- handed to the loop of the machine that owns the key, and its response to the client. `none` is a failed
-- ROME_ASSERT or undefined arithmetic, or a table whose method does not return.
pub mod Owner
pub mod Methods
pub mod Map
mod Tests
use rabia_sandbox.Base.{
  ℕ, ◌+◌, ◌-◌, ◌*◌, ◌/◌, ◌^◌, Option, none, some, Bool, true, false, ltb, leb, ◌==◌, if◌then◌else◌,
  update, ◌>>=◌,
}
use rabia_sandbox.Iht.Key.{Key}
use rabia_sandbox.Iht.Local.{Node, get, insert, remove}

-- The size of an EList and of the first PList of `internal_data_`.
abbrev pub elist_size : ℕ
elist_size = 8

abbrev pub plist_size : ℕ
plist_size = 64

-- What every machine knows of the keys: the number of machines, and the range.
pub record Keyspace : Type 0 where
  pub count : ℕ
  pub keyspace_lb : ℕ
  pub keyspace_len : ℕ

-- to_id, for keys that are not negative. The product has to be an `int`.
unfoldable pub to_id : Keyspace → ℕ → Option ℕ
to_id s key =
    let offset = key - s.keyspace_lb in
    let id = s.count * offset / s.keyspace_len in
    if leb s.keyspace_lb key
    then (if leb offset s.keyspace_len
        then (if s.keyspace_len == 0
            then none
            else (if ltb (s.count * offset) (2 ^ 31)
                then some (if id == s.count then id - 1 else id)
                else none))
        else none)
    else none

-- The op codes, and `unset` for a response without one.
pub data Op : Type 0 where
  get_req ins_req rmv_req get_res ins_res rmv_res err unset : Op

-- IHTOPProto
pub record Proto : Type 0 where
  pub op_type : Op
  pub key : ℕ
  pub value : ℕ

-- A response to `p`.
abbrev pub respond : Proto → Op → ℕ → Proto
respond p op v = record { op_type = op; key = p.key; value = v }

module _ ⦃key : Key ℕ⦄ where
  -- The loop of a machine, on one request: the response, and the table afterwards. `answer` is what the
  -- variable of that name holds before it is set.
  unfoldable pub handle : ℕ → ℕ → Proto → Node ℕ ℕ → Option (Proto × Node ℕ ℕ)
  handle fuel answer p t = elim p.op_type [
    | get_req ↦ get t p.key 1 plist_size >>= λ r.
        some (elim r.1 [ some v ↦ respond p get_res v | none ↦ respond p err answer ], r.0)
    | ins_req ↦ insert fuel elist_size t p.key p.value 1 plist_size >>= λ r.
        some (elim r.1 [ some old ↦ respond p err old | none ↦ respond p ins_res p.value ], r.0)
    | rmv_req ↦ remove t p.key 1 plist_size >>= λ r.
        some (elim r.1 [ some v ↦ respond p rmv_res v | none ↦ respond p err answer ], r.0)
    | _ ↦ some (respond p unset p.value, t)
  ]

  -- What the client makes of the response to each request.
  unfoldable pub get_result : Proto → Option (Option ℕ)
  get_result p = elim p.op_type [ err ↦ some none | get_res ↦ some (some p.value) | _ ↦ none ]

  unfoldable pub insert_result : Proto → Option (Option ℕ)
  insert_result p = elim p.op_type [ err ↦ some (some p.value) | ins_res ↦ some none | _ ↦ none ]

  unfoldable pub remove_result : Proto → Option (Option ℕ)
  remove_result p = elim p.op_type [ err ↦ some none | rmv_res ↦ some (some p.value) | _ ↦ none ]

  -- A request of the client at `target`, and the result that it reads off the response.
  unfoldable pub ask :
      ℕ
      → ℕ
      → Proto
      → (Proto → Option (Option ℕ))
      → ℕ
      → (ℕ → Node ℕ ℕ)
      → Option ((ℕ → Node ℕ ℕ) × Option ℕ)
  ask fuel answer p result target tables = handle fuel answer p (tables target) >>= λ s.
      result s.0 >>= λ r. some (update tables target s.1, r)

  -- The table of this machine, without a message.
  unfoldable pub own :
      ℕ → Option (Node ℕ ℕ × Option ℕ) → (ℕ → Node ℕ ℕ) → Option ((ℕ → Node ℕ ℕ) × Option ℕ)
  own self run tables = run >>= λ s. some (update tables self s.0, s.1)

  unfoldable pub rpc_get :
      Keyspace → ℕ → ℕ → ℕ → ℕ → (ℕ → Node ℕ ℕ) → Option ((ℕ → Node ℕ ℕ) × Option ℕ)
  rpc_get s self fuel answer k tables = to_id s k >>= λ target.
      if target == self
      then own self (get (tables self) k 1 plist_size) tables
      else ask fuel answer (record { op_type = get_req; key = k; value = 0 }) get_result target
          tables

  unfoldable pub rpc_insert :
      Keyspace → ℕ → ℕ → ℕ → ℕ → ℕ → (ℕ → Node ℕ ℕ) → Option ((ℕ → Node ℕ ℕ) × Option ℕ)
  rpc_insert s self fuel answer k v tables = to_id s k >>= λ target.
      if target == self
      then own self (insert fuel elist_size (tables self) k v 1 plist_size) tables
      else ask fuel answer (record { op_type = ins_req; key = k; value = v }) insert_result target
          tables

  unfoldable pub rpc_remove :
      Keyspace → ℕ → ℕ → ℕ → ℕ → (ℕ → Node ℕ ℕ) → Option ((ℕ → Node ℕ ℕ) × Option ℕ)
  rpc_remove s self fuel answer k tables = to_id s k >>= λ target.
      if target == self
      then own self (remove (tables self) k 1 plist_size) tables
      else ask fuel answer (record { op_type = rmv_req; key = k; value = 0 }) remove_result target
          tables
