-- ===== src/Storage/Database.antt =====
-- The part of RocksDB that storage/rocks.rs uses, which is a library: a database is a parameter, and
-- `IsDatabase` states what its documentation promises. Each column family is an ordered map from
-- bytes to bytes; a batch is written as a whole or not at all; an iterator confined to bounds gives
-- the entries within them in the order of the keys, from the start or from the end, and stops at
-- its first error. Every call may fail; a column family that is missing is such a failure.
pub mod Ordered
pub mod Batches
pub mod Removals
use mathlib.Core.List.{reverse}
use agent_tx_protocol.Prelude.{
  ℕ, ◌≡◌, Bool, true, false, not, ◌&&◌, ◌==◌, list_eq, nat_eq, Option, none, some, List, [], ◌∷◌,
  ◌++◌, Map, get, remove, retain, All, if◌then◌else◌,
}
use agent_tx_protocol.Errors.{AgentTxError, Result, ok, err}
use agent_tx_protocol.Storage.Keys.{key_lt}

abbrev pub Bytes : Type 0
Bytes = List ℕ

abbrev pub Entry : Type 0
Entry = Bytes × Bytes

abbrev pub Entries : Type 0
Entries = Map Bytes Bytes

-- CF_DEFAULT, CF_SNAPSHOTS, CF_SAGA_LOGS
pub data ColumnFamily : Type 0 where
  default snapshots saga_logs : ColumnFamily

-- The operations of a `WriteBatch`. A single `put_cf` or `delete_cf` is a batch of one.
pub data BatchOp : Type 0 where
  put_cf : ColumnFamily → Bytes → Bytes → BatchOp
  delete_cf : ColumnFamily → Bytes → BatchOp

-- IteratorMode
pub data Mode : Type 0 where
  from_start from_end : Mode

-- What an iterator gives before it ends or fails.
pub record Scan : Type 0 where
  pub items : Entries
  pub failure : Option AgentTxError

pub record Database (Db : Type 0) : Type 0 where
  pub get_cf : Db → ColumnFamily → Bytes → Result (Option Bytes)
  pub write : Db → List BatchOp → Result Db
  -- the bounds, the lower one included and the upper one not
  pub iterate : Db → ColumnFamily → Bytes → Bytes → Mode → Scan
  pub latest_sequence_number : Db → ℕ

abbrev pub same_family : ColumnFamily → ColumnFamily → Bool
same_family default default = true
same_family snapshots snapshots = true
same_family saga_logs saga_logs = true
same_family _ _ = false

-- The ideal contents of a column family: an association list in the order of the keys.
unfoldable pub put_entry : Entries → Bytes → Bytes → Entries
put_entry [] k v = (k, v) ∷ []
put_entry ((j, w) ∷ m) k v =
    if j == k
    then (k, v) ∷ m
    else if key_lt k j
    then (k, v) ∷ (j, w) ∷ m
    else (j, w) ∷ put_entry m k v

unfoldable pub apply_op : ColumnFamily → BatchOp → Entries → Entries
unfolding put_entry
apply_op c (put_cf d k v) m = if same_family d c then put_entry m k v else m
apply_op c (delete_cf d k) m = if same_family d c then remove m k else m

-- A batch is applied in its order.
unfoldable pub apply_batch : ColumnFamily → List BatchOp → Entries → Entries
apply_batch c [] m = m
apply_batch c (op ∷ ops) m = apply_batch c ops (apply_op c op m)

abbrev pub within : Bytes → Bytes → Entry → Bool
within lower upper e = not (key_lt e.0 lower) && key_lt e.0 upper

abbrev pub in_mode : Mode → Entries → Entries
in_mode from_start m = m
in_mode from_end m = reverse m

abbrev pub IsOrdered : Entries → Type 0
IsOrdered [] = Unit
IsOrdered (e ∷ m) = All (λ f. key_lt e.0 f.0 ≡ true) m × IsOrdered m

pub record IsDatabase {Db : Type 0} (d : Database Db) : Type 0 where
  pub entries : Db → ColumnFamily → Entries
  pub entries-IsOrdered : (db : Db) (c : ColumnFamily) → IsOrdered (entries db c)
  pub get_cf_lem :
      (db : Db) (c : ColumnFamily) (k : Bytes) (v : Option Bytes)
      → d.get_cf db c k ≡ ok v
      → v ≡ get (entries db c) k
  pub write_lem :
      (db : Db) (ops : List BatchOp) (db' : Db)
      → d.write db ops ≡ ok db'
      → (c : ColumnFamily) → entries db' c ≡ apply_batch c ops (entries db c)
  pub iterate_lem :
      (db : Db) (c : ColumnFamily) (lower upper : Bytes) (mode : Mode)
      → (rest : Entries) × ((d.iterate db c lower upper mode).items ++ rest
          ≡ in_mode mode (retain (within lower upper) (entries db c)))
        × ((d.iterate db c lower upper mode).failure ≡ none → rest ≡ [])
