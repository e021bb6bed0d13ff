-- ===== src/Storage/Restore/Isolated.antt =====
-- Isolation: what the other transactions do is not seen in a transaction's part of the store.
use agent_tx_protocol.Prelude.{◌≡◌, ◌≢◌, List, [], ◌∷◌, Text, All, list_eq, nat_eq}
use agent_tx_protocol.Errors.{ok}
use agent_tx_protocol.Storage.Layout.Prefixes.{validate_tx_id-HasNoSlash}
use agent_tx_protocol.Storage.Values.{validate_tx_id}
use agent_tx_protocol.Storage.Database.{Database, IsDatabase}
use agent_tx_protocol.Storage.Rocks.{SnapshotMeta, Codec, RocksStore}
use agent_tx_protocol.Storage.Restore.Gives.{Same, Same-refl, Same-trans}
use agent_tx_protocol.Storage.Restore.Steps.{StoreOp, IsOutside, after, run, outside-Same}

-- An operation of another valid transaction, any but a rewind.
abbrev pub IsForeign : Text → Text × StoreOp → Type 0
IsForeign tx o = (validate_tx_id o.0 ≡ ok tt) × (o.0 ≢ tx) × IsOutside o.1

-- Whatever sequence of operations the other transactions run, writes, outputs, snapshots, commits
-- and discards, whether they succeed or fail: the values, the outputs, the journal, the snapshots
-- and the next sequence number of a transaction stay what they were. All identifiers are valid, the
-- others' differ from the transaction's, and their rewinds are left out.
pub run-Isolated :
    {Db : Type 0} (d : Database Db) (l : IsDatabase d) (metas : Codec SnapshotMeta) (tx : Text)
    (ops : List (Text × StoreOp)) (s : RocksStore Db)
    → validate_tx_id tx ≡ ok tt
    → All (IsForeign tx) ops
    → Same d l tx s (run d metas ops s)
unfolding run
run-Isolated d l metas tx [] s valid foreign = Same-refl d l tx s
run-Isolated d l metas tx ((o, op) ∷ ops) s valid ((its, differ, fit), rest) =
    Same-trans d l tx
      (outside-Same d l metas tx (validate_tx_id-HasNoSlash tx valid) o s
        (validate_tx_id-HasNoSlash o its) differ op fit)
      (run-Isolated d l metas tx ops (after d metas o op s) valid rest)
