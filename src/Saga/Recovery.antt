-- ===== src/Saga/Recovery.antt =====
-- `UndoRegistry` and `SagaLedger::recover` of ledger/saga.rs: a ledger rebuilt from the records that
-- the store has kept.
pub mod Faithful
use agent_tx_protocol.Prelude.{
  ℕ, zero, suc, ◌+◌, ◌%◌, ◌≤◌, ◌<◌, ◌≡◌, refl, sym, ap, ◌∙◌, ◌⊎◌, inl, inr, ◌↔◌, Bool, true, false,
  ◌&&◌, ◌||◌, Option, none, some, List, [], ◌∷◌, ◌++◌, max, Text, bytes, ltb, leb, if◌then◌else◌,
  length, All, Elem, sort_by, insert_sorted, u64_mod, nat_eq, list_eq, ◌==◌, Map, get, insert,
  arith, Bool-cases,
}
use agent_tx_protocol.Json.{Value}
use agent_tx_protocol.Errors.{AgentTxError, compensation, display, Result, ok, err, Result-cases}
use agent_tx_protocol.World.{UndoAction}
use agent_tx_protocol.Saga.Ledger.{SagaRecord, SagaEntry, SagaLedger, new_ledger, entry_step}
use agent_tx_protocol.Saga.Ledger.Compensation.{Ordered}

abbrev pub UndoFactory : Type 0
UndoFactory = Value → Result UndoAction

abbrev pub UndoRegistry : Type 0
UndoRegistry = Map Text UndoFactory

-- UndoRegistry::register
abbrev pub register : UndoRegistry → Text → UndoFactory → UndoRegistry
register registry kind factory = insert registry kind factory

-- UndoRegistry::rebuild
unfoldable pub rebuild : UndoRegistry → SagaRecord → Result UndoAction
rebuild registry r = elim (get registry r.kind) [
  | none ↦ err (
      compensation r.description
        (bytes "no undo factory registered for kind `" ++ (r.kind ++ bytes "`")))
  | some factory ↦ factory r.payload
]

-- The variables of the loop of `recover`.
pub record Rebuilt : Type 0 where
  pub entries : List SagaEntry
  pub errors : List Text
  pub max_seq : Option ℕ

-- `max_seq.max(Some(seq))`
abbrev pub latest : Option ℕ → ℕ → Option ℕ
latest none seq = some seq
latest (some m) seq = some (max m seq)

-- The `match` on a rebuilt action, in front of what the later records give.
unfoldable pub note : SagaRecord → Result UndoAction → Rebuilt → Rebuilt
note r (ok action) rest = record rest {
  entries = record { record_of = r; action = action } ∷ rest.entries;
  max_seq = latest rest.max_seq r.seq;
}
note r (err e) rest = record rest {
  errors = display e ∷ rest.errors;
  max_seq = latest rest.max_seq r.seq;
}

unfoldable pub rebuild_all : UndoRegistry → List SagaRecord → Rebuilt
unfolding rebuild note
rebuild_all registry [] = record { entries = []; errors = []; max_seq = none }
rebuild_all registry (r ∷ rs) = note r (rebuild registry r) (rebuild_all registry rs)

-- `(step_id, seq)`, in order
abbrev pub not_after : SagaEntry → SagaEntry → Bool
not_after e f =
    ltb (entry_step e) (entry_step f)
    || (entry_step e == entry_step f && leb e.record_of.seq f.record_of.seq)

-- `max_seq.map_or(0, |s| s + 1)`
abbrev pub next_after : Option ℕ → ℕ
next_after none = 0
next_after (some s) = (s + 1) % u64_mod

unfoldable pub restored : Text → ℕ → Rebuilt → SagaLedger
restored tx max_attempts b = record (new_ledger tx max_attempts) {
  entries = sort_by not_after b.entries;
  next_seq = next_after b.max_seq;
}

-- SagaLedger::recover, from what the store's records decode to
unfoldable pub recover :
    Text → UndoRegistry → ℕ → Result (List SagaRecord) → Result (SagaLedger × List Text)
unfolding rebuild_all restored
recover tx registry max_attempts (err e) = err e
recover tx registry max_attempts (ok records) =
    let b = rebuild_all registry records in ok (restored tx max_attempts b, b.errors)

All-insert_sorted :
    (P : SagaEntry → Type 0) (x : SagaEntry) (es : List SagaEntry)
    → P x
    → All P es
    → All P (insert_sorted not_after x es)
unfolding insert_sorted
All-insert_sorted P x [] p h = (p, tt)
All-insert_sorted P x (e ∷ es) p h = elim (Bool-cases (not_after x e)) [
  | inl first ↦ rw first (p, h)
  | inr later ↦ rw later (h.0, All-insert_sorted P x es p h.1)
]

above :
    (x e : SagaEntry) (es : List SagaEntry)
    → entry_step x ≤ entry_step e
    → All (λ f. entry_step e ≤ entry_step f) es
    → All (λ f. entry_step x ≤ entry_step f) es
above x e [] h a = tt
above x e (f ∷ es) h a = (omega (arith, a.0), above x e es h a.1)

insert_sorted-Ordered :
    (x : SagaEntry) (es : List SagaEntry) → Ordered es → Ordered (insert_sorted not_after x es)
unfolding insert_sorted
insert_sorted-Ordered x [] o = (tt, tt)
insert_sorted-Ordered x (e ∷ es) o = elim (Bool-cases (not_after x e)) [
  | inl first ↦
      let le : entry_step x ≤ entry_step e = ground arith in rw first ((le, above x e es le o.0), o)
  | inr later ↦
      let ge : entry_step e ≤ entry_step x = ground arith in
      rw later (
        All-insert_sorted (λ f. entry_step e ≤ entry_step f) x es ge o.0,
        insert_sorted-Ordered x es o.1,
      )
]

pub sort_by-Ordered : (es : List SagaEntry) → Ordered (sort_by not_after es)
unfolding sort_by
sort_by-Ordered [] = tt
sort_by-Ordered (e ∷ es) = insert_sorted-Ordered e _ (sort_by-Ordered es)
