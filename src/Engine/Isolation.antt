-- ===== src/Engine/Isolation.antt =====
-- Operations on one transaction and the table's entries of the others.
use mathlib.Core.Bool.{false≢true}
use agent_tx_protocol.Prelude.{
  ◌≡◌, ◌≢◌, refl, sym, ap, ◌∙◌, inl, inr, true, false, Option, none, some, Text, nat_eq, list_eq,
  ◌==◌, get, Bool-cases, Option-cases, ℕ,
}
use mathlib.Core.Path.{subst}
use agent_tx_protocol.Prelude.{Map}
use agent_tx_protocol.Errors.{Result, ok, err}
use agent_tx_protocol.StateMachine.Policy.{RollbackPolicy}
use agent_tx_protocol.Engine.Types.{BeginOutcome}
use agent_tx_protocol.Engine.Operations.{begin}
use agent_tx_protocol.Engine.Settled.Begin.{Begins, begin-Begins}
use agent_tx_protocol.World.{Log}
use agent_tx_protocol.Transaction.{Transaction}
use agent_tx_protocol.Engine.Act.{Locked, Act}
use agent_tx_protocol.Engine.Types.{StepRequest, Parts, Engine}
use agent_tx_protocol.Engine.Operations.{
  settle, with_handle, execute_step, commit, rollback, execute_under_lock, commit_locked,
  rollback_locked,
}
use agent_tx_protocol.Engine.Table.{settle-live, settle-gone, settle-other}
use agent_tx_protocol.Engine.Effects.Operations.{
  execute_under_lock-id, commit_locked-id, rollback_locked-id,
}

-- Every transaction of the table is held under its own id.
abbrev pub IsFiled : Engine → Type 0
IsFiled engine = (id : Text) (tx : Transaction) → get engine.transactions id ≡ some tx → tx.id ≡ id

-- From `engine` to `engine'` the entries of the other transactions stay, and every entry its own id.
abbrev pub Isolates : Text → Engine → Engine → Type 0
Isolates id engine engine' =
    ((other : Text) → id ≢ other → get engine'.transactions other ≡ get engine.transactions other)
    × IsFiled engine'

pub same_key : (key id : Text) → (key == id) ≡ false → key ≢ id
same_key key id h e = false≢true (sym h ∙ (list_eq.same_iff key id).1 e)

none≢some : {tx : Transaction} → none ≢ some tx
none≢some h = cc

some-injective : {a b : Transaction} → some a ≡ some b → a ≡ b
some-injective h = cc

pub settle-Isolates :
    (engine : Engine) (id : Text) (s : Locked)
    → IsFiled engine
    → s.tx.id ≡ id
    → Isolates id engine (settle engine id s)
settle-Isolates engine id s filed own = (
  λ other h. settle-other engine id s other h own,
  λ key tx held. elim (Bool-cases (id == key)) [
    | inl same ↦
        let e : id ≡ key = (list_eq.same_iff id key).0 same in
        let here = ap (λ k. get (settle engine id s).transactions k) e ∙ held in
        elim (Bool-cases s.live) [
          | inl live ↦
              ap (λ (t : Transaction). t.id)
                (sym (some-injective (sym (settle-live engine id s live) ∙ here)))
              ∙ own
              ∙ e
          | inr gone ↦ absurd (none≢some (sym (settle-gone engine id s gone own) ∙ here))
        ]
    | inr differs ↦
        filed key tx (sym (settle-other engine id s key (same_key id key differs) own) ∙ held)
  ],
)

with_handle-Isolates :
    {A : Type 0} (id : Text) (m : Act A) (engine : Engine) (log : Log)
    → ((s : Locked) → (m s log).1.tx.id ≡ s.tx.id)
    → IsFiled engine
    → Isolates id engine (with_handle id m engine log).1
unfolding with_handle
with_handle-Isolates id m engine log keeps filed =
    elim (Option-cases (get engine.transactions id)) [
      | inl missing ↦ rw (missing, with_handle) (λ other h. refl, filed)
      | inr (tx, found) ↦
          let s : Locked = record { tx = tx; live = true } in
          rw (found, with_handle)
            (settle-Isolates engine id (m s log).1 filed (keeps s ∙ filed id tx found))
    ]

-- In a table that holds every transaction under its own id, a step, a commit or a rollback of one
-- transaction leaves the entry of every other transaction as it was, and the table still holds every
-- transaction under its own id.
pub operations_are_isolated :
    (parts : Parts) (req : StepRequest) (id : Text) (to : Option ℕ) (engine : Engine) (log : Log)
    → IsFiled engine
    → Isolates req.tx_id engine (execute_step parts req engine log).1
      × Isolates id engine (commit parts id engine log).1
      × Isolates id engine (rollback parts id to engine log).1
unfolding execute_step commit rollback
operations_are_isolated parts req id to engine log filed = (
  with_handle-Isolates req.tx_id (execute_under_lock parts engine.tools engine.config req) engine
      log (λ s. execute_under_lock-id parts engine.tools engine.config req s log) filed,
  with_handle-Isolates id (commit_locked parts) engine log (λ s. commit_locked-id parts s log)
      filed,
  with_handle-Isolates id (rollback_locked parts to) engine log
      (λ s. rollback_locked-id parts to s log) filed,
)

Begins-IsFiled :
    (before after : Engine) (r : Result BeginOutcome)
    → IsFiled before
    → Begins before r after
    → IsFiled after
Begins-IsFiled before after (err e) filed h = subst IsFiled (sym h) filed
Begins-IsFiled before after (ok outcome) filed
      (new_tx, held, active, next, consistent, own, others) =
    λ key tx found. elim (Bool-cases (outcome.tx_id == key)) [
      | inl same ↦
          let e : outcome.tx_id ≡ key = (list_eq.same_iff outcome.tx_id key).0 same in
          let here = ap (λ k. get after.transactions k) e ∙ found in
          ap (λ (t : Transaction). t.id) (sym (some-injective (sym held ∙ here))) ∙ own ∙ e
      | inr differs ↦ filed key tx (sym (others key (same_key outcome.tx_id key differs)) ∙ found)
    ]

-- `begin` keeps every transaction under its own id.
begin-IsFiled :
    (parts : Parts) (agent : Text) (metadata : Map Text Text) (policy : Option RollbackPolicy)
    (engine : Engine) (log : Log)
    → IsFiled engine
    → IsFiled (begin parts agent metadata policy engine log).1
begin-IsFiled parts agent metadata policy engine log filed =
    Begins-IsFiled engine _ _ filed (begin-Begins parts agent metadata policy engine log)
