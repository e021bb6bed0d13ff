-- ===== src/Transaction/Consistency.antt =====
-- What the memory of a transaction holds lies before the step that it expects next.
use mathlib.Core.Path.{subst}
use agent_tx_protocol.Prelude.{
  inl, inr, contains, list_eq, ℕ, suc, ◌≤◌, ◌<◌, ◌≡◌, refl, sym, List, [], ◌∷◌, ◌++◌, max, Text,
  ltb, All, All-append, retain, Map, insert, nat_eq, ◌==◌, arith, Bool-cases,
}
use agent_tx_protocol.World.{StagedEffect, Log, Env}
use agent_tx_protocol.Saga.Ledger.{SagaEntry, entry_step, compensate_from}
use agent_tx_protocol.Saga.Ledger.Compensation.{Ordered, compensate_from-CompensatesFrom}
use agent_tx_protocol.Saga.Staging.{discard_from}
use agent_tx_protocol.Graph.Links.{IsLinked}
use agent_tx_protocol.Graph.Linked.{new-IsLinked, truncate_from-IsLinked}
use agent_tx_protocol.Transaction.{
  Transaction, StepRecord, ContextEntry, truncate_from, add_constraint,
}

-- Every record, context entry, staged effect and undo action is of a step below `b`, the undo actions
-- stand in step order, and the dependency graph has an index of its steps and the ends of its edges
-- (see `IsLinked`).
abbrev pub Within : ℕ → Transaction → Type 0
Within b tx =
    All (λ (s : ℕ × StepRecord). s.0 < b) tx.steps
    × All (λ (c : ContextEntry). c.step_id < b) tx.context
    × All (λ (e : StagedEffect). e.step_id < b) tx.staging
    × All (λ e. entry_step e < b) tx.saga.entries
    × Ordered tx.saga.entries
    × IsLinked tx.graph

-- What a rewind relies on.
abbrev pub IsRewindable : Transaction → Type 0
IsRewindable tx = Ordered tx.saga.entries × IsLinked tx.graph

-- Between two steps.
abbrev pub IsConsistent : Transaction → Type 0
IsConsistent tx = (1 ≤ tx.next_step) × Within tx.next_step tx

-- While step `n` runs.
abbrev pub IsWorking : ℕ → Transaction → Type 0
IsWorking n tx = (tx.next_step ≡ n) × Within (suc n) tx

pub All-weaken :
    {A : Type 0} {P Q : A → Type 0} → ((a : A) → P a → Q a) → (xs : List A) → All P xs → All Q xs
All-weaken f [] h = tt
All-weaken f (a ∷ xs) h = (f a h.0, All-weaken f xs h.1)

All-kept :
    {A : Type 0} (f : A → ℕ) (n : ℕ) (xs : List A)
    → All (λ a. f a < n) (retain (λ a. ltb (f a) n) xs)
unfolding retain
All-kept f n [] = tt
All-kept f n (a ∷ xs) = elim (Bool-cases (ltb (f a) n)) [
  | inl low ↦ rw low (ground arith, All-kept f n xs)
  | inr high ↦ rw high (All-kept f n xs)
]

pub All-insert :
    (P : ℕ × StepRecord → Type 0) (m : Map ℕ StepRecord) (k : ℕ) (v : StepRecord)
    → P (k, v)
    → All P m
    → All P (insert m k v)
unfolding insert
All-insert P [] k v p h = (p, tt)
All-insert P ((j, w) ∷ m) k v p h = elim (Bool-cases (j == k)) [
  | inl same ↦ rw same (p, h.1)
  | inr other ↦ rw other (h.0, All-insert P m k v p h.1)
]

pub Ordered-snoc :
    (es : List SagaEntry) (e : SagaEntry)
    → Ordered es
    → All (λ x. entry_step x ≤ entry_step e) es
    → Ordered (es ++ e ∷ [])
Ordered-snoc [] e o h = (tt, tt)
Ordered-snoc (x ∷ es) e o h = (
  All-append (λ y. entry_step x ≤ entry_step y) es (e ∷ []) o.0 (h.0, tt),
  Ordered-snoc es e o.1 h.1,
)

All-prefix : (P : SagaEntry → Type 0) (xs ys : List SagaEntry) → All P (xs ++ ys) → All P xs
All-prefix P [] ys h = tt
All-prefix P (x ∷ xs) ys h = (h.0, All-prefix P xs ys h.1)

Ordered-prefix : (xs ys : List SagaEntry) → Ordered (xs ++ ys) → Ordered xs
Ordered-prefix [] ys o = tt
Ordered-prefix (x ∷ xs) ys o =
    (All-prefix (λ y. entry_step x ≤ entry_step y) xs ys o.0, Ordered-prefix xs ys o.1)

-- An active transaction may start its next step.
pub IsConsistent-IsWorking : (tx : Transaction) → IsConsistent tx → IsWorking tx.next_step tx
IsConsistent-IsWorking tx h =
    let up : (n : ℕ) → n < tx.next_step → n < suc tx.next_step = λ n lt. omega arith in
    let (steps, context, staging, saga, ordered, linked) = h.1 in
    (
      refl,
      (
        All-weaken (λ s. up s.0) tx.steps steps,
        All-weaken (λ c. up c.step_id) tx.context context,
        All-weaken (λ e. up e.step_id) tx.staging staging,
        All-weaken (λ e. up (entry_step e)) tx.saga.entries saga,
        ordered,
        linked,
      ),
    )

-- The state after a rewind: nothing of the steps from `max target 1` on is left.
pub rewind-IsConsistent :
    (tx : Transaction) (target : ℕ) (env : Env) (log : Log)
    → Ordered tx.saga.entries
    → IsLinked tx.graph
    → IsConsistent (
        truncate_from
          (record tx {
            saga = (compensate_from env tx.saga target log).0.1;
            staging = (discard_from tx.staging target).1;
          })
          target)
unfolding truncate_from discard_from
rewind-IsConsistent tx target env log ordered linked =
    let r = compensate_from env tx.saga target log in
    let c = compensate_from-CompensatesFrom env tx.saga target log ordered in
    let up : (n : ℕ) → n < target → n < max target 1 = λ n lt. omega arith in
    let one : 1 ≤ max target 1 = omega arith in
    let staged =
      All-weaken (λ (e : StagedEffect). up e.step_id) _
        (All-kept (λ (e : StagedEffect). e.step_id) target tx.staging) in
    let undo = All-weaken (λ e. up (entry_step e)) r.0.1.entries c.kept in
    let still : Ordered r.0.1.entries =
      Ordered-prefix r.0.1.entries c.undone (subst Ordered (sym c.splits) ordered) in
    elim (Bool-cases (target == 0)) [
      | inl all ↦ rw all (one, (tt, tt, staged, undo, still, new-IsLinked))
      | inr some_left ↦ rw some_left (
        one,
        (
          All-weaken (λ (s : ℕ × StepRecord). up s.0) _
              (All-kept (λ (s : ℕ × StepRecord). s.0) target tx.steps),
          All-weaken (λ (c : ContextEntry). up c.step_id) _
              (All-kept (λ (c : ContextEntry). c.step_id) target tx.context),
          staged,
          undo,
          still,
          truncate_from-IsLinked tx.graph target linked,
        ),
      )
    ]

pub truncate_from-status :
    (step : ℕ) (tx : Transaction) → (truncate_from tx step).status ≡ tx.status
unfolding truncate_from
truncate_from-status step tx = ground arith

pub add_constraint-status :
    (tx : Transaction) (hint : Text) (limit : ℕ)
    → (add_constraint tx hint limit).1.status ≡ tx.status
unfolding add_constraint
add_constraint-status tx hint limit = ground arith

-- A hint changes nothing that consistency is about.
pub add_constraint-IsWorking :
    (n : ℕ) (tx : Transaction) (hint : Text) (limit : ℕ)
    → IsWorking n tx
    → IsWorking n (add_constraint tx hint limit).1
unfolding add_constraint
add_constraint-IsWorking n tx hint limit h = elim (Bool-cases (contains tx.constraints hint)) [
  | inl old ↦ rw old h
  | inr fresh ↦ rw fresh h
]
