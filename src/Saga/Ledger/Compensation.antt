-- ===== src/Saga/Ledger/Compensation.antt =====
-- What a compensation does: every entry from a step on is undone, the newest first, and one that
-- fails does not keep the others from it.
use mathlib.Core.List.{reverse, reverse-cons, reverse-reverse, append-nil, append_assoc}
use mathlib.Core.Path.{subst}
use agent_tx_protocol.Prelude.{
  ℕ, zero, suc, ◌+◌, ◌≤◌, ◌<◌, ◌%◌, u32_mod, none, some, ◌≡◌, refl, sym, ap, ◌∙◌, inl, inr, List,
  [], ◌∷◌, ◌++◌, Text, bytes, ltb, All, take, drop, arith, Bool-cases, Option-cases,
}
use agent_tx_protocol.World.{UndoAction, delete_saga_record, Env, stored, undid, Log}
use agent_tx_protocol.Saga.Ledger.{
  SagaEntry, CompensationReport, empty_report, merge, SagaLedger, entry_step, partition_point,
  run_attempts, run_one, run_all, compensate_from,
}

-- n attempts in a row
abbrev pub attempted : ℕ → UndoAction → Log → Log
attempted zero a log = log
attempted (suc n) a log = undid a ∷ attempted n a log

-- In a row of `n` attempts to undo `a`, every one was answered with an error, the last with `reason`;
-- there is no error before the first attempt.
pub data Failed (env : Env) (a : UndoAction) (before : Log) : ℕ → Text → Type 0 where
  untried : Failed env a before 0 []
  failed_again :
      {n : ℕ} {earlier : Text}
      → Failed env a before n earlier
      → (reason : Text) → env.undo (attempted n a before) a ≡ some reason
      → Failed env a before (suc n) reason

-- The fate of one entry, by the answers of its action: some failed attempts and a success, after
-- which its record is deleted; or failures in all `limit` attempts, and the record stays.
pub data Undone (env : Env) (tx : Text) (limit : ℕ) (e : SagaEntry) (before : Log)
    (r : CompensationReport) (after : Log) : Type 0 where
  compensated :
      (failures : ℕ) (last : Text)
      → failures < limit
      → Failed env e.action before failures last
      → env.undo (attempted failures e.action before) e.action ≡ none
      → r ≡ record { succeeded = 1; failures = [] }
      → after
        ≡ stored (delete_saga_record tx (entry_step e) e.record_of.seq)
          ∷ attempted (suc failures) e.action before
      → Undone env tx limit e before r after
  gave_up :
      (reason : Text)
      → Failed env e.action before limit reason
      → r
        ≡ record { succeeded = 0; failures = (e.action.description ++ (bytes ": " ++ reason)) ∷ [] }
      → after ≡ attempted limit e.action before
      → Undone env tx limit e before r after

-- The fates of the entries of a list, the last of the list first, and the report that adds them up.
pub data AllUndone (env : Env) (tx : Text) (limit : ℕ) (before : Log)
    : List SagaEntry → CompensationReport → Log → Type 0 where
  all_done : AllUndone env tx limit before [] (record { succeeded = 0; failures = [] }) before
  one_more :
      {e : SagaEntry} {es : List SagaEntry} {r s : CompensationReport} {mid after : Log}
      → AllUndone env tx limit before es r mid
      → Undone env tx limit e mid s after
      → AllUndone env tx limit before
          (e ∷ es)
          (record {
            succeeded = (r.succeeded + s.succeeded) % u32_mod;
            failures = r.failures ++ s.failures;
          })
          after

module _ (env : Env) where
  -- After `failed` attempts, with `left` to go.
  run_attempts-Undone :
      (tx : Text) (failed left limit : ℕ) (e : SagaEntry) (reason : Text) (before : Log)
      → failed + left ≡ limit
      → Failed env e.action before failed reason
      → Undone env tx limit e before
          (run_attempts env tx left e reason (attempted failed e.action before)).0
          (run_attempts env tx left e reason (attempted failed e.action before)).1
  unfolding run_attempts
  run_attempts-Undone tx failed zero limit e reason before h f =
      let all : failed ≡ limit = omega arith in
      gave_up reason (subst (λ n. Failed env e.action before n reason) all f) refl
        (ap (λ n. attempted n e.action before) all)
  run_attempts-Undone tx failed (suc left) limit e reason before h f =
      elim (Option-cases (env.undo (attempted failed e.action before) e.action)) [
        | inl success ↦
            rw (success, run_attempts) (compensated failed reason (omega arith) f success refl refl)
        | inr (text, failure) ↦
            rw (failure, run_attempts)
              (run_attempts-Undone tx (suc failed) left limit e text before (omega arith)
                (failed_again f text failure))
      ]

  run_all-AllUndone :
      (l : SagaLedger) (before log : Log) (done es : List SagaEntry) (r : CompensationReport)
      → AllUndone env l.tx_id l.max_attempts before done r log
      → AllUndone env l.tx_id l.max_attempts before
          (reverse es ++ done)
          (run_all env l es r log).0
          (run_all env l es r log).1
  unfolding run_all run_one
  run_all-AllUndone l before log done [] r h = h
  run_all-AllUndone l before log done (e ∷ es) r h =
      let one =
        run_attempts-Undone l.tx_id 0 l.max_attempts l.max_attempts e [] log (omega arith)
          untried in
      let ran = run_one env l e log in
      let rest = run_all-AllUndone l before ran.1 (e ∷ done) es (merge r ran.0) (one_more h one) in
      let all = run_all env l es (merge r ran.0) ran.1 in
      let order : reverse es ++ (e ∷ done) ≡ reverse (e ∷ es) ++ done =
        sym (ap (λ q. q ++ done) (reverse-cons e es) ∙ append_assoc (reverse es) _ _) in
      subst (λ q. AllUndone env l.tx_id l.max_attempts before q all.0 all.1) order rest

-- The entries stand in the order of their steps.
abbrev pub Ordered : List SagaEntry → Type 0
Ordered [] = Unit {0}
Ordered (e ∷ es) = All (λ x. entry_step e ≤ entry_step x) es × Ordered es

abbrev Before : ℕ → SagaEntry → Type 0
Before n e = entry_step e < n

abbrev From : ℕ → SagaEntry → Type 0
From n e = n ≤ entry_step e

All-From :
    (n m : ℕ) (es : List SagaEntry) → n ≤ m → All (λ x. m ≤ entry_step x) es → All (From n) es
All-From n m [] h a = tt
All-From n m (e ∷ es) h a = (omega arith, All-From n m es h a.1)

split-Ordered :
    (n : ℕ) (es : List SagaEntry)
    → Ordered es
    → let k = partition_point (λ e. ltb (entry_step e) n) es in
      (take k es ++ drop k es ≡ es) × All (Before n) (take k es) × All (From n) (drop k es)
unfolding partition_point
split-Ordered n [] o = (refl, tt, tt)
split-Ordered n (e ∷ es) o = elim (Bool-cases (ltb (entry_step e) n)) [
  | inl before ↦
      let (join, low, high) = split-Ordered n es o.1 in
      rw before (ap (λ q. e ∷ q) join, (ground arith, low), high)
  | inr from ↦ rw from (refl, tt, (ground arith, All-From n (entry_step e) es (ground arith) o.0))
]

-- What a compensation from step `n` on leaves and does, in a ledger `l`.
pub record CompensatesFrom (env : Env) (l : SagaLedger) (n : ℕ) (before : Log)
    (r : CompensationReport) (l' : SagaLedger) (after : Log) : Type 0 where
  pub undone : List SagaEntry
  pub splits : l'.entries ++ undone ≡ l.entries
  pub kept : All (Before n) l'.entries
  pub late : All (From n) undone
  pub effects : AllUndone env l.tx_id l.max_attempts before undone r after
  pub counters :
      (l'.next_seq ≡ l.next_seq) × (l'.tx_id ≡ l.tx_id) × (l'.max_attempts ≡ l.max_attempts)

-- In a ledger whose entries stand in step order, compensate_from removes exactly the entries of the
-- steps from n on and undoes each of them, the newest first. Each is attempted until it succeeds, at
-- most max_attempts times; its record is deleted if an attempt is answered with success, and otherwise
-- kept and reported with the error of the last attempt; the report counts the successes and lists the
-- failures in that order; and no failure keeps the others from being undone.
pub compensate_from-CompensatesFrom :
    (env : Env) (l : SagaLedger) (n : ℕ) (log : Log)
    → Ordered l.entries
    → CompensatesFrom env l n log
        (compensate_from env l n log).0.0
        (compensate_from env l n log).0.1
        (compensate_from env l n log).1
unfolding compensate_from
compensate_from-CompensatesFrom env l n log o =
    let (join, low, high) = split-Ordered n l.entries o in
    let k = partition_point (λ e. ltb (entry_step e) n) l.entries in
    let run =
      run_all-AllUndone env l log log [] (reverse (drop k l.entries)) empty_report all_done in
    let all = run_all env l (reverse (drop k l.entries)) empty_report log in
    let order : reverse (reverse (drop k l.entries)) ++ [] ≡ drop k l.entries =
      append-nil _ ∙ reverse-reverse (drop k l.entries) in
    record {
      undone = drop k l.entries;
      splits = join;
      kept = low;
      late = high;
      effects = subst (λ q. AllUndone env l.tx_id l.max_attempts log q all.0 all.1) order run;
      counters = (refl, refl, refl);
    }
