-- ===== src/Saga/Staging.antt =====
-- `StagingQueue` of ledger/saga.rs: effects that wait for the commit.
use mathlib.Core.List.{reverse, reverse-cons, append-nil, append_assoc}
use native.Mathlib.Nat.{add-zero, zero-add}
use mathlib.Core.Path.{subst}
use agent_tx_protocol.Prelude.{
  ℕ, suc, ◌+◌, ◌-◌, ◌≡◌, refl, sym, ap, ◌∙◌, Option, none, some, List, [], ◌∷◌, ◌++◌, ◌%◌, u32_mod,
  inl, inr, Option-cases, Text, bytes, decimal, ltb, length, retain, arith,
}
use agent_tx_protocol.World.{StagedEffect, Env, Io, Log, call_dispatch, dispatched}
use agent_tx_protocol.World.Traces.{dispatches}

abbrev pub StagingQueue : Type 0
StagingQueue = List StagedEffect

-- StagingQueue::stage
abbrev pub stage : StagingQueue → StagedEffect → StagingQueue
stage q e = q ++ e ∷ []

-- discard_from: how many were discarded, and what is left
unfoldable pub discard_from : StagingQueue → ℕ → ℕ × StagingQueue
discard_from q step =
    let kept = retain (λ (e : StagedEffect). ltb e.step_id step) q in (length q - length kept, kept)

-- discard_all
abbrev pub discard_all : StagingQueue → ℕ × StagingQueue
discard_all q = (length q, [])

pub record FlushReport : Type 0 where
  pub sent : ℕ
  pub errors : List Text

-- The text of a failed dispatch.
abbrev pub dispatch_error : StagedEffect → Text → Text
dispatch_error e reason =
    e.channel
    ++ (bytes " effect "
        ++ (e.idempotency_key
            ++ (bytes " (step " ++ (decimal e.step_id ++ (bytes "): " ++ reason)))))

-- The `match` on the outcome of a dispatch.
unfoldable pub after_dispatch : FlushReport → StagedEffect → Option Text → FlushReport
after_dispatch report e none = record report { sent = (report.sent + 1) % u32_mod }
after_dispatch report e (some reason) = record report {
  errors = report.errors ++ dispatch_error e reason ∷ [];
}

-- What the dispatcher answers about each effect of a queue, in order; every call sees those before it.
abbrev pub answers : Env → Text → StagingQueue → Log → List (StagedEffect × Option Text)
answers env tx [] log = []
answers env tx (e ∷ es) log = (e, env.dispatch log tx e) ∷ answers env tx es (dispatched tx e ∷ log)

-- How many were answered with success.
abbrev pub successes : List (StagedEffect × Option Text) → ℕ
successes [] = 0
successes ((e, none) ∷ rest) = suc (successes rest)
successes ((e, some reason) ∷ rest) = successes rest

-- The texts of those that were answered with an error.
abbrev pub error_texts : List (StagedEffect × Option Text) → List Text
error_texts [] = []
error_texts ((e, none) ∷ rest) = error_texts rest
error_texts ((e, some reason) ∷ rest) = dispatch_error e reason ∷ error_texts rest

module _ (env : Env) (tx : Text) where
  unfoldable pub flush_loop : List StagedEffect → FlushReport → Io FlushReport
  flush_loop [] report log = (report, log)
  flush_loop (e ∷ es) report log =
      let r = call_dispatch env tx e log in flush_loop es (after_dispatch report e r.0) r.1

  -- flush: the queue is drained before anything is dispatched
  unfoldable pub flush : StagingQueue → Io (FlushReport × StagingQueue)
  unfolding flush_loop after_dispatch
  flush q log = let r = flush_loop q (record { sent = 0; errors = [] }) log in ((r.0, []), r.1)

  flush_loop-dispatches :
      (q : List StagedEffect) (report : FlushReport) (log : Log)
      → dispatches (flush_loop q report log).1 ≡ reverse q ++ dispatches log
  unfolding flush_loop
  flush_loop-dispatches [] report log = refl
  flush_loop-dispatches (e ∷ es) report log =
      let next : FlushReport = after_dispatch report e (call_dispatch env tx e log).0 in
      flush_loop-dispatches es next (dispatched tx e ∷ log)
      ∙ sym (ap (λ q. q ++ dispatches log) (reverse-cons e es) ∙ append_assoc (reverse es) _ _)

  -- One more success in the counter.
  counted : (sent n : ℕ) → sent ≡ n % u32_mod → (sent + 1) % u32_mod ≡ suc n % u32_mod
  counted sent n h = omega arith

  add-suc_lem : (n k : ℕ) → n + suc k ≡ suc n + k
  add-suc_lem n k = omega arith

  flush_loop-sent :
      (q : List StagedEffect) (report : FlushReport) (n : ℕ) (log : Log)
      → report.sent ≡ n % u32_mod
      → (flush_loop q report log).0.sent ≡ (n + successes (answers env tx q log)) % u32_mod
  unfolding flush_loop after_dispatch
  flush_loop-sent [] report n log h = rw add-zero h
  flush_loop-sent (e ∷ es) report n log h = elim (Option-cases (env.dispatch log tx e)) [
    | inl sent ↦
        rw (sent, flush_loop)
          (flush_loop-sent es (record report { sent = (report.sent + 1) % u32_mod }) (suc n)
              (dispatched tx e ∷ log) (counted report.sent n h)
            ∙ ap (λ k. k % u32_mod) (sym (add-suc_lem n _)))
    | inr (reason, failed) ↦
        rw (failed, flush_loop)
          (flush_loop-sent es
            (record report { errors = report.errors ++ dispatch_error e reason ∷ [] }) n
            (dispatched tx e ∷ log) h)
  ]

  flush_loop-errors :
      (q : List StagedEffect) (report : FlushReport) (log : Log)
      → (flush_loop q report log).0.errors ≡ report.errors ++ error_texts (answers env tx q log)
  unfolding flush_loop after_dispatch
  flush_loop-errors [] report log = sym (append-nil report.errors)
  flush_loop-errors (e ∷ es) report log = elim (Option-cases (env.dispatch log tx e)) [
    | inl sent ↦
        rw (sent, flush_loop)
          (flush_loop-errors es (record report { sent = (report.sent + 1) % u32_mod })
            (dispatched tx e ∷ log))
    | inr (reason, failed) ↦
        rw (failed, flush_loop)
          (flush_loop-errors es
              (record report { errors = report.errors ++ dispatch_error e reason ∷ [] })
              (dispatched tx e ∷ log)
            ∙ append_assoc report.errors _ _)
  ]

  -- A flush dispatches every staged effect exactly once, in the order of staging, whether or not
  -- dispatches fail; it reports as sent how many the dispatcher answered with success, in the 32 bits
  -- of the counter, and as errors exactly those it answered with an error, in order and each with
  -- its text; and it leaves the queue empty.
  pub flush_lem :
      (q : StagingQueue) (log : Log)
      → (dispatches (flush q log).1 ≡ reverse q ++ dispatches log)
        × ((flush q log).0.0.sent ≡ successes (answers env tx q log) % u32_mod)
        × ((flush q log).0.0.errors ≡ error_texts (answers env tx q log))
        × ((flush q log).0.1 ≡ [])
  unfolding flush
  flush_lem q log =
      let start : FlushReport = record { sent = 0; errors = [] } in
      (
        flush_loop-dispatches q _ log,
        subst (λ n. (flush_loop q start log).0.sent ≡ n % u32_mod) (zero-add _)
            (flush_loop-sent q start 0 log refl),
        flush_loop-errors q start log,
        refl,
      )
