-- ===== src/Engine/Ensures.antt =====
-- What code under the lock ensures: `Q` of its result, or `E` if it stops at an error.
use agent_tx_protocol.Prelude.{◌≡◌, refl, true}
use agent_tx_protocol.Errors.{AgentTxError, Result, ok, err}
use agent_tx_protocol.World.{Log}
use agent_tx_protocol.StateMachine.Status.{TxStatus, can_transition_to, transition}
use agent_tx_protocol.Transaction.{Transaction, move_to}
use agent_tx_protocol.Engine.Act.{
  Locked, Act, pure, raise, reads, attempt, ◌>>=◌, continue, modify, transition_to,
}
use agent_tx_protocol.Engine.Keeps.{Keeps}

abbrev pub Outcome :
    {A : Type 0} → (A → Locked → Type 0) → (Locked → Type 0) → Result A → Locked → Type 0
Outcome Q E (ok a) s = Q a s
Outcome Q E (err e) s = E s

pub record Ensures {A : Type 0} (P : Locked → Type 0) (m : Act A) (Q : A → Locked → Type 0)
    (E : Locked → Type 0) : Type 0 where
  pub at : (s : Locked) (log : Log) → P s → Outcome Q E (m s log).0 (m s log).1

both :
    {A : Type 0} (P E : Locked → Type 0) (r : Result A) (s : Locked)
    → P s
    → (P s → E s)
    → Outcome (λ _. P) E r s
both P E (ok a) s p h = p
both P E (err e) s p h = h p

module _ {A : Type 0} {P E : Locked → Type 0} where
  pub Ensures-pure :
      (a : A) {Q : A → Locked → Type 0} → ((s : Locked) → P s → Q a s) → Ensures P (pure a) Q E
  unfolding pure
  Ensures-pure a h = record { at = λ s log p. h s p }

  pub Ensures-reads :
      (f : Transaction → A) {Q : A → Locked → Type 0}
      → ((s : Locked) → P s → Q (f s.tx) s)
      → Ensures P (reads f) Q E
  unfolding reads
  Ensures-reads f h = record { at = λ s log p. h s p }

  pub Ensures-raise :
      (e : AgentTxError) {Q : A → Locked → Type 0}
      → ((s : Locked) → P s → E s)
      → Ensures P (raise {A = A} e) Q E
  unfolding raise
  Ensures-raise e h = record { at = λ s log p. h s p }

  -- An action that keeps `P` ensures it.
  pub Ensures-Keeps :
      (m : Act A) → ((s : Locked) → P s → E s) → Keeps (λ s log. P s) m → Ensures P m (λ _. P) E
  Ensures-Keeps m h k = record {
    at = λ s log p. both P E (m s log).0 (m s log).1 (k.at s log p) (h (m s log).1);
  }

-- `attempt` never stops at an error.
pub Ensures-attempt :
    {A : Type 0} {P E : Locked → Type 0} {Q : A → Locked → Type 0} {F : Locked → Type 0} (m : Act A)
    → Ensures P m Q F
    → Ensures P (attempt m) (Outcome Q F) E
unfolding attempt
Ensures-attempt m k = record { at = λ s log p. k.at s log p }

module _ {A B : Type 0} {E : Locked → Type 0} {R : A → Locked → Type 0}
    {Q : B → Locked → Type 0} where
  continue-Ensures :
      (r : Result A) (f : A → Act B)
      → ((a : A) → Ensures (R a) (f a) Q E)
      → (s : Locked) (log : Log) → Outcome R E r s
      → Outcome Q E (continue r f s log).0 (continue r f s log).1
  continue-Ensures (ok a) f k s log h = (k a).at s log h
  continue-Ensures (err e) f k s log h = h

module _ {A B : Type 0} {P E : Locked → Type 0} {R : A → Locked → Type 0}
    {Q : B → Locked → Type 0} where
  pub Ensures-bind :
      (m : Act A) (f : A → Act B)
      → Ensures P m R E
      → ((a : A) → Ensures (R a) (f a) Q E)
      → Ensures P (m >>= f) Q E
  unfolding ◌>>=◌
  Ensures-bind m f km kf = record {
    at = λ s log p. continue-Ensures (m s log).0 f kf (m s log).1 (m s log).2 (km.at s log p);
  }

pub Ensures-modify :
    {P E Q : Locked → Type 0} (f : Transaction → Transaction)
    → ((s : Locked) → P s → Q (record s { tx = f s.tx }))
    → Ensures P (modify f) (λ _. Q) E
unfolding modify
Ensures-modify f h = record { at = λ s log p. h s p }

-- The table holds the transaction, with this status.
abbrev pub At : TxStatus → Locked → Type 0
At status s = (s.tx.status ≡ status) × (s.live ≡ true)

-- A transition that the diagram allows.
pub Ensures-transition :
    {E : Locked → Type 0} (from to : TxStatus)
    → can_transition_to from to ≡ true
    → Ensures (At from) (transition_to to) (λ _. At to) E
unfolding transition_to move_to transition
Ensures-transition from to allowed = record { at = λ s log p. rw (p.0, allowed) (refl, p.1) }

widen :
    {A : Type 0} (Q R : A → Locked → Type 0) (E F : Locked → Type 0) (r : Result A) (s : Locked)
    → ((a : A) (t : Locked) → Q a t → R a t)
    → ((t : Locked) → E t → F t)
    → Outcome Q E r s
    → Outcome R F r s
widen Q R E F (ok a) s g h p = g a s p
widen Q R E F (err e) s g h p = h s p

pub Ensures-weaken :
    {A : Type 0} {P E F : Locked → Type 0} {Q R : A → Locked → Type 0} (m : Act A)
    → ((a : A) (s : Locked) → Q a s → R a s)
    → ((s : Locked) → E s → F s)
    → Ensures P m Q E
    → Ensures P m R F
Ensures-weaken {E = E} {F = F} {Q = Q} {R = R} m g h k = record {
  at = λ s log p. widen Q R E F (m s log).0 (m s log).1 g h (k.at s log p);
}
