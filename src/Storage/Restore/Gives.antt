-- ===== src/Storage/Restore/Gives.antt =====
-- Methods that change nothing of a transaction, and what they give where they succeed.
use agent_tx_protocol.Prelude.{
  ℕ, ◌≡◌, ◌≢◌, refl, ◌∙◌, inl, inr, Option, none, some, List, Text, get, get-insert-other, list_eq,
  nat_eq,
}
use agent_tx_protocol.Errors.{Result, ok, err}
use agent_tx_protocol.Storage.Keys.{starts_with}
use agent_tx_protocol.Storage.Layout.{snapshot_prefix}
use agent_tx_protocol.Storage.Database.{Bytes, Database, IsDatabase, BatchOp, snapshots}
use agent_tx_protocol.Storage.Database.Batches.{Avoids}
use agent_tx_protocol.Storage.Rocks.{
  RocksStore, Method, ◌>>=◌, continue, set_journal_seq, write, load_next_journal_seq, or_load,
  peek_journal_seq, allocate_journal_seq,
}
use agent_tx_protocol.Storage.Restore.Changes.{Change, unchanged}
use agent_tx_protocol.Storage.Restore.Views.{
  view, marks, Spares, write-cases, values-unchanged, log-unchanged, marks-unchanged,
}

module _ {Db : Type 0} (d : Database Db) (l : IsDatabase d) (tx : Text) where
  -- Nothing of the transaction is changed from `s` to `t`.
  pub record Same (s t : RocksStore Db) : Type 0 where
    pub values : (k : Bytes) → (view d l tx t).values k ≡ (view d l tx s).values k
    pub log : (view d l tx t).log ≡ (view d l tx s).log
    pub next : get t.journal_seq tx ≡ get s.journal_seq tx
    pub snaps : marks d l tx t ≡ marks d l tx s

  abbrev pub Same-Change :
      {s t : RocksStore Db} → Same s t → Change tx (view d l tx s) (view d l tx t)
  Same-Change h = unchanged (λ k mine. h.values k) h.log h.next

  pub Same-refl : (s : RocksStore Db) → Same s s
  Same-refl s = record { values = λ k. refl; log = refl; next = refl; snaps = refl }

  pub Same-trans : {s t u : RocksStore Db} → Same s t → Same t u → Same s u
  Same-trans h k = record {
    values = λ j. k.values j ∙ h.values j;
    log = k.log ∙ h.log;
    next = k.next ∙ h.next;
    snaps = k.snaps ∙ h.snaps;
  }

  abbrev pub Outcome : {A : Type 0} → (A → Type 0) → Result A → Type 0
  Outcome Q (ok a) = Q a
  Outcome Q (err e) = Unit

  pub record Gives {A : Type 0} (Q : A → Type 0) (m : Method Db A) : Type 0 where
    pub at : (s : RocksStore Db) → Same s (m s).1 × Outcome Q (m s).0

  Whole : {A : Type 0} → A → Type 0
  Whole a = Unit

  module _ {A : Type 0} {Q : A → Type 0} where
    pub Gives-pure : (a : A) → Q a → Gives Q (λ s. (ok a, s))
    Gives-pure a q = record { at = λ s. (Same-refl s, q) }

    pub Gives-reads :
        (f : RocksStore Db → Result A)
        → ((s : RocksStore Db) → Outcome Q (f s))
        → Gives Q (λ s. (f s, s))
    Gives-reads f h = record { at = λ s. (Same-refl s, h s) }

  module _ {A B : Type 0} {Q : A → Type 0} {R : B → Type 0} where
    continue-Gives :
        (r : Result A) (f : A → Method Db B) (s t : RocksStore Db)
        → Same s t
        → Outcome Q r
        → ((a : A) → Q a → Gives R (f a))
        → Same s (continue r f t).1 × Outcome R (continue r f t).0
    continue-Gives (ok a) f s t h q k = let r = (k a q).at t in (Same-trans h r.0, r.1)
    continue-Gives (err e) f s t h q k = (h, tt)

    pub Gives-bind :
        (m : Method Db A) (f : A → Method Db B)
        → Gives Q m
        → ((a : A) → Q a → Gives R (f a))
        → Gives R (m >>= f)
    unfolding ◌>>=◌
    Gives-bind m f g k = record {
      at = λ s. continue-Gives (m s).0 f s (m s).1 ((g.at s).0) ((g.at s).1) k;
    }

  -- A batch that spares the transaction.
  pub Gives-write :
      (batch : List BatchOp)
      → Spares d l tx batch
      → Avoids snapshots (starts_with (snapshot_prefix tx)) batch
      → Gives (λ _. Unit) (write d batch)
  Gives-write batch h m = record {
    at = λ s. elim (write-cases d l batch s) [
      | inl (e, failed) ↦ rw failed (Same-refl s, tt)
      | inr (db, done, written) ↦ rw done (
        record {
          values = values-unchanged d l tx batch s (record s { db = db }) written h.0;
          log = log-unchanged d l tx batch s (record s { db = db }) written h.1;
          next = refl;
          snaps = marks-unchanged d l tx batch s (record s { db = db }) written m;
        },
        tt,
      )
    ];
  }

  pub Gives-set_journal_seq :
      (other : Text) (n : ℕ) → other ≢ tx → Gives (λ _. Unit) (set_journal_seq {Db = Db} other n)
  unfolding set_journal_seq
  Gives-set_journal_seq other n h = record {
    at = λ s. (
      record {
        values = λ k. refl;
        log = refl;
        next = get-insert-other s.journal_seq other tx n h;
        snaps = refl;
      },
      tt,
    );
  }

  pub trivial : {A : Type 0} (r : Result A) → Outcome (λ _. Unit {0}) r
  trivial (ok a) = tt
  trivial (err e) = tt

  pub Gives-lift :
      {A : Type 0} (r : Result A) → Gives (λ _. Unit {0}) (λ (s : RocksStore Db). (r, s))
  Gives-lift r = Gives-reads (λ s. r) (λ s. trivial r)

  Gives-or_load :
      (other : Text) (n : Option ℕ) → other ≢ tx → Gives (λ _. Unit {0}) (or_load d other n)
  unfolding or_load load_next_journal_seq
  Gives-or_load other (some n) h = Gives-pure n tt
  Gives-or_load other none h =
      Gives-bind _ _ (Gives-reads {Q = λ _. Unit {0}} _ (λ s. trivial _))
        (λ n _. Gives-bind _ _ (Gives-set_journal_seq other n h) (λ _ _. Gives-pure n tt))

  pub Gives-peek : (other : Text) → other ≢ tx → Gives (λ _. Unit {0}) (peek_journal_seq d other)
  unfolding peek_journal_seq
  Gives-peek other h = record { at = λ s. (Gives-or_load other (get s.journal_seq other) h).at s }

  pub Gives-allocate :
      (other : Text) → other ≢ tx → Gives (λ _. Unit {0}) (allocate_journal_seq d other)
  unfolding allocate_journal_seq
  Gives-allocate other h =
      Gives-bind _ _ (Gives-peek other h)
        (λ n _. Gives-bind _ _ (Gives-set_journal_seq other _ h) (λ _ _. Gives-pure n tt))
