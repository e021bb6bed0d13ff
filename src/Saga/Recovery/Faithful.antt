-- ===== src/Saga/Recovery/Faithful.antt =====
-- What a rebuilt ledger has to do with the records: it is complete, in order and fresh.
use mathlib.Core.Path.{ap₂, subst}
use agent_tx_protocol.Prelude.{
  ℕ, suc, ◌+◌, ◌≤◌, ◌<◌, ◌≡◌, ◌≢◌, refl, sym, ap, ◌∙◌, ◌⊎◌, inl, inr, ◌↔◌, Option, none, some, List,
  [], ◌∷◌, Text, length, All, Elem, sort_by, insert_sorted, u64_mod, arith, Bool-cases,
}
use agent_tx_protocol.Errors.{AgentTxError, Result, ok, err}
use agent_tx_protocol.World.{UndoAction}
use agent_tx_protocol.Saga.Ledger.{SagaRecord, SagaEntry, SagaLedger}
use agent_tx_protocol.Saga.Ledger.Compensation.{Ordered}
use agent_tx_protocol.Saga.Recovery.{
  UndoRegistry, rebuild, Rebuilt, note, latest, next_after, rebuild_all, not_after, restored,
  recover, sort_by-Ordered,
}

Elem-insert_sorted :
    (e x : SagaEntry) (es : List SagaEntry)
    → Elem e (insert_sorted not_after x es) ↔ ((e ≡ x) ⊎ Elem e es)
unfolding insert_sorted
Elem-insert_sorted e x [] = (λ h. h, λ h. h)
Elem-insert_sorted e x (y ∷ es) = elim (Bool-cases (not_after x y)) [
  | inl first ↦ rw first (λ h. h, λ h. h)
  | inr later ↦ rw later (ground (arith, Elem-insert_sorted e x es))
]

Elem-sort_by : (e : SagaEntry) (es : List SagaEntry) → Elem e (sort_by not_after es) ↔ Elem e es
unfolding sort_by
Elem-sort_by e [] = (λ h. h, λ h. h)
Elem-sort_by e (x ∷ es) =
    ground (arith, Elem-insert_sorted e x (sort_by not_after es), Elem-sort_by e es)

length-insert_sorted :
    (x : SagaEntry) (es : List SagaEntry) → length (insert_sorted not_after x es) ≡ suc (length es)
unfolding insert_sorted
length-insert_sorted x [] = refl
length-insert_sorted x (e ∷ es) = elim (Bool-cases (not_after x e)) [
  | inl first ↦ rw first refl
  | inr later ↦ rw later (ap (λ n. suc n) (length-insert_sorted x es))
]

length-sort_by : (es : List SagaEntry) → length (sort_by not_after es) ≡ length es
unfolding sort_by
length-sort_by [] = refl
length-sort_by (e ∷ es) =
    length-insert_sorted e (sort_by not_after es) ∙ ap (λ n. suc n) (length-sort_by es)

-- An entry that the registry rebuilds from one of the records.
abbrev pub Stands : UndoRegistry → List SagaRecord → SagaEntry → Type 0
Stands registry records e = Elem e.record_of records × (rebuild registry e.record_of ≡ ok e.action)

note-length :
    (r : SagaRecord) (a : Result UndoAction) (b : Rebuilt)
    → length (note r a b).entries + length (note r a b).errors
      ≡ suc (length b.entries + length b.errors)
unfolding note
note-length r (ok a) b = omega arith
note-length r (err e) b = omega arith

rebuild_all-length :
    (registry : UndoRegistry) (rs : List SagaRecord)
    → length (rebuild_all registry rs).entries + length (rebuild_all registry rs).errors ≡ length rs
unfolding rebuild_all
rebuild_all-length registry [] = refl
rebuild_all-length registry (r ∷ rs) =
    note-length r (rebuild registry r) (rebuild_all registry rs)
    ∙ ap (λ n. suc n) (rebuild_all-length registry rs)

abbrev entry : SagaRecord → UndoAction → SagaEntry
entry r a = record { record_of = r; action = a }

entry_path : {r s : SagaRecord} {a b : UndoAction} → r ≡ s → a ≡ b → entry r a ≡ entry s b
entry_path p q = ap₂ entry p q

ok-injective : {a b : UndoAction} → ok a ≡ ok b → a ≡ b
ok-injective h = cc

err≢ok : {x : AgentTxError} {a : UndoAction} → err x ≢ ok a
err≢ok h = cc

note-Elem :
    (r : SagaRecord) (a : Result UndoAction) (b : Rebuilt) (e : SagaEntry)
    → Elem e (note r a b).entries ↔ (((e.record_of ≡ r) × (a ≡ ok e.action)) ⊎ Elem e b.entries)
unfolding note
note-Elem r (ok a) b e = (
  λ h. elim h [
    | inl same ↦ inl (ap (λ x. x.record_of) same, ap (λ x. ok x.action) (sym same))
    | inr later ↦ inr later
  ],
  λ h. elim h [ inl (p, q) ↦ inl (entry_path p (sym (ok-injective q))) | inr later ↦ inr later ],
)
note-Elem r (err x) b e =
    (λ h. inr h, λ h. elim h [ inl (p, q) ↦ absurd (err≢ok q) | inr later ↦ later ])

rebuild_all-Stands :
    (registry : UndoRegistry) (rs : List SagaRecord) (e : SagaEntry)
    → Elem e (rebuild_all registry rs).entries ↔ Stands registry rs e
unfolding rebuild_all
rebuild_all-Stands registry [] e = (λ h. absurd h, λ h. h.0)
rebuild_all-Stands registry (r ∷ rs) e =
    let now = note-Elem r (rebuild registry r) (rebuild_all registry rs) e in
    let later = rebuild_all-Stands registry rs e in
    (
      λ h. elim (now.0 h) [
        | inl (p, q) ↦ (inl p, ap (rebuild registry) p ∙ q)
        | inr old ↦ (inr (later.0 old).0, (later.0 old).1)
      ],
      λ h. now.1 (elim h.0 [
        | inl p ↦ inl (p, sym (ap (rebuild registry) p) ∙ h.1)
        | inr old ↦ inr (later.1 (old, h.1))
      ]),
    )

note-max_seq :
    (r : SagaRecord) (a : Result UndoAction) (b : Rebuilt)
    → (note r a b).max_seq ≡ latest b.max_seq r.seq
unfolding note
note-max_seq r (ok a) b = refl
note-max_seq r (err e) b = refl

-- the numbers that can be counted up without a wrap-around
abbrev pub Countable : SagaRecord → Type 0
Countable r = suc r.seq < u64_mod

-- the largest number so far, and what it is larger than
abbrev AtMost : Option ℕ → SagaRecord → Type 0
AtMost none r = ⊥
AtMost (some m) r = r.seq ≤ m

abbrev Below : Option ℕ → Type 0
Below none = Unit {0}
Below (some m) = suc m < u64_mod

latest-Below : (o : Option ℕ) (seq : ℕ) → suc seq < u64_mod → Below o → Below (latest o seq)
latest-Below none seq h b = h
latest-Below (some m) seq h b = omega arith

latest-AtMost : (o : Option ℕ) (seq : ℕ) (r : SagaRecord) → AtMost o r → AtMost (latest o seq) r
latest-AtMost none seq r h = absurd h
latest-AtMost (some m) seq r h = omega arith

latest-last : (o : Option ℕ) (r : SagaRecord) → AtMost (latest o r.seq) r
latest-last none r = omega arith
latest-last (some m) r = omega arith

All-latest :
    (o : Option ℕ) (seq : ℕ) (rs : List SagaRecord)
    → All (AtMost o) rs
    → All (AtMost (latest o seq)) rs
All-latest o seq [] h = tt
All-latest o seq (r ∷ rs) h = (latest-AtMost o seq r h.0, All-latest o seq rs h.1)

rebuild_all-AtMost :
    (registry : UndoRegistry) (rs : List SagaRecord)
    → All Countable rs
    → All (AtMost (rebuild_all registry rs).max_seq) rs × Below (rebuild_all registry rs).max_seq
unfolding rebuild_all
rebuild_all-AtMost registry [] h = (tt, tt)
rebuild_all-AtMost registry (r ∷ rs) h =
    let rest = rebuild_all registry rs in
    let (least, below) = rebuild_all-AtMost registry rs h.1 in
    subst (λ o. All (AtMost o) (r ∷ rs) × Below o) (sym (note-max_seq r (rebuild registry r) rest))
      (
        (latest-last rest.max_seq r, All-latest rest.max_seq r.seq rs least),
        latest-Below rest.max_seq r.seq h.0 below,
      )

next_after-above :
    (o : Option ℕ) (rs : List SagaRecord)
    → All (AtMost o) rs
    → Below o
    → All (λ r. r.seq < next_after o) rs
next_after-above o [] h b = tt
next_after-above none (r ∷ rs) h b = absurd h.0
next_after-above (some m) (r ∷ rs) h b = (omega (arith, h.0), next_after-above (some m) rs h.1 b)

-- What a ledger rebuilt from the records has to do with them.
pub record IsRestored (registry : UndoRegistry) (records : List SagaRecord) (l : SagaLedger)
    (errors : List Text) : Type 0 where
  pub ordered : Ordered l.entries
  pub complete : (e : SagaEntry) → Elem e l.entries ↔ Stands registry records e
  pub counted : length l.entries + length errors ≡ length records
  pub fresh : All (λ r. r.seq < l.next_seq) records

-- The result of a recovery from these records.
abbrev pub Restores : UndoRegistry → List SagaRecord → Result (SagaLedger × List Text) → Type 0
Restores registry records (ok r) = IsRestored registry records r.0 r.1
Restores registry records (err e) = ⊥

pub recover-Restores :
    (tx : Text) (registry : UndoRegistry) (max_attempts : ℕ) (records : List SagaRecord)
    → All Countable records
    → Restores registry records (recover tx registry max_attempts (ok records))
unfolding recover restored
recover-Restores tx registry max_attempts records h =
    let b = rebuild_all registry records in
    let (least, below) = rebuild_all-AtMost registry records h in
    record {
      ordered = sort_by-Ordered b.entries;
      complete =
          λ e. ground (arith, Elem-sort_by e b.entries, rebuild_all-Stands registry records e);
      counted = omega (arith, length-sort_by b.entries, rebuild_all-length registry records);
      fresh = next_after-above b.max_seq records least below;
    }
