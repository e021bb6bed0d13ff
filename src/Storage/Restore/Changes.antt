-- ===== src/Storage/Restore/Changes.antt =====
-- What an operation of the store does to what it keeps of one transaction, and that a snapshot is
-- still in the undo journal afterwards.
use mathlib.Core.List.{reverse, reverse-append}
use mathlib.Core.Path.{ap₂}
use agent_tx_protocol.Prelude.{
  ℕ, ◌+◌, ◌%◌, ◌≤◌, ◌<◌, ◌≡◌, refl, sym, ap, ◌∙◌, Bool, true, not, ◌==◌, list_eq, nat_eq, Option,
  some, [], ◌∷◌, ◌++◌, Text, retain, All, All-append, if◌then◌else◌, u64_mod, arith, ltb, ltb→lt,
  Bool-cases, inl, inr, list_same_iff,
}
use agent_tx_protocol.Errors.{ok}
use agent_tx_protocol.Storage.Journal.{JournalEntry, decode}
use agent_tx_protocol.Storage.Keys.{key_lt, starts_with}
use agent_tx_protocol.Storage.Layout.{journal, tx_data_prefix}
use agent_tx_protocol.Storage.Layout.Numbers.{key_lt-journal}
use agent_tx_protocol.Storage.Database.{Bytes, Entry, Entries, IsOrdered}
use agent_tx_protocol.Storage.Database.Ordered.{on_key, key_lt_trans}
use agent_tx_protocol.Storage.Database.Batches.{retain-split, retain-agree, retain-both, agree}
use agent_tx_protocol.Storage.Restore.Undo.{unwind, unwind-append, unwind-decoded}

-- The values of a transaction's keys, its undo journal, and the next sequence number.
pub record TxView : Type 0 where
  pub values : Bytes → Option Bytes
  pub log : Entries
  pub next : Option ℕ

-- the journal from a sequence number on, and the part before it
abbrev pub is_newer : Text → ℕ → Bytes → Bool
is_newer tx p k = not (key_lt k (journal tx p))

abbrev pub newer : Text → ℕ → Entries → Entries
newer tx p log = retain (on_key (is_newer tx p)) log

abbrev pub older : Text → ℕ → Entries → Entries
older tx p log = retain (on_key (λ k. key_lt k (journal tx p))) log

-- The values once the journal from `p` on is undone.
abbrev pub undone : Text → ℕ → TxView → Bytes → Option Bytes
undone tx p v k = unwind (reverse (newer tx p v.log)) k (v.values k)

abbrev pub IsOwn : Text → Bytes → Type 0
IsOwn tx k = starts_with (tx_data_prefix tx) k ≡ true

pub data Change (tx : Text) (v w : TxView) : Type 0 where
  unchanged :
      ((k : Bytes) → IsOwn tx k → w.values k ≡ v.values k)
      → w.log ≡ v.log
      → w.next ≡ v.next
      → Change tx v w
  -- a write that failed after it had taken a sequence number
  counted :
      (n : ℕ)
      → v.next ≡ some n
      → w.next ≡ some ((n + 1) % u64_mod)
      → ((k : Bytes) → IsOwn tx k → w.values k ≡ v.values k)
      → w.log ≡ v.log
      → Change tx v w
  wrote :
      (n : ℕ) (raw_key : Bytes) (new : Option Bytes) (record_bytes : Bytes)
      → v.next ≡ some n
      → w.next ≡ some ((n + 1) % u64_mod)
      → decode record_bytes ≡ ok (record { raw_key = raw_key; prior = v.values raw_key })
      → ((k : Bytes) → IsOwn tx k → w.values k ≡ (if raw_key == k then new else v.values k))
      → w.log ≡ v.log ++ (journal tx n, record_bytes) ∷ []
      → Change tx v w
  rewound :
      (p : ℕ)
      → w.next ≡ some p
      → ((k : Bytes) → IsOwn tx k → w.values k ≡ undone tx p v k)
      → w.log ≡ older tx p v.log
      → Change tx v w

-- An entry of the journal: its number is below the next one, and it can be decoded.
abbrev pub IsEntry : Text → ℕ → Entry → Type 0
IsEntry tx next e =
    (q : ℕ) × (q < next) × (e.0 ≡ journal tx q) × ((je : JournalEntry) × (decode e.1 ≡ ok je))

pub record IsLogged (tx : Text) (next : ℕ) (v : TxView) : Type 0 where
  pub known : v.next ≡ some next
  pub bounded : next < u64_mod
  pub entries : All (IsEntry tx next) v.log

-- Undoing the journal from `p` on gives the values `base`; no sequence number is above `top`.
pub record Tracks (tx : Text) (p top : ℕ) (base : Bytes → Option Bytes) (v : TxView) : Type 0 where
  pub next : ℕ
  pub reached : p ≤ next
  pub capped : next ≤ top
  pub logged : IsLogged tx next v
  pub undoes : (k : Bytes) → IsOwn tx k → undone tx p v k ≡ base k

-- A rewind stays behind `p`.
abbrev pub Allowed : ℕ → ℕ → {tx : Text} {v w : TxView} → Change tx v w → Type 0
Allowed p top (unchanged _ _ _) = Unit
Allowed p top (counted _ _ _ _ _) = Unit
Allowed p top (wrote _ _ _ _ _ _ _ _ _) = Unit
Allowed p top (rewound p' _ _ _) = (p ≤ p') × (p' ≤ top)

grown : (tx : Text) (n m : ℕ) (l : Entries) → n ≤ m → All (IsEntry tx n) l → All (IsEntry tx m) l
grown tx n m [] h a = tt
grown tx n m (e ∷ l) h a = ((a.0.0, omega arith, a.0.2, a.0.3), grown tx n m l h a.1)

-- the newest entry, in a scan from any number that is not beyond it
newer-snoc :
    (tx : Text) (p n : ℕ) (l : Entries) (r : Bytes)
    → p ≤ n
    → n < u64_mod
    → newer tx p (l ++ (journal tx n, r) ∷ []) ≡ newer tx p l ++ (journal tx n, r) ∷ []
unfolding retain
newer-snoc tx p n [] r h b = ground (arith, key_lt-journal tx n p)
newer-snoc tx p n (e ∷ l) r h b = ground (arith, newer-snoc tx p n l r h b)

undone_eq :
    (tx : Text) (p : ℕ) (l l' : Entries) (k : Bytes) (a b : Option Bytes)
    → l ≡ l'
    → a ≡ b
    → unwind (reverse (newer tx p l)) k a ≡ unwind (reverse (newer tx p l')) k b
undone_eq tx p l l' k a b hl ha = ap₂ (λ m c. unwind (reverse (newer tx p m)) k c) hl ha

-- undoing the newest entry first
undone-snoc :
    (tx : Text) (p n : ℕ) (l : Entries) (r raw : Bytes) (k : Bytes) (prior new value : Option Bytes)
    → p ≤ n
    → n < u64_mod
    → decode r ≡ ok (record { raw_key = raw; prior = prior })
    → (raw ≡ k → prior ≡ value)
    → unwind
        (reverse (newer tx p (l ++ (journal tx n, r) ∷ [])))
        k
        (if raw == k then new else value)
      ≡ unwind (reverse (newer tx p l)) k value
undone-snoc tx p n l r raw k prior new value h b good before =
    ap (λ m. unwind (reverse m) k (if raw == k then new else value)) (newer-snoc tx p n l r h b)
    ∙ ap (λ m. unwind m k (if raw == k then new else value))
        (reverse-append (newer tx p l) ((journal tx n, r) ∷ []))
    ∙ unwind-decoded (journal tx n) r (reverse (newer tx p l)) k (if raw == k then new else value)
        good
    ∙ (ap (unwind (reverse (newer tx p l)) k) (ground (arith, list_same_iff raw k, before)))

key_lt-later :
    (tx : Text) (p p' : ℕ) (k : Bytes)
    → p ≤ p'
    → p' < u64_mod
    → key_lt k (journal tx p) ≡ true
    → key_lt k (journal tx p') ≡ true
key_lt-later tx p p' k h b lt = elim (Bool-cases (ltb p p')) [
  | inl less ↦
      key_lt_trans k (journal tx p) (journal tx p') lt
        (key_lt-journal tx p p' (omega (arith, ltb→lt)) b ∙ less)
  | inr same ↦ let e : p ≡ p' = ground arith in rw (← e) lt
]

-- The journal from `p` on is its part before `p'` and the journal from `p'` on.
newer-split :
    (tx : Text) (p p' : ℕ) (l : Entries)
    → p ≤ p'
    → p' < u64_mod
    → IsOrdered l
    → newer tx p l ≡ newer tx p (older tx p' l) ++ newer tx p' l
newer-split tx p p' l h b o =
    retain-split (is_newer tx p) (journal tx p') l o
    ∙ ap₂ (λ x y. x ++ y) (sym (retain-both (is_newer tx p) (λ k. key_lt k (journal tx p')) l))
        (retain-agree _ _ l (agree _ _ l (λ k. ground (arith, key_lt-later tx p p' k h b))))

older-entries :
    (tx : Text) (n p : ℕ) (l : Entries)
    → n < u64_mod
    → p < u64_mod
    → All (IsEntry tx n) l
    → All (IsEntry tx p) (older tx p l)
unfolding retain
older-entries tx n p [] hn hp a = tt
older-entries tx n p (e ∷ l) hn hp a = elim (Bool-cases (key_lt e.0 (journal tx p))) [
  | inl old ↦
      let lt : ltb a.0.0 p ≡ true =
        sym (key_lt-journal tx a.0.0 p (omega arith) hp)
        ∙ ap (λ k. key_lt k (journal tx p)) (sym a.0.2)
        ∙ old in
      rw old ((a.0.0, ltb→lt a.0.0 p lt, a.0.2, a.0.3), older-entries tx n p l hn hp a.1)
  | inr new ↦ rw new (older-entries tx n p l hn hp a.1)
]

some-eq : {a b : ℕ} {o : Option ℕ} → o ≡ some a → o ≡ some b → a ≡ b
some-eq h k = cc

-- A change keeps every snapshot in the journal.
pub Tracks-Change :
    (tx : Text) (p top : ℕ) (base : Bytes → Option Bytes) (v w : TxView) (c : Change tx v w)
    → Allowed p top c
    → top + 1 < u64_mod
    → IsOrdered v.log
    → Tracks tx p top base v
    → Tracks tx p (top + 1) base w
Tracks-Change tx p top base v w (unchanged hv hl hn) ok_ room o t = record {
  next = t.next;
  reached = t.reached;
  capped = let c = t.capped in omega arith;
  logged = record {
    known = hn ∙ t.logged.known;
    bounded = t.logged.bounded;
    entries = rw hl t.logged.entries;
  };
  undoes = λ k mine. undone_eq tx p w.log v.log k _ _ hl (hv k mine) ∙ t.undoes k mine;
}
Tracks-Change tx p top base v w (counted n hn hn' hv hl) ok_ room o t =
    let same = some-eq hn t.logged.known in
    record {
      next = n + 1;
      reached = let r = t.reached in omega arith;
      capped = let c = t.capped in omega arith;
      logged = record {
        known = let c = t.capped in hn' ∙ ap (λ m. some m) (omega arith);
        bounded = let c = t.capped in omega arith;
        entries = rw hl (grown tx t.next (n + 1) v.log (omega arith) t.logged.entries);
      };
      undoes = λ k mine. undone_eq tx p w.log v.log k _ _ hl (hv k mine) ∙ t.undoes k mine;
    }
Tracks-Change tx p top base v w (wrote n raw new r hn hn' good hv hl) ok_ room o t =
    let same = some-eq hn t.logged.known in
    let below : p ≤ n = let r = t.reached in omega arith in
    record {
      next = n + 1;
      reached = omega arith;
      capped = let c = t.capped in omega arith;
      logged = record {
        known = let c = t.capped in hn' ∙ ap (λ m. some m) (omega arith);
        bounded = let c = t.capped in omega arith;
        entries = rw hl (
            All-append (IsEntry tx (n + 1)) v.log ((journal tx n, r) ∷ [])
              (grown tx t.next (n + 1) v.log (omega arith) t.logged.entries)
              ((n, omega arith, refl, (_, good)), tt));
      };
      undoes = λ k mine.
          undone_eq tx p w.log _ k _ _ hl (hv k mine)
          ∙ undone-snoc tx p n v.log r raw k (v.values raw) new (v.values k) below (omega arith)
              good (ap v.values)
          ∙ t.undoes k mine;
    }
Tracks-Change tx p top base v w (rewound p' hn hv hl) behind room o t = record {
  next = p';
  reached = behind.0;
  capped = omega arith;
  logged = record {
    known = hn;
    bounded = omega arith;
    entries =
        rw hl (older-entries tx t.next p' v.log t.logged.bounded (omega arith) t.logged.entries);
  };
  undoes = λ k mine.
      undone_eq tx p w.log _ k _ _ hl (hv k mine)
      ∙ sym (
          unwind-append (reverse (newer tx p' v.log)) (reverse (newer tx p (older tx p' v.log))) k
            (v.values k))
      ∙ ap (λ m. unwind m k (v.values k))
          (sym (reverse-append (newer tx p (older tx p' v.log)) (newer tx p' v.log))
            ∙ ap reverse (sym (newer-split tx p p' v.log behind.0 (omega arith) o)))
      ∙ t.undoes k mine;
}
