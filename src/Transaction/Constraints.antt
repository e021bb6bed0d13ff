-- ===== src/Transaction/Constraints.antt =====
-- The hints kept for the prompt: bounded, without repetition, the newest always among them.
use agent_tx_protocol.Prelude.{
  ℕ, zero, suc, ◌-◌, ◌≤◌, ◌≡◌, refl, inl, inr, false, not, ◌||◌, ◌==◌, List, [], ◌∷◌, ◌++◌, max,
  Text, ltb, length, length-append, drop, contains, contains_iff, Elem, list_eq, nat_eq, arith,
  Bool-cases,
}
use agent_tx_protocol.Transaction.{Transaction, evict, add_constraint}

-- No text twice.
abbrev pub Distinct : List Text → Type 0
Distinct [] = Unit {0}
Distinct (c ∷ cs) = (contains cs c ≡ false) × Distinct cs

pub record IsTidy (limit : ℕ) (constraints : List Text) : Type 0 where
  pub short : length constraints ≤ max limit 1
  pub distinct : Distinct constraints

length-drop : (n : ℕ) (cs : List Text) → length (drop n cs) ≡ length cs - n
length-drop zero cs = omega arith
length-drop (suc n) [] = omega arith
length-drop (suc n) (c ∷ cs) = omega (arith, length-drop n cs)

Distinct-drop : (n : ℕ) (cs : List Text) → Distinct cs → Distinct (drop n cs)
Distinct-drop zero cs d = d
Distinct-drop (suc n) [] d = d
Distinct-drop (suc n) (c ∷ cs) d = Distinct-drop n cs d.1

contains-append :
    (cs : List Text) (hint a : Text) → contains (cs ++ hint ∷ []) a ≡ (contains cs a || hint == a)
contains-append [] hint a = ground arith
contains-append (c ∷ cs) hint a = ground (arith, contains-append cs hint a)

Distinct-append :
    (cs : List Text) (hint : Text)
    → Distinct cs
    → contains cs hint ≡ false
    → Distinct (cs ++ hint ∷ [])
Distinct-append [] hint d h = (refl, tt)
Distinct-append (c ∷ cs) hint d h = (
  ground (
    arith,
    contains-append cs hint c,
    (list_eq {A = ℕ}).same_iff hint c,
    (list_eq {A = ℕ}).same_iff c hint,
  ),
  Distinct-append cs hint d.1 (ground arith),
)

drop-last :
    (cs : List Text) (hint : Text) (n : ℕ) → n ≤ length cs → Elem hint (drop n (cs ++ hint ∷ []))
drop-last [] hint n h = let e : n ≡ 0 = omega arith in rw e (inl refl)
drop-last (c ∷ cs) hint zero h = inr (drop-last cs hint zero (omega arith))
drop-last (c ∷ cs) hint (suc n) h = drop-last cs hint n (omega arith)

-- After the new hint was pushed on distinct constraints.
evict-IsTidy :
    (cs : List Text) (hint : Text) (limit : ℕ)
    → IsTidy limit cs
    → contains cs hint ≡ false
    → IsTidy limit (evict (cs ++ hint ∷ []) limit) × Elem hint (evict (cs ++ hint ∷ []) limit)
evict-IsTidy cs hint limit t h =
    let pushed = Distinct-append cs hint t.distinct h in
    let long : length (cs ++ hint ∷ []) ≡ suc (length cs) =
      omega (arith, length-append cs (hint ∷ [])) in
    elim (Bool-cases (ltb (max limit 1) (length (cs ++ hint ∷ [])))) [
      | inl full ↦
          let excess = length (cs ++ hint ∷ []) - max limit 1 in
          rw full (
            record {
              short = ground (arith, length-drop excess (cs ++ hint ∷ []));
              distinct = Distinct-drop excess _ pushed;
            },
            drop-last cs hint excess (omega (arith, t.short)),
          )
      | inr room ↦
          rw room
            (record { short = ground arith; distinct = pushed }, drop-last cs hint 0 (omega arith))
    ]

-- Adding a hint keeps the constraints distinct and at most max(limit, 1) many; the hint is among them
-- afterwards, and the answer says whether it is new.
pub add_constraint-IsTidy :
    (tx : Transaction) (hint : Text) (limit : ℕ)
    → IsTidy limit tx.constraints
    → IsTidy limit (add_constraint tx hint limit).1.constraints
      × Elem hint (add_constraint tx hint limit).1.constraints
      × ((add_constraint tx hint limit).0 ≡ not (contains tx.constraints hint))
unfolding add_constraint
add_constraint-IsTidy tx hint limit t = elim (Bool-cases (contains tx.constraints hint)) [
  | inl old ↦ rw old (t, (contains_iff tx.constraints hint).0 old, refl)
  | inr fresh ↦
      let (tidy, last) = evict-IsTidy tx.constraints hint limit t fresh in
      rw fresh (tidy, last, refl)
]
