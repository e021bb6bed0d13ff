-- ===== src/Graph/Kept.antt =====
-- The nodes that `truncate_from` of ledger/dependency_graph.rs keeps, by their old and new indices.
use mathlib.Core.Path.{ap₂, subst}
use agent_tx_protocol.Prelude.{
  ℕ, zero, suc, ◌+◌, ◌≡◌, refl, sym, ap, ◌∙◌, ◌⊎◌, inl, inr, ◌↔◌, Bool, true, none, some, List, [],
  ◌∷◌, map, Elem, Elem-retain, get_elem?, retain, insert_sorted, sort_by, get, nat_eq, ◌==◌, ltb,
  arith, Bool-cases,
}
use agent_tx_protocol.Graph.{StepNode, Indexed, indexed_from, step_before, remap_from}

module _ {A : Type 0} (before : A → A → Bool) where
  Elem-insert_sorted :
      (e x : A) (es : List A) → Elem e (insert_sorted before x es) ↔ ((e ≡ x) ⊎ Elem e es)
  unfolding insert_sorted
  Elem-insert_sorted e x [] = (λ h. h, λ h. h)
  Elem-insert_sorted e x (y ∷ es) = elim (Bool-cases (before x y)) [
    | inl first ↦ rw first (λ h. h, λ h. h)
    | inr later ↦ rw later (ground (arith, Elem-insert_sorted e x es))
  ]

  Elem-sort_by : (e : A) (es : List A) → Elem e (sort_by before es) ↔ Elem e es
  unfolding sort_by
  Elem-sort_by e [] = (λ h. h, λ h. h)
  Elem-sort_by e (x ∷ es) =
      ground (arith, Elem-insert_sorted e x (sort_by before es), Elem-sort_by e es)

-- indexes and elements
same : {i j : ℕ} {w x : StepNode} → i ≡ j → w ≡ x → ◌≡◌ {A = Indexed} (i, w) (j, x)
same p q = ap₂ (λ i w. (i, w)) p q

pub some-injective : {w x : StepNode} → some x ≡ some w → w ≡ x
some-injective h = cc

pub Elem-get_elem? :
    (ws : List StepNode) (i : ℕ) (w : StepNode) → get_elem? ws i ≡ some w → Elem w ws
Elem-get_elem? [] i w h = cc
Elem-get_elem? (x ∷ ws) zero w h = inl (some-injective h)
Elem-get_elem? (x ∷ ws) (suc i) w h = inr (Elem-get_elem? ws i w h)

get_elem?-Elem : (ws : List StepNode) (w : StepNode) → Elem w ws → (i : ℕ) × get_elem? ws i ≡ some w
get_elem?-Elem [] w h = absurd h
get_elem?-Elem (x ∷ ws) w (inl e) = (0, ap some (sym e))
get_elem?-Elem (x ∷ ws) w (inr m) = let (i, h) = get_elem?-Elem ws w m in (suc i, h)

indexed_from-Elem :
    (k i : ℕ) (ws : List StepNode) (w : StepNode)
    → get_elem? ws i ≡ some w
    → Elem (k + i, w) (indexed_from k ws)
unfolding indexed_from
indexed_from-Elem k i [] w h = cc
indexed_from-Elem k zero (x ∷ ws) w h = inl (same (omega arith) (some-injective h))
indexed_from-Elem k (suc i) (x ∷ ws) w h =
    let place : suc k + i ≡ k + suc i = omega arith in
    inr (
      subst (λ j. Elem (j, w) (indexed_from (suc k) ws)) place (indexed_from-Elem (suc k) i ws w h))

Elem-indexed_from :
    (k i : ℕ) (ws : List StepNode) (w : StepNode)
    → Elem (i, w) (indexed_from k ws)
    → (j : ℕ) × (i ≡ k + j) × (get_elem? ws j ≡ some w)
unfolding indexed_from
Elem-indexed_from k i [] w h = absurd h
Elem-indexed_from k i (x ∷ ws) w (inl e) =
    let at : i ≡ k = ap (λ p. p.0) e in (0, omega arith, ap (λ p. some p.1) (sym e))
Elem-indexed_from k i (x ∷ ws) w (inr m) =
    let (j, place, h) = Elem-indexed_from (suc k) i ws w m in (suc j, omega arith, h)

-- The nodes that stay, with their old indices, in the order of their steps.
abbrev pub kept : List StepNode → ℕ → List Indexed
kept ws n = sort_by step_before (retain (λ x. ltb x.1.step_id n) (indexed_from 0 ws))

abbrev pub IsKept : List StepNode → ℕ → ℕ → StepNode → Type 0
IsKept ws n i w = (get_elem? ws i ≡ some w) × (ltb w.step_id n ≡ true)

pub Elem-kept :
    (ws : List StepNode) (n i : ℕ) (w : StepNode) → Elem (i, w) (kept ws n) ↔ IsKept ws n i w
Elem-kept ws n i w =
    let indexed = indexed_from 0 ws in
    let sorted = Elem-sort_by step_before (i, w) (retain (λ x. ltb x.1.step_id n) indexed) in
    let stays = Elem-retain (λ (x : Indexed). ltb x.1.step_id n) (i, w) indexed in
    (
      λ h.
          let (m, low) = stays.0 (sorted.0 h) in
          let (j, place, at) = Elem-indexed_from 0 i ws w m in
          let here : j ≡ i = omega arith in (subst (λ j. get_elem? ws j ≡ some w) here at, low),
      λ h.
          let here : 0 + i ≡ i = omega arith in
          let m = subst (λ j. Elem (j, w) indexed) here (indexed_from-Elem 0 i ws w h.0) in
          sorted.1 (stays.1 (m, h.1)),
    )

-- the nodes alone
abbrev pub nodes_of : List Indexed → List StepNode
nodes_of ks = map (λ x. x.1) ks

Elem-nodes_of :
    (ks : List Indexed) (w : StepNode) → Elem w (nodes_of ks) ↔ ((i : ℕ) × Elem (i, w) ks)
Elem-nodes_of [] w = (λ h. absurd h, λ h. absurd h.1)
Elem-nodes_of ((i, x) ∷ ks) w = (
  λ h. elim h [
    | inl e ↦ (i, inl (same refl e))
    | inr m ↦ let (j, n) = (Elem-nodes_of ks w).0 m in (j, inr n)
  ],
  λ h. elim h.1 [ inl e ↦ inl (ap (λ p. p.1) e) | inr m ↦ inr ((Elem-nodes_of ks w).1 (h.0, m)) ],
)

pub Elem-nodes_of-kept :
    (ws : List StepNode) (n : ℕ) (w : StepNode)
    → Elem w (nodes_of (kept ws n)) ↔ (Elem w ws × (ltb w.step_id n ≡ true))
Elem-nodes_of-kept ws n w =
    let named = Elem-nodes_of (kept ws n) w in
    (
      λ h.
          let (i, m) = named.0 h in
          let (at, low) = (Elem-kept ws n i w).0 m in (Elem-get_elem? ws i w at, low),
      λ h. let (i, at) = get_elem?-Elem ws w h.0 in named.1 (i, (Elem-kept ws n i w).1 (at, h.1)),
    )

pub get_elem?-nodes_of :
    (ks : List Indexed) (j i : ℕ) (w : StepNode)
    → get_elem? ks j ≡ some (i, w)
    → get_elem? (nodes_of ks) j ≡ some w
get_elem?-nodes_of [] j i w h = cc
get_elem?-nodes_of ((i', x) ∷ ks) zero i w h =
    ap (λ o. elim o [ none ↦ none | some p ↦ some p.1 ]) h
get_elem?-nodes_of ((i', x) ∷ ks) (suc j) i w h = get_elem?-nodes_of ks j i w h

pub Elem-get_elem?-pair :
    (ks : List Indexed) (j i : ℕ) (w : StepNode) → get_elem? ks j ≡ some (i, w) → Elem (i, w) ks
Elem-get_elem?-pair [] j i w h = cc
Elem-get_elem?-pair (x ∷ ks) zero i w h = inl cc
Elem-get_elem?-pair (x ∷ ks) (suc j) i w h = inr (Elem-get_elem?-pair ks j i w h)

-- The place where the node of old index `i` now stands.
abbrev pub Moved : ℕ → List Indexed → ℕ → Type 0
Moved k ks i =
    (j : ℕ) × (w : StepNode) × (get (remap_from k ks) i ≡ some (k + j))
    × (get_elem? ks j ≡ some (i, w))

abbrev pub Dropped : ℕ → List Indexed → ℕ → Type 0
Dropped k ks i = (get (remap_from k ks) i ≡ none) × ((w : StepNode) → ¬ Elem (i, w) ks)

-- An old index is sent to where its node stands, or it is not kept.
pub remap-cases : (k : ℕ) (ks : List Indexed) (i : ℕ) → Dropped k ks i ⊎ Moved k ks i
unfolding remap_from get
remap-cases k [] i = inl (refl, λ w h. h)
remap-cases k ((old, x) ∷ ks) i = elim (Bool-cases (old == i)) [
  | inl here ↦ inr (0, x, rw here (ap some (omega arith)), ap some (same (ground arith) refl))
  | inr other ↦ elim (remap-cases (suc k) ks i) [
    | inl (gone, never) ↦ inl (
      rw other gone,
      λ w h. elim h [
        | inl e ↦ let at : i ≡ old = ap (λ p. p.0) e in ground arith
        | inr m ↦ never w m
      ],
    )
    | inr (j, w, found, at) ↦
        let place : suc k + j ≡ k + suc j = omega arith in
        inr (suc j, w, rw other (found ∙ ap some place), at)
  ]
]
