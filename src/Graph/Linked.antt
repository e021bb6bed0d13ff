-- ===== src/Graph/Linked.antt =====
-- `truncate_from` of ledger/dependency_graph.rs keeps a graph linked.
use mathlib.Core.Path.{subst}
use agent_tx_protocol.Prelude.{
  ℕ, suc, ◌+◌, ◌≡◌, refl, sym, ◌∙◌, ◌⊎◌, inl, inr, Bool, true, false, Option, none, some, List, [],
  ◌∷◌, map, All, Elem, All-Elem, get_elem?, retain, all, Map, get, insert, get-insert, nat_eq, ◌==◌,
  if◌then◌else◌, ltb, arith, Bool-cases,
}
use agent_tx_protocol.Graph.{
  StepNode, Edge, DependencyGraph, contains_step, collect_ids, rebuild, truncate_from,
}
use agent_tx_protocol.Graph.Links.{Link, link_of, is_before, link_before, Stands, IsLinked}
use agent_tx_protocol.Graph.{new}
use agent_tx_protocol.Graph.Links.{links, StandsAt}
use agent_tx_protocol.Graph.Truncation.{rebuild-IsCut}

place :
    (b : Bool) (k i : ℕ) (o : Option ℕ)
    → (if b then some k else o) ≡ some i
    → ((b ≡ true) × (i ≡ k)) ⊎ (o ≡ some i)
place true k i o h = inl (refl, cc)
place false k i o h = inr h

-- what a new entry of the index is read as
pub insert-place :
    (m : Map ℕ ℕ) (s k t i : ℕ)
    → get (insert m s k) t ≡ some i
    → ((s ≡ t) × (i ≡ k)) ⊎ (get m t ≡ some i)
insert-place m s k t i h = elim (place (s == t) k i (get m t) (sym (get-insert m s t k) ∙ h)) [
  | inl (here, e) ↦ inl (ground arith, e)
  | inr old ↦ inr old
]

-- a step that is indexed anew stands at its place
collect_ids-points :
    (m : Map ℕ ℕ) (k : ℕ) (ws : List StepNode) (s i : ℕ)
    → get (collect_ids m k ws) s ≡ some i
    → (get m s ≡ some i)
      ⊎ ((j : ℕ) × ((i ≡ k + j) × ((w : StepNode) × ((get_elem? ws j ≡ some w) × (w.step_id ≡ s)))))
unfolding collect_ids
collect_ids-points m k [] s i h = inl h
collect_ids-points m k (x ∷ ws) s i h =
    elim (collect_ids-points (insert m x.step_id k) (suc k) ws s i h) [
      | inl held ↦ elim (insert-place m x.step_id k s i held) [
        | inl (here, e) ↦ inr (0, (omega arith, (x, (refl, here))))
        | inr old ↦ inl old
      ]
      | inr found ↦ inr (suc found.0, (omega (arith, found.1.0), found.1.1))
    ]

All-of : {A : Type 0} (P : A → Type 0) (xs : List A) → ((a : A) → Elem a xs → P a) → All P xs
All-of P [] h = tt
All-of P (x ∷ xs) h = (h x (inl refl), All-of P xs (λ a m. h a (inr m)))

-- a link of early steps has its ends
early_end : (n : ℕ) (o : Option StepNode) → is_before n o ≡ true → (w : StepNode) × (o ≡ some w)
early_end n none h = cc
early_end n (some w) h = (w, refl)

early_ends :
    (n : ℕ) (ws : List StepNode) (es : List Edge)
    → All (λ l. link_before n l ≡ true) (map (link_of ws) es)
    → All (λ (e : Edge). Stands ws e.source × Stands ws e.target) es
early_ends n ws [] h = tt
early_ends n ws (e ∷ es) h =
    let both : (is_before n (get_elem? ws e.source) ≡ true)
        × (is_before n (get_elem? ws e.target) ≡ true) =
      ground (arith, h.0) in
    (
      (early_end n (get_elem? ws e.source) both.0, early_end n (get_elem? ws e.target) both.1),
      early_ends n ws es h.1,
    )

All-kept_links :
    (n : ℕ) (ls : List Link) → All (λ l. link_before n l ≡ true) (retain (link_before n) ls)
unfolding retain
All-kept_links n [] = tt
All-kept_links n (l ∷ ls) = elim (Bool-cases (link_before n l)) [
  | inl low ↦ rw low (low, All-kept_links n ls)
  | inr high ↦ rw high (All-kept_links n ls)
]

rebuild-IsLinked : (g : DependencyGraph) (n : ℕ) → IsLinked g → IsLinked (rebuild g n)
unfolding rebuild get
rebuild-IsLinked g n h =
    let cut = rebuild-IsCut g n h in
    let r = rebuild g n in
    record {
      known =
          All-of (λ (w : StepNode). contains_step r w.step_id ≡ true) r.weights
            λ w m.
              let (old, low) = (cut.nodes w).0 m in
              (cut.index w.step_id).1 (
                All-Elem (λ (w : StepNode). contains_step g w.step_id ≡ true) w g.weights h.known
                    old,
                low,
              );
      points = λ s i held. elim (collect_ids-points [] 0 r.weights s i held) [
        | inl none_yet ↦ cc
        | inr found ↦
            let here : found.0 ≡ i = omega (arith, found.1.0) in
            subst (λ j. StandsAt r.weights j s) here found.1.1
      ];
      ends =
          early_ends n r.weights r.edges (
            subst (All (λ l. link_before n l ≡ true)) (sym cut.linked)
              (All-kept_links n (links g)));
    }

pub truncate_from-IsLinked :
    (g : DependencyGraph) (n : ℕ) → IsLinked g → IsLinked (truncate_from g n)
unfolding truncate_from
truncate_from-IsLinked g n h = elim (Bool-cases (all (λ e. ltb e.0 n) g.nodes)) [
  | inl early ↦ rw early h
  | inr late ↦ rw late (rebuild-IsLinked g n h)
]

pub new-IsLinked : IsLinked new
unfolding get
new-IsLinked = record { known = tt; points = λ s i held. cc; ends = tt }
