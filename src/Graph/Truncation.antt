-- ===== src/Graph/Truncation.antt =====
-- `truncate_from` of ledger/dependency_graph.rs: what is left of the nodes and the edges.
use mathlib.Core.Bool.{false≢true}
use mathlib.Core.Path.{ap₂, subst}
use agent_tx_protocol.Prelude.{
  ℕ, suc, ◌+◌, ◌≡◌, refl, sym, ap, ◌∙◌, ◌⊎◌, inl, inr, ◌↔◌, Bool, true, false, Option, none, some,
  List, [], ◌∷◌, map, All, Elem, All-Elem, get_elem?, retain, all, Map, get, insert, get-insert,
  nat_eq, ◌==◌, if◌then◌else◌, ltb, arith, Bool-cases, Option-cases,
}
use agent_tx_protocol.Graph.{
  StepNode, Edge, EdgeLabel, DependencyGraph, contains_step, remap_from, collect_ids, remap_edges,
  rebuild, truncate_from,
}
use agent_tx_protocol.Graph.Links.{Link, link_of, is_before, link_before, Stands, IsLinked, IsCut}
use agent_tx_protocol.Graph.Kept.{
  Elem-get_elem?, some-injective, get_elem?-nodes_of, Elem-nodes_of-kept, Elem-kept, remap-cases,
  Elem-get_elem?-pair, kept, nodes_of,
}

-- Where an edge's end goes: to the same node, if that is of a step before `n`, and else nowhere.
abbrev Sent : List StepNode → ℕ → ℕ → StepNode → Type 0
Sent ws n i w =
    ((is_before n (some w) ≡ false) × (get (remap_from 0 (kept ws n)) i ≡ none))
    ⊎ ((j : ℕ) × (is_before n (some w) ≡ true)
        × (get (remap_from 0 (kept ws n)) i ≡ some j)
        × (get_elem? (nodes_of (kept ws n)) j ≡ some w))

end-Sent : (ws : List StepNode) (n i : ℕ) (w : StepNode) → get_elem? ws i ≡ some w → Sent ws n i w
end-Sent ws n i w at = elim (remap-cases 0 (kept ws n) i) [
  | inl (gone, never) ↦ elim (Bool-cases (ltb w.step_id n)) [
    | inl low ↦ absurd (never w ((Elem-kept ws n i w).1 (at, low)))
    | inr high ↦ inl (high, gone)
  ]
  | inr (j, x, found, place) ↦
      let (at_x, low) = (Elem-kept ws n i x).0 (Elem-get_elem?-pair (kept ws n) j i x place) in
      let one : w ≡ x = some-injective (sym at_x ∙ at) in
      let here : 0 + j ≡ j = omega arith in
      inr (
        j,
        ap (λ x. ltb x.step_id n) one ∙ low,
        found ∙ ap some here,
        get_elem?-nodes_of (kept ws n) j i x place ∙ ap some (sym one),
      )
]

-- one edge, by where its ends go
module _ (m : Map ℕ ℕ) (e : Edge) (es : List Edge) where
  dropped_source : get m e.source ≡ none → remap_edges m (e ∷ es) ≡ remap_edges m es
  unfolding remap_edges
  dropped_source gone = rw (gone, remap_edges) refl

  dropped_target :
      (i : ℕ)
      → get m e.source ≡ some i
      → get m e.target ≡ none
      → remap_edges m (e ∷ es) ≡ remap_edges m es
  unfolding remap_edges
  dropped_target i found gone = rw (found, gone, remap_edges) refl

  moved_edge :
      (i j : ℕ)
      → get m e.source ≡ some i
      → get m e.target ≡ some j
      → remap_edges m (e ∷ es) ≡ record e { source = i; target = j } ∷ remap_edges m es
  unfolding remap_edges
  moved_edge i j found_i found_j = rw (found_i, found_j, remap_edges) refl

-- one link, by the steps of its ends
module _ (n : ℕ) (s t : StepNode) (l : EdgeLabel) (ls : List Link) where
  late_source :
      is_before n (some s) ≡ false
      → retain (link_before n) ((some s, (some t, l)) ∷ ls) ≡ retain (link_before n) ls
  unfolding retain
  late_source late = rw late refl

  late_target :
      is_before n (some s) ≡ true
      → is_before n (some t) ≡ false
      → retain (link_before n) ((some s, (some t, l)) ∷ ls) ≡ retain (link_before n) ls
  unfolding retain
  late_target low late = rw (low, late) refl

  early_link :
      is_before n (some s) ≡ true
      → is_before n (some t) ≡ true
      → retain (link_before n) ((some s, (some t, l)) ∷ ls)
        ≡ (some s, (some t, l)) ∷ retain (link_before n) ls
  unfolding retain
  early_link low_s low_t = rw (low_s, low_t) refl

-- the edges between the nodes that stay
remap_edges-links :
    (ws : List StepNode) (n : ℕ) (es : List Edge)
    → All (λ (e : Edge). Stands ws e.source × Stands ws e.target) es
    → map (link_of (nodes_of (kept ws n))) (remap_edges (remap_from 0 (kept ws n)) es)
      ≡ retain (link_before n) (map (link_of ws) es)
unfolding remap_edges retain
remap_edges-links ws n [] h = refl
remap_edges-links ws n (e ∷ es) (((s, at_s), (t, at_t)), h) =
    let m = remap_from 0 (kept ws n) in
    let new_link = link_of (nodes_of (kept ws n)) in
    let ls = map (link_of ws) es in
    let rest = remap_edges-links ws n es h in
    let link : link_of ws e ≡ (some s, (some t, e.weight)) = rw (at_s, at_t) refl in
    let old : retain (link_before n) ((some s, (some t, e.weight)) ∷ ls)
        ≡ retain (link_before n) (map (link_of ws) (e ∷ es)) =
      ap (λ l. retain (link_before n) (l ∷ ls)) (sym link) in
    elim (end-Sent ws n e.source s at_s) [
      | inl (late, gone) ↦
          ap (map new_link) (dropped_source m e es gone)
          ∙ rest
          ∙ sym (late_source n s t e.weight ls late)
          ∙ old
      | inr (i, low_s, found_s, here_s) ↦ elim (end-Sent ws n e.target t at_t) [
        | inl (late, gone) ↦
            ap (map new_link) (dropped_target m e es i found_s gone)
            ∙ rest
            ∙ sym (late_target n s t e.weight ls low_s late)
            ∙ old
        | inr (j, low_t, found_t, here_t) ↦
            let moved : new_link (record e { source = i; target = j })
                ≡ (some s, (some t, e.weight)) =
              rw (here_s, here_t) refl in
            ap (map new_link) (moved_edge m e es i j found_s found_t)
            ∙ ap₂ (λ l ls. l ∷ ls) moved rest
            ∙ sym (early_link n s t e.weight ls low_s low_t)
            ∙ old
      ]
    ]

-- the index of the nodes that stay
abbrev pub is_some : Option ℕ → Bool
is_some none = false
is_some (some _) = true

abbrev pub has : Map ℕ ℕ → ℕ → Bool
has m s = is_some (get m s)

pub has-insert :
    (m : Map ℕ ℕ) (k v s : ℕ) → (has (insert m k v) s ≡ true) ↔ ((k ≡ s) ⊎ (has m s ≡ true))
has-insert m k v s =
    let split : has (insert m k v) s ≡ is_some (if k == s then some v else get m s) =
      ap is_some (get-insert m k s v) in
    ground (arith, split)

collect_ids-has :
    (m : Map ℕ ℕ) (k : ℕ) (ws : List StepNode) (s : ℕ)
    → (has (collect_ids m k ws) s ≡ true)
      ↔ ((has m s ≡ true) ⊎ ((w : StepNode) × (Elem w ws × (w.step_id ≡ s))))
unfolding collect_ids
collect_ids-has m k [] s =
    (λ h. inl h, λ h. elim h [ inl old ↦ old | inr (w, here) ↦ absurd here.0 ])
collect_ids-has m k (x ∷ ws) s =
    let more = collect_ids-has (insert m x.step_id k) (suc k) ws s in
    let one = has-insert m x.step_id k s in
    (
      λ h. elim (more.0 h) [
        | inl old ↦ elim (one.0 old) [
          | inl here ↦ inr (x, (inl refl, here))
          | inr older ↦ inl older
        ]
        | inr (w, found) ↦ inr (w, (inr found.0, found.1))
      ],
      λ h. more.1 (elim h [
        | inl old ↦ inl (one.1 (inr old))
        | inr (w, found) ↦ elim found.0 [
          | inl here ↦ inl (one.1 (inl (ap (λ (x : StepNode). x.step_id) (sym here) ∙ found.1)))
          | inr m ↦ inr (w, (m, found.1))
        ]
      ]),
    )

empty_has : (s : ℕ) → ¬ (has [] s ≡ true)
unfolding get
empty_has s h = cc

-- If every step of the index is early, an indexed step is.
all_early :
    (m : Map ℕ ℕ) (n s : ℕ)
    → all (λ (e : ℕ × ℕ). ltb e.0 n) m ≡ true
    → has m s ≡ true
    → ltb s n ≡ true
unfolding all get
all_early [] n s h found = cc
all_early ((k, v) ∷ m) n s h found = ground (arith, all_early m n s)

retain-all :
    (n : ℕ) (ws : List StepNode) (es : List Edge)
    → ((w : StepNode) → Elem w ws → ltb w.step_id n ≡ true)
    → All (λ (e : Edge). Stands ws e.source × Stands ws e.target) es
    → map (link_of ws) es ≡ retain (link_before n) (map (link_of ws) es)
unfolding retain
retain-all n ws [] low h = refl
retain-all n ws (e ∷ es) low (((s, at_s), (t, at_t)), h) =
    let low_s = low s (Elem-get_elem? ws e.source s at_s) in
    let low_t = low t (Elem-get_elem? ws e.target t at_t) in
    rw (at_s, at_t, low_s, low_t)
      (ap (λ ls. (some s, (some t, e.weight)) ∷ ls) (retain-all n ws es low h))

indexed :
    (g : DependencyGraph)
    → IsLinked g
    → (s : ℕ) → contains_step g s ≡ true
    → (w : StepNode) × (Elem w g.weights × (w.step_id ≡ s))
indexed g h s found = elim (Option-cases (get g.nodes s)) [
  | inl missing ↦ absurd (false≢true (ap is_some (sym missing) ∙ found))
  | inr (i, held) ↦
      let (w, (at, e)) = h.points s i held in (w, (Elem-get_elem? g.weights i w at, e))
]

pub rebuild-IsCut : (g : DependencyGraph) (n : ℕ) → IsLinked g → IsCut g n (rebuild g n)
unfolding rebuild
rebuild-IsCut g n h =
    let ids = collect_ids-has [] 0 (nodes_of (kept g.weights n)) in
    let stays = Elem-nodes_of-kept g.weights n in
    record {
      nodes = stays;
      index = λ s. (
        λ here. elim ((ids s).0 here) [
          | inl none_yet ↦ absurd (empty_has s none_yet)
          | inr (w, (m, e)) ↦
              let (old, low) = (stays w).0 m in
              let named =
                All-Elem (λ (w : StepNode). contains_step g w.step_id ≡ true) w g.weights h.known
                  old in
              (subst (λ s. contains_step g s ≡ true) e named, subst (λ s. ltb s n ≡ true) e low)
        ],
        λ here.
            let (w, (m, e)) = indexed g h s here.0 in
            (ids s).1 (inr (w, ((stays w).1 (m, subst (λ s. ltb s n ≡ true) (sym e) here.1), e))),
      );
      linked = remap_edges-links g.weights n g.edges h.ends;
    }

-- In a graph that is linked, truncate_from keeps the nodes of the steps before `n`, with all they hold, the
-- index of these steps, and the links between them.
pub truncate_from-IsCut : (g : DependencyGraph) (n : ℕ) → IsLinked g → IsCut g n (truncate_from g n)
unfolding truncate_from
truncate_from-IsCut g n h = elim (Bool-cases (all (λ e. ltb e.0 n) g.nodes)) [
  | inl early ↦
      let low : (w : StepNode) → Elem w g.weights → ltb w.step_id n ≡ true = λ w m.
        all_early g.nodes n w.step_id early
          (All-Elem (λ (w : StepNode). contains_step g w.step_id ≡ true) w g.weights h.known m) in
      rw early (record {
        nodes = λ w. (λ m. (m, low w m), λ k. k.0);
        index = λ s. (λ m. (m, all_early g.nodes n s early m), λ k. k.0);
        linked = retain-all n g.weights g.edges low h.ends;
      })
  | inr late ↦ rw late (rebuild-IsCut g n h)
]
