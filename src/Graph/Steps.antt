-- ===== src/Graph/Steps.antt =====
-- `add_step` and `record_output` of ledger/dependency_graph.rs keep a graph linked.
use mathlib.Core.Path.{subst}
use agent_tx_protocol.Prelude.{
  ℕ, suc, ◌≡◌, refl, sym, ap, ◌∙◌, inl, inr, true, some, List, [], ◌∷◌, map, All, get_elem?, get,
  insert, nat_eq, if◌then◌else◌, ltb, Bool-cases, Option-cases,
}
use agent_tx_protocol.Graph.{StepNode, Edge, DependencyGraph, contains_step, truncate_from}
use agent_tx_protocol.Graph.Links.{Stands, IsLinked}
use agent_tx_protocol.Graph.Kept.{some-injective}
use agent_tx_protocol.Prelude.{zero, ◌++◌, length, unwrap_or, set, All-append, Text}
use agent_tx_protocol.Json.{Value, scalar_leaves}
use agent_tx_protocol.Graph.{infer_implicit, producers_before, Dependency, DependencyKind}
use agent_tx_protocol.Graph.Links.{StandsAt}
use agent_tx_protocol.Graph.Truncation.{has-insert, has}
use agent_tx_protocol.Graph.{
  add_node, add_edge, add_explicit, add_implicit, add_step, record_output, blank, node_at,
}
use agent_tx_protocol.Graph.Linked.{insert-place, truncate_from-IsLinked}

-- Replacing a node by one of the same step.
module _ (v : StepNode) where
  SameStep : List StepNode → ℕ → Type 0
  SameStep ws i = (unwrap_or (get_elem? ws i) blank).step_id ≡ v.step_id

  All-set :
      (P : ℕ → Type 0) (ws : List StepNode) (i : ℕ)
      → SameStep ws i
      → All (λ (w : StepNode). P w.step_id) ws
      → All (λ (w : StepNode). P w.step_id) (set ws i v)
  unfolding SameStep
  All-set P [] i e h = tt
  All-set P (x ∷ ws) zero e h = (subst P e h.0, h.1)
  All-set P (x ∷ ws) (suc i) e h = (h.0, All-set P ws i e h.1)

  StandsAt-set :
      (ws : List StepNode) (i j s : ℕ) → SameStep ws i → StandsAt ws j s → StandsAt (set ws i v) j s
  unfolding SameStep
  StandsAt-set [] i j s e h = h
  StandsAt-set (x ∷ ws) zero zero s e (w, (at, here)) =
      (v, (refl, sym e ∙ ap (λ (x : StepNode). x.step_id) (sym (some-injective at)) ∙ here))
  StandsAt-set (x ∷ ws) zero (suc j) s e h = h
  StandsAt-set (x ∷ ws) (suc i) zero s e h = h
  StandsAt-set (x ∷ ws) (suc i) (suc j) s e h = StandsAt-set ws i j s e h

  Stands-set : (ws : List StepNode) (i j : ℕ) → SameStep ws i → Stands ws j → Stands (set ws i v) j
  Stands-set ws i j e (w, at) =
      let (x, (at_x, _)) = StandsAt-set ws i j w.step_id e (w, (at, refl)) in (x, at_x)

All-map :
    {A : Type 0} (P Q : A → Type 0) (xs : List A) → ((a : A) → P a → Q a) → All P xs → All Q xs
All-map P Q [] f h = tt
All-map P Q (x ∷ xs) f h = (f x h.0, All-map P Q xs f h.1)

abbrev HasEnds : List StepNode → Edge → Type 0
HasEnds ws e = Stands ws e.source × Stands ws e.target

pub record_output-IsLinked :
    (g : DependencyGraph) (step : ℕ) (output : Value)
    → IsLinked g
    → IsLinked (record_output g step output)
unfolding record_output SameStep
record_output-IsLinked g step output h = elim (Option-cases (get g.nodes step)) [
  | inl missing ↦ rw (missing, record_output) h
  | inr (i, held) ↦
      let v : StepNode = record (node_at g i) { outputs = scalar_leaves output } in
      rw (held, record_output)
        (record {
          known = All-set v (λ s. has g.nodes s ≡ true) g.weights i refl h.known;
          points = λ s j at. StandsAt-set v g.weights i j s refl (h.points s j at);
          ends =
              All-map (HasEnds g.weights) (HasEnds (set g.weights i v)) g.edges
                (λ e ends. (
                  Stands-set v g.weights i e.source refl ends.0,
                  Stands-set v g.weights i e.target refl ends.1,
                ))
                h.ends;
        })
]

-- A node more.
StandsAt-append :
    (ws : List StepNode) (x : StepNode) (i s : ℕ) → StandsAt ws i s → StandsAt (ws ++ x ∷ []) i s
StandsAt-append [] x i s (w, (at, here)) = cc
StandsAt-append (y ∷ ws) x zero s h = h
StandsAt-append (y ∷ ws) x (suc i) s h = StandsAt-append ws x i s h

Stands-append : (ws : List StepNode) (x : StepNode) (i : ℕ) → Stands ws i → Stands (ws ++ x ∷ []) i
Stands-append ws x i (w, at) =
    let (y, (at_y, _)) = StandsAt-append ws x i w.step_id (w, (at, refl)) in (y, at_y)

last-StandsAt : (ws : List StepNode) (x : StepNode) → StandsAt (ws ++ x ∷ []) (length ws) x.step_id
last-StandsAt [] x = (x, (refl, refl))
last-StandsAt (y ∷ ws) x = last-StandsAt ws x

Stands-first : (ws : List StepNode) (i : ℕ) → Stands ws i → Stands ws 0
Stands-first [] i (w, at) = cc
Stands-first (x ∷ ws) i h = (x, refl)

module _ (step : ℕ) (tool : Text) (input : Value) where
  add_node-IsLinked : (g : DependencyGraph) → IsLinked g → IsLinked (add_node g step tool input)
  unfolding add_node
  add_node-IsLinked g h =
      let node : StepNode = record {
        step_id = step;
        tool = tool;
        inputs = scalar_leaves input;
        outputs = [];
      } in
      let indexed = insert g.nodes step (length g.weights) in
      let ws = g.weights ++ node ∷ [] in
      record {
        known =
            All-append (λ (w : StepNode). has indexed w.step_id ≡ true) g.weights (node ∷ [])
              (All-map (λ (w : StepNode). has g.nodes w.step_id ≡ true)
                (λ (w : StepNode). has indexed w.step_id ≡ true) g.weights
                (λ w old. (has-insert g.nodes step (length g.weights) w.step_id).1 (inr old))
                h.known)
              ((has-insert g.nodes step (length g.weights) step).1 (inl refl), tt);
        points = λ s i held. elim (insert-place g.nodes step (length g.weights) s i held) [
          | inl (here, at) ↦
              subst (λ s. StandsAt ws i s) here
                (subst (λ i. StandsAt ws i step) (sym at) (last-StandsAt g.weights node))
          | inr old ↦ StandsAt-append g.weights node i s (h.points s i old)
        ];
        ends =
            All-map (HasEnds g.weights) (HasEnds ws) g.edges
              (λ e ends. (
                Stands-append g.weights node e.source ends.0,
                Stands-append g.weights node e.target ends.1,
              ))
              h.ends;
      }

  add_node-Stands :
      (g : DependencyGraph) → Stands (add_node g step tool input).weights (length g.weights)
  unfolding add_node
  add_node-Stands g =
      let (w, (at, _)) =
        last-StandsAt g.weights
          (record { step_id = step; tool = tool; inputs = scalar_leaves input; outputs = [] }) in
      (w, at)

add_edge-IsLinked :
    (g : DependencyGraph) (from to : ℕ) (source target : Text) (kind : DependencyKind)
    → Stands g.weights from
    → Stands g.weights to
    → IsLinked g
    → IsLinked (add_edge g from to source target kind)
add_edge-IsLinked g from to source target kind s t h = record {
  known = h.known;
  points = h.points;
  ends = All-append (HasEnds g.weights) g.edges _ h.ends ((s, t), tt);
}

-- the node that the index names
named-Stands :
    (g : DependencyGraph) (s i : ℕ) → IsLinked g → get g.nodes s ≡ some i → Stands g.weights i
named-Stands g s i h held = let (w, (at, _)) = h.points s i held in (w, at)

add_explicit-IsLinked :
    (step node : ℕ) (deps : List Dependency) (g : DependencyGraph) (recorded : List Dependency)
    → IsLinked g
    → Stands g.weights node
    → let r = add_explicit g step node deps recorded in IsLinked r.0 × Stands r.0.weights node
unfolding add_explicit
add_explicit-IsLinked step node [] g recorded h t = (h, t)
add_explicit-IsLinked step node (dep ∷ deps) g recorded h t =
    elim (Option-cases (get g.nodes dep.from_step)) [
      | inl missing ↦
          rw (missing, add_explicit) (add_explicit-IsLinked step node deps g recorded h t)
      | inr (i, held) ↦ elim (Bool-cases (ltb dep.from_step step)) [
        | inl early ↦
            rw (held, early, add_explicit)
              (add_explicit-IsLinked step node deps _ _
                (add_edge-IsLinked g i node dep.source_key dep.target_key _
                  (named-Stands g dep.from_step i h held) t h)
                t)
        | inr late ↦
            rw (held, late, add_explicit) (add_explicit-IsLinked step node deps g recorded h t)
      ]
    ]

source-Stands :
    (g : DependencyGraph) (step node : ℕ)
    → IsLinked g
    → Stands g.weights node
    → Stands g.weights (unwrap_or (get g.nodes step) 0)
source-Stands g step node h t = elim (Option-cases (get g.nodes step)) [
  | inl missing ↦ rw missing (Stands-first g.weights node t)
  | inr (i, held) ↦ rw held (named-Stands g step i h held)
]

add_implicit-IsLinked :
    (node : ℕ) (deps : List Dependency) (g : DependencyGraph) (recorded : List Dependency)
    → IsLinked g
    → Stands g.weights node
    → IsLinked (add_implicit g node deps recorded).0
unfolding add_implicit
add_implicit-IsLinked node [] g recorded h t = h
add_implicit-IsLinked node (dep ∷ deps) g recorded h t =
    add_implicit-IsLinked node deps _ _
      (add_edge-IsLinked g (unwrap_or (get g.nodes dep.from_step) 0) node dep.source_key
        dep.target_key dep.kind (source-Stands g dep.from_step node h t) t h)
      t

pub add_step-IsLinked :
    (g : DependencyGraph) (step : ℕ) (tool : Text) (input : Value) (deps : List Dependency)
    → IsLinked g
    → IsLinked (add_step g step tool input deps).0
unfolding add_step
add_step-IsLinked g step tool input deps h =
    let g₀ = if contains_step g step then truncate_from g step else g in
    let start : IsLinked g₀ = elim (Bool-cases (contains_step g step)) [
      | inl again ↦ rw again (truncate_from-IsLinked g step h)
      | inr first ↦ rw first h
    ] in
    let g₁ = add_node g₀ step tool input in
    let node = length g₀.weights in
    let r = add_explicit g₁ step node deps [] in
    let targets = map (λ (d : Dependency). d.target_key) deps in
    let implicits = infer_implicit (producers_before r.0 step) targets (scalar_leaves input) [] in
    let (h₂, t₂) =
      add_explicit-IsLinked step node deps g₁ [] (add_node-IsLinked step tool input g₀ start)
        (add_node-Stands step tool input g₀) in
    add_implicit-IsLinked node implicits r.0 r.1 h₂ t₂
