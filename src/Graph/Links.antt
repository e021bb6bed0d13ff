-- ===== src/Graph/Links.antt =====
-- What the graph of ledger/dependency_graph.rs says, without its indices.
use agent_tx_protocol.Prelude.{
  ℕ, ◌≡◌, ◌↔◌, Bool, true, false, ◌&&◌, Option, none, some, List, map, All, Elem, get_elem?, get,
  nat_eq, retain, nat_eq, ltb,
}
use agent_tx_protocol.Graph.{StepNode, Edge, EdgeLabel, DependencyGraph, contains_step}

-- What an edge says: the nodes at its ends, and the label.
abbrev pub Link : Type 0
Link = Option StepNode × (Option StepNode × EdgeLabel)

abbrev pub link_of : List StepNode → Edge → Link
link_of ws e = (get_elem? ws e.source, (get_elem? ws e.target, e.weight))

abbrev pub links : DependencyGraph → List Link
links g = map (link_of g.weights) g.edges

abbrev pub is_before : ℕ → Option StepNode → Bool
is_before n none = false
is_before n (some w) = ltb w.step_id n

-- Both ends are of steps before `n`.
abbrev pub link_before : ℕ → Link → Bool
link_before n (s, (t, _)) = is_before n s && is_before n t

abbrev pub Stands : List StepNode → ℕ → Type 0
Stands ws i = (w : StepNode) × (get_elem? ws i ≡ some w)

-- At place `i` stands the node of step `s`.
abbrev pub StandsAt : List StepNode → ℕ → ℕ → Type 0
StandsAt ws i s = (w : StepNode) × ((get_elem? ws i ≡ some w) × (w.step_id ≡ s))

-- The index of steps knows the step of every node, and sends a step to its node; and every edge has
-- its ends.
pub record IsLinked (g : DependencyGraph) : Type 0 where
  pub known : All (λ (w : StepNode). contains_step g w.step_id ≡ true) g.weights
  pub points : (s i : ℕ) → get g.nodes s ≡ some i → StandsAt g.weights i s
  pub ends : All (λ (e : Edge). Stands g.weights e.source × Stands g.weights e.target) g.edges

-- The graph `g` without the steps from `n` on: the nodes of the earlier steps with all they hold,
-- the index of these steps, and the links between them, in the same order.
pub record IsCut (g : DependencyGraph) (n : ℕ) (g' : DependencyGraph) : Type 0 where
  pub nodes : (w : StepNode) → Elem w g'.weights ↔ (Elem w g.weights × (ltb w.step_id n ≡ true))
  pub index :
      (s : ℕ) → (contains_step g' s ≡ true) ↔ ((contains_step g s ≡ true) × (ltb s n ≡ true))
  pub linked : links g' ≡ retain (link_before n) (links g)
