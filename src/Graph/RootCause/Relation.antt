-- ===== src/Graph/RootCause/Relation.antt =====
-- What it means that a key came down the edges: the specification of the walk.
use agent_tx_protocol.Prelude.{ℕ, true, ◌≡◌, Elem, ◌≤◌, Option, none, some}
use agent_tx_protocol.Graph.{DependencyGraph, Edge, node_at}
use agent_tx_protocol.Graph.RootCause.{Point, carried_input_keys, link, follows}

-- One edge up: the edge enters the point's node under a key that carries the point's key.
pub data Carries (g : DependencyGraph) (p : Point) (q : Point) : Type 0 where
  via :
      (e : Edge)
      → Elem e g.edges
      → follows (carried_input_keys g p) p.0 e ≡ true
      → q ≡ link e
      → Carries g p q

-- The points above `start`, by one edge or more.
pub data Upstream (g : DependencyGraph) (start : Point) : Point → Type 0 where
  first : {q : Point} → Carries g start q → Upstream g start q
  next : {p q : Point} → Upstream g start p → Carries g p q → Upstream g start q

abbrev pub step_of : DependencyGraph → Point → ℕ
step_of g p = (node_at g p.0).step_id

-- `r` is the earliest step above `start`.
pub record IsEarliest (g : DependencyGraph) (start : Point) (r : ℕ) : Type 0 where
  pub point : Point
  pub above : Upstream g start point
  pub at_step : step_of g point ≡ r
  pub least : (q : Point) → Upstream g start q → r ≤ step_of g q

-- What the walk answers: the earliest step above, or that there is none.
abbrev pub Answers : DependencyGraph → Point → Option ℕ → Type 0
Answers g start none = (q : Point) → ¬ Upstream g start q
Answers g start (some r) = IsEarliest g start r
