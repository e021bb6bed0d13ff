-- ===== src/Graph/RootCause.antt =====
-- `find_root_cause` of ledger/dependency_graph.rs: the walk up the edges that carry a key.
pub mod Relation
pub mod Scan
pub mod Correct
use agent_tx_protocol.Prelude.{
  ℕ, zero, suc, Bool, true, false, ◌&&◌, Option, none, some, List, [], ◌∷◌, map, min, Text, nat_eq,
  list_eq, pair_eq, ◌==◌, if◌then◌else◌, length, retain, contains, get,
}
use agent_tx_protocol.Json.{value_eq}
use agent_tx_protocol.Graph.{
  DependencyGraph, Edge, node_at, to_ascii_lowercase, eq_ignore_ascii_case, is_linkable,
}

-- A node index with the key that is followed there.
abbrev pub Point : Type 0
Point = ℕ × Text

-- carried_input_keys
unfoldable pub carried_input_keys : DependencyGraph → Point → List Text
carried_input_keys g (node, key) =
    let step = node_at g node in
    let produced = map (λ o. o.1) (retain (λ o. eq_ignore_ascii_case o.0 key) step.outputs) in
    to_ascii_lowercase key
    ∷ map (λ i. to_ascii_lowercase i.0)
        (retain (λ i. is_linkable i.1 && contains produced i.1) step.inputs)

pub record Search : Type 0 where
  pub frontier : List Point
  pub visited : List Point
  pub root : Option ℕ

-- root.map_or(step, |r| r.min(step))
abbrev pub min_root : Option ℕ → ℕ → ℕ
min_root none step = step
min_root (some r) step = min r step

abbrev pub link : Edge → Point
link e = (e.source, to_ascii_lowercase e.weight.source_key)

abbrev pub follows : List Text → ℕ → Edge → Bool
follows carried node e =
    (e.target == node) && contains carried (to_ascii_lowercase e.weight.target_key)

module _ (g : DependencyGraph) where
  -- visited.insert(next), and what follows a fresh insertion
  visit : Search → Edge → Search
  visit s e = if contains s.visited (link e) then s else record {
    frontier = link e ∷ s.frontier;
    visited = link e ∷ s.visited;
    root = some (min_root s.root (node_at g e.source).step_id);
  }

  -- the `for` loop over the edges that enter `node`
  pub scan : List Text → ℕ → List Edge → Search → Search
  unfolding visit
  scan carried node [] s = s
  scan carried node (e ∷ es) s =
      scan carried node es (if follows carried node e then visit s e else s)

  -- one round of the `while` loop, after `p` left the frontier
  expand : Search → Point → List Point → Search
  unfolding scan
  expand s p rest = scan (carried_input_keys g p) p.0 g.edges (record s { frontier = rest })

  -- The `while` loop. The head of the list is the end of the vector.
  loop : ℕ → Search → Search
  loop zero s = s
  loop (suc fuel) s = elim s.frontier [ [] ↦ s | p ∷ rest ↦ loop fuel (expand s p rest) ]

  abbrev pub start_at : Point → Search
  start_at p = record { frontier = p ∷ []; visited = []; root = none }

  -- Each point enters the frontier once, and each is the link of an edge.
  abbrev pub enough : ℕ
  enough = suc (length g.edges)

  unfoldable pub find_root_cause : ℕ → Text → Option ℕ
  unfolding loop expand carried_input_keys
  find_root_cause failed_step key = elim (get g.nodes failed_step) [
    | none ↦ none
    | some start ↦ (loop enough (start_at (start, key))).root
  ]
