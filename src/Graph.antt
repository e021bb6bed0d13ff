-- ===== src/Graph.antt =====
-- ledger/dependency_graph.rs: the DAG of data dependencies between steps.
-- A `petgraph::DiGraph` is kept by its contents: the node weights at their indices, and the edges
-- in the order of insertion. A read at an index out of range panics in the program; here it gives
-- `blank`.
pub mod RootCause
pub mod Links
pub mod Kept
pub mod Truncation
pub mod Linked
pub mod Steps
use agent_tx_protocol.Prelude.{
  ℕ, zero, suc, ◌+◌, ◌-◌, ◌<◌, Bool, true, false, not, ◌&&◌, ◌||◌, Option, none, some, List, [],
  ◌∷◌, ◌++◌, map, Text, bytes, nat_eq, list_eq, ◌==◌, if◌then◌else◌, ltb, leb, length, get_elem?,
  set, retain, any, all, find, find_map, sort_by, contains, Map, get, insert, unwrap_or,
}
use agent_tx_protocol.Json.{Value, null, string, number, Leaf, value_eq, scalar_leaves}

pub data DependencyKind : Type 0 where
  explicit implicit : DependencyKind

pub record Dependency : Type 0 where
  pub from_step : ℕ
  pub source_key : Text
  pub target_key : Text
  pub kind : DependencyKind

pub record StepNode : Type 0 where
  pub step_id : ℕ
  pub tool : Text
  pub inputs : List Leaf
  pub outputs : List Leaf

pub record EdgeLabel : Type 0 where
  pub source_key : Text
  pub target_key : Text
  pub kind : DependencyKind

-- An edge between node indices.
pub record Edge : Type 0 where
  pub source : ℕ
  pub target : ℕ
  pub weight : EdgeLabel

pub record DependencyGraph : Type 0 where
  pub weights : List StepNode
  pub edges : List Edge
  pub nodes : Map ℕ ℕ

abbrev pub new : DependencyGraph
new = record { weights = []; edges = []; nodes = [] }

-- clear
abbrev pub clear : DependencyGraph → DependencyGraph
clear g = new

abbrev pub blank : StepNode
blank = record { step_id = 0; tool = []; inputs = []; outputs = [] }

-- graph[idx]
abbrev pub node_at : DependencyGraph → ℕ → StepNode
node_at g i = unwrap_or (get_elem? g.weights i) blank

pub len : DependencyGraph → ℕ
len g = length g.weights

abbrev pub contains_step : DependencyGraph → ℕ → Bool
contains_step g step = elim (get g.nodes step) [ none ↦ false | some _ ↦ true ]

-- Text helpers of the standard library, on ASCII bytes.
unfoldable pub to_lower : ℕ → ℕ
to_lower c = if leb b'A' c && leb c b'Z' then c + 32 else c

unfoldable pub to_ascii_lowercase : Text → Text
unfolding to_lower
to_ascii_lowercase s = map to_lower s

abbrev pub eq_ignore_ascii_case : Text → Text → Bool
eq_ignore_ascii_case a b = to_ascii_lowercase a == to_ascii_lowercase b

unfoldable pub ends_with : Text → Text → Bool
ends_with [] t = [] == t
ends_with (c ∷ s) t = (c ∷ s) == t || ends_with s t

abbrev pub is_empty {ℓ} : {A : Type ℓ} → List A → Bool
is_empty [] = true
is_empty (_ ∷ _) = false

unfoldable pub is_linkable : Value → Bool
is_linkable (string s) = not (is_empty s)
is_linkable (number n) = true
is_linkable _ = false

unfoldable pub keys_link : Text → Text → Bool
unfolding to_ascii_lowercase ends_with
keys_link input_key output_key =
    if is_empty input_key || is_empty output_key
    then false
    else if eq_ignore_ascii_case input_key output_key
    then true
    else ends_with (to_ascii_lowercase input_key) (b'_' ∷ to_ascii_lowercase output_key)

-- The nodes that `truncate_from` keeps, with their old indices.
abbrev pub Indexed : Type 0
Indexed = ℕ × StepNode

unfoldable pub indexed_from : ℕ → List StepNode → List Indexed
indexed_from i [] = []
indexed_from i (n ∷ ns) = (i, n) ∷ indexed_from (suc i) ns

abbrev pub step_before : Indexed → Indexed → Bool
step_before (i, n) (j, m) = leb n.step_id m.step_id

-- remap: the old index of each kept node to its new one
unfoldable pub remap_from : ℕ → List Indexed → Map ℕ ℕ
remap_from k [] = []
remap_from k ((old, n) ∷ kept) = (old, k) ∷ remap_from (suc k) kept

-- the new `nodes`: `.map(|idx| (rebuilt[idx].step_id, idx)).collect()`
unfoldable pub collect_ids : Map ℕ ℕ → ℕ → List StepNode → Map ℕ ℕ
collect_ids m k [] = m
collect_ids m k (n ∷ ns) = collect_ids (insert m n.step_id k) (suc k) ns

abbrev pub remap_edge : Map ℕ ℕ → Edge → Option Edge
remap_edge remap e = elim (get remap e.source) [
  | none ↦ none
  | some s ↦ elim (get remap e.target) [
    | none ↦ none
    | some t ↦ some (record e { source = s; target = t })
  ]
]

unfoldable pub remap_edges : Map ℕ ℕ → List Edge → List Edge
remap_edges remap [] = []
remap_edges remap (e ∷ es) = elim (remap_edge remap e) [
  | none ↦ remap_edges remap es
  | some e' ↦ e' ∷ remap_edges remap es
]

unfoldable pub rebuild : DependencyGraph → ℕ → DependencyGraph
unfolding indexed_from remap_from collect_ids remap_edges
rebuild g step =
    let kept =
      sort_by step_before (retain (λ n. ltb n.1.step_id step) (indexed_from 0 g.weights)) in
    let rebuilt = map (λ n. n.1) kept in
    record {
      weights = rebuilt;
      edges = remap_edges (remap_from 0 kept) g.edges;
      nodes = collect_ids [] 0 rebuilt;
    }

unfoldable pub truncate_from : DependencyGraph → ℕ → DependencyGraph
truncate_from g step = if all (λ e. ltb e.0 step) g.nodes then g else rebuild g step

abbrev pub add_edge : DependencyGraph → ℕ → ℕ → Text → Text → DependencyKind → DependencyGraph
add_edge g from to source_key target_key kind = record g {
  edges = g.edges ++ record { source = from; target = to; weight = label } ∷ [];
}
  where
    label : EdgeLabel
    label = record { source_key = source_key; target_key = target_key; kind = kind }

-- Adds the node of `step`, whose index is the count of the nodes so far.
unfoldable pub add_node : DependencyGraph → ℕ → Text → Value → DependencyGraph
add_node g step tool input = record g {
  weights = g.weights ++ node ∷ [];
  nodes = insert g.nodes step (length g.weights);
}
  where
    node : StepNode
    node = record { step_id = step; tool = tool; inputs = scalar_leaves input; outputs = [] }

-- The loop over the explicit dependencies; a dependency on an unknown or later step is dropped.
unfoldable pub add_explicit :
    DependencyGraph → ℕ → ℕ → List Dependency → List Dependency → DependencyGraph × List Dependency
add_explicit g step node [] recorded = (g, recorded)
add_explicit g step node (dep ∷ deps) recorded = elim (get g.nodes dep.from_step) [
  | none ↦ add_explicit g step node deps recorded
  | some from ↦
      let next = add_edge g from node dep.source_key dep.target_key explicit in
      let kept =
        add_explicit next step node deps (recorded ++ record dep { kind = explicit } ∷ []) in
      let dropped = add_explicit g step node deps recorded in
      if ltb dep.from_step step then kept else dropped
]

abbrev more_recent : StepNode → StepNode → Bool
more_recent p q = leb q.step_id p.step_id

-- Earlier steps, the most recent first.
unfoldable pub producers_before : DependencyGraph → ℕ → List StepNode
producers_before g step =
    sort_by more_recent (map (λ e. node_at g e.1) (retain (λ e. ltb e.0 step) g.nodes))

-- The output leaf of one producer that an input leaf links to.
unfoldable pub linked_output : Leaf → StepNode → Option (ℕ × Text)
linked_output (in_key, in_value) p =
    elim (find (λ out. (out.1 == in_value) && keys_link in_key out.0) p.outputs) [
      | none ↦ none
      | some (out_key, _) ↦ some (p.step_id, out_key)
    ]

abbrev same_link : ℕ → Text → Text → Dependency → Bool
same_link from source target d =
    (d.from_step == from) && ((d.source_key == source) && (d.target_key == target))

-- The implicit dependencies of the input leaves. `seen` of the source holds the triples of the
-- dependencies found so far, which are read off `found`.
unfoldable pub infer_implicit :
    List StepNode → List Text → List Leaf → List Dependency → List Dependency
unfolding linked_output
infer_implicit producers targets [] found = found
infer_implicit producers targets ((in_key, in_value) ∷ leaves) found =
    let skip = infer_implicit producers targets leaves found in
    if contains targets in_key || not (is_linkable in_value)
    then skip
    else elim (find_map (linked_output (in_key, in_value)) producers) [
      | none ↦ skip
      | some (from, source) ↦
          let new_dep : Dependency = record {
            from_step = from;
            source_key = source;
            target_key = in_key;
            kind = implicit;
          } in
          let more = infer_implicit producers targets leaves (found ++ new_dep ∷ []) in
          if any (same_link from source in_key) found then skip else more
    ]

unfoldable pub add_implicit :
    DependencyGraph → ℕ → List Dependency → List Dependency → DependencyGraph × List Dependency
add_implicit g node [] recorded = (g, recorded)
add_implicit g node (dep ∷ deps) recorded =
    add_implicit
      (add_edge g (unwrap_or (get g.nodes dep.from_step) 0) node dep.source_key dep.target_key
        dep.kind)
      node deps (recorded ++ dep ∷ [])

unfoldable pub add_step :
    DependencyGraph → ℕ → Text → Value → List Dependency → DependencyGraph × List Dependency
unfolding add_node add_explicit producers_before infer_implicit add_implicit truncate_from
add_step g step tool input deps =
    let g₀ = if contains_step g step then truncate_from g step else g in
    let g₁ = add_node g₀ step tool input in
    let node = length g₀.weights in
    let (g₂, recorded) = add_explicit g₁ step node deps [] in
    let targets = map (λ (d : Dependency). d.target_key) deps in
    let implicits = infer_implicit (producers_before g₂ step) targets (scalar_leaves input) [] in
    add_implicit g₂ node implicits recorded

unfoldable pub record_output : DependencyGraph → ℕ → Value → DependencyGraph
record_output g step output = elim (get g.nodes step) [
  | none ↦ g
  | some i ↦ record g {
    weights = set g.weights i (record (node_at g i) { outputs = scalar_leaves output });
  }
]
