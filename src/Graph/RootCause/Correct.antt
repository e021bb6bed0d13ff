-- ===== src/Graph/RootCause/Correct.antt =====
-- The walk ends before its fuel does, and answers with the earliest step above the failure.
use mathlib.Core.Path.{subst}
use agent_tx_protocol.Prelude.{
  ℕ, zero, suc, ◌≤◌, ◌≡◌, refl, sym, ◌⊎◌, inl, inr, Option, none, some, List, [], ◌∷◌, arith, Text,
  Elem, All, length, get, nat_eq,
}
use agent_tx_protocol.Graph.{DependencyGraph, Edge}
use agent_tx_protocol.Graph.RootCause.{
  Point, carried_input_keys, Search, expand, loop, start_at, enough, find_root_cause,
}
use agent_tx_protocol.Graph.RootCause.Relation.{Carries, via, Upstream, first, next, Answers}
use agent_tx_protocol.Graph.RootCause.Scan.{
  fresh, measure, scan-measure, RootIs, waits, reached, later, Walked, scan-Walked,
}

All-widen : (P Q : Edge → Type 0) (es : List Edge) → ((e : Edge) → P e → Q e) → All P es → All Q es
All-widen P Q [] f h = tt
All-widen P Q (e ∷ es) f h = (f e h.0, All-widen P Q es f h.1)

All-Elem_self : (es : List Edge) → All (λ e. Elem e es) es
All-Elem_self [] = tt
All-Elem_self (e ∷ es) = (
  inl refl,
  All-widen (λ x. Elem x es) (λ x. Elem x (e ∷ es)) es (λ x m. inr m) (All-Elem_self es),
)

fresh-le-length : (es : List Edge) (seen : List Point) → fresh es seen ≤ length es
unfolding fresh
fresh-le-length [] seen = omega arith
fresh-le-length (e ∷ es) seen = ground (arith, fresh-le-length es seen)

module _ (g : DependencyGraph) (start : Point) where
  -- The next round starts: `p` leaves the frontier, and every edge is still to be looked at.
  begin :
      (s : Search) (last p : Point) (rest : List Point)
      → s.frontier ≡ p ∷ rest
      → Walked g start last [] s
      → Walked g start p g.edges (record s { frontier = rest })
  begin s last p rest e w = record {
    sound = w.sound;
    queued = λ q m. w.queued q (rw e (inr m));
    closed = λ a x ha mx fx. elim (w.closed a x ha mx fx) [
      | waits f ↦ elim (subst (Elem a) e f) [ inl same ↦ later same mx | inr m ↦ waits m ]
      | reached v ↦ reached v
      | later at none_left ↦ absurd none_left
    ];
    root = w.root;
  }

  expand-Walked :
      (s : Search) (last p : Point) (rest : List Point)
      → s.frontier ≡ p ∷ rest
      → Walked g start last [] s
      → Walked g start p [] (expand g s p rest)
  unfolding expand
  expand-Walked s last p rest e w =
      scan-Walked g start p g.edges (record s { frontier = rest }) (w.queued p (rw e (inl refl)))
        (All-Elem_self g.edges) (begin s last p rest e w)

  expand-measure :
      (s : Search) (p : Point) (rest : List Point)
      → s.frontier ≡ p ∷ rest
      → suc (measure g (expand g s p rest)) ≤ measure g s
  unfolding expand measure
  expand-measure s p rest e =
      let bound =
        scan-measure g (carried_input_keys g p) p.0 g.edges (record s { frontier = rest })
          (All-Elem_self g.edges) in
      rw e (omega (arith, bound))

  -- A state in which the walk has ended.
  pub record Ended (s : Search) : Type 0 where
    pub last : Point
    pub walked : Walked g start last [] s
    pub frontier_empty : s.frontier ≡ []

  loop-Ended :
      (fuel : ℕ) (s : Search) (last : Point) (front : List Point)
      → s.frontier ≡ front
      → measure g s ≤ fuel
      → Walked g start last [] s
      → Ended (loop g fuel s)
  unfolding loop
  loop-Ended zero s last [] e m w = record { last = last; walked = w; frontier_empty = e }
  loop-Ended zero s last (p ∷ rest) e m w = absurd (omega (arith, expand-measure s p rest e))
  loop-Ended (suc fuel) s last [] e m w =
      rw (e, loop) (record { last = last; walked = w; frontier_empty = e })
  loop-Ended (suc fuel) s last (p ∷ rest) e m w =
      rw (e, loop)
        (loop-Ended fuel (expand g s p rest) p (expand g s p rest).frontier refl
          (omega (arith, expand-measure s p rest e)) (expand-Walked s last p rest e w))

  visited_above :
      (s : Search)
      → Ended s
      → (a b : Point) → (a ≡ start) ⊎ Elem a s.visited
      → Carries g a b
      → Elem b s.visited
  visited_above s d a b ha (via e m hit same) = elim (d.walked.closed a e ha m hit) [
    | waits f ↦ absurd (subst (Elem a) d.frontier_empty f)
    | reached v ↦ subst (λ q. Elem q s.visited) (sym same) v
    | later at none_left ↦ absurd none_left
  ]

  complete : (s : Search) → Ended s → {q : Point} → Upstream g start q → Elem q s.visited
  complete s d (first {q} c) = visited_above s d start q (inl refl) c
  complete s d (next {p} {q} u c) = visited_above s d p q (inr (complete s d u)) c

  root-Answers :
      (s : Search) (root : Option ℕ) → Ended s → RootIs g s.visited root → Answers g start root
  root-Answers s none d h = λ q u. subst (Elem q) h (complete s d u)
  root-Answers s (some r) d ((q, m, at), least) = record {
    point = q;
    above = d.walked.sound q m;
    at_step = at;
    least = λ x u. least x (complete s d u);
  }

  start-Walked : Walked g start start [] (start_at g start)
  start-Walked = record {
    sound = λ q m. absurd m;
    queued = λ q m. elim m [ inl same ↦ inl same | inr more ↦ absurd more ];
    closed = λ a x ha mx fx. elim ha [ inl at ↦ waits (inl at) | inr old ↦ absurd old ];
    root = refl;
  }

  -- The fuel is enough: the walk ends with nothing left on the frontier.
  walk_ends : Ended (loop g (enough g) (start_at g start))
  unfolding measure
  walk_ends =
      loop-Ended (enough g) (start_at g start) start (start ∷ []) refl
        (omega (arith, fresh-le-length g.edges [])) start-Walked

-- For a step of the graph, `find_root_cause` answers with the earliest step from which the key came
-- down the edges, by one edge or more and under whatever names it had on the way; and with none
-- exactly if no edge carries it.
pub find_root_cause-Answers :
    (g : DependencyGraph) (failed_step start : ℕ) (key : Text)
    → get g.nodes failed_step ≡ some start
    → Answers g (start, key) (find_root_cause g failed_step key)
unfolding find_root_cause
find_root_cause-Answers g failed_step start key known =
    rw (known, find_root_cause)
      (root-Answers g (start, key) _ _ (walk_ends g (start, key))
        (walk_ends g (start, key)).walked.root)
