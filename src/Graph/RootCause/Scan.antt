-- ===== src/Graph/RootCause/Scan.antt =====
-- One round of the walk: it ends sooner with each round, and keeps the invariant of the walk.
use mathlib.Core.Path.{subst}
use native.Mathlib.Decide.{dec_le}
use agent_tx_protocol.Prelude.{
  ℕ, suc, ◌+◌, ◌≤◌, ◌<◌, ◌≡◌, refl, ap, sym, true, false, ◌⊎◌, inl, inr, Option, none, some, List,
  [], ◌∷◌, arith, if◌then◌else◌, ◌==◌, pair_eq, nat_eq, list_eq, Text, length, contains, Elem, All,
  contains_iff, Bool-cases,
}
use agent_tx_protocol.Graph.{DependencyGraph, Edge}
use agent_tx_protocol.Graph.RootCause.{
  Point, carried_input_keys, Search, link, follows, min_root, visit, scan,
}
use agent_tx_protocol.Graph.RootCause.Relation.{Carries, via, Upstream, first, next, step_of}

-- How many edges lead to a point not yet visited.
unfoldable pub fresh : List Edge → List Point → ℕ
fresh [] seen = 0
fresh (e ∷ es) seen = if contains seen (link e) then fresh es seen else suc (fresh es seen)

fresh-cons-le :
    (es : List Edge) (p : Point) (seen : List Point) → fresh es (p ∷ seen) ≤ fresh es seen
unfolding fresh
fresh-cons-le [] p seen = omega arith
fresh-cons-le (e ∷ es) p seen = ground (arith, fresh-cons-le es p seen)

link_met : {e x : Edge} → e ≡ x → (link e == link x) ≡ true
link_met {e} {x} same = (pair_eq.same_iff (link e) (link x)).1 (ap link same)

fresh-cons-lt :
    (es : List Edge) (e : Edge) (seen : List Point)
    → Elem e es
    → contains seen (link e) ≡ false
    → fresh es (link e ∷ seen) < fresh es seen
unfolding fresh
fresh-cons-lt [] e seen m h = absurd m
fresh-cons-lt (x ∷ es) e seen (inl same) h =
    let met : (link e == link x) ≡ true = link_met same in
    let unseen : contains seen (link x) ≡ false =
      subst (λ y. contains seen (link y) ≡ false) same h in
    rw (met, unseen) (omega (arith, fresh-cons-le es (link e) seen))
fresh-cons-lt (x ∷ es) e seen (inr m) h =
    ground (arith, fresh-cons-lt es e seen m h, fresh-cons-le es (link e) seen)

unfoldable pub measure : DependencyGraph → Search → ℕ
measure g s = length s.frontier + fresh g.edges s.visited

visit-measure :
    (g : DependencyGraph) (s : Search) (e : Edge)
    → Elem e g.edges
    → measure g (visit g s e) ≤ measure g s
unfolding measure visit
visit-measure g s e m = ground (arith, fresh-cons-lt g.edges e s.visited m)

pub scan-measure :
    (g : DependencyGraph) (carried : List Text) (node : ℕ) (es : List Edge) (s : Search)
    → All (λ e. Elem e g.edges) es
    → measure g (scan g carried node es s) ≤ measure g s
unfolding scan
scan-measure g carried node [] s h = omega arith
scan-measure g carried node (e ∷ es) s h = elim (Bool-cases (follows carried node e)) [
  | inl hit ↦
      rw hit
        (omega (arith, scan-measure g carried node es (visit g s e) h.1, visit-measure g s e h.0))
  | inr miss ↦ rw miss (scan-measure g carried node es s h.1)
]

abbrev pub RootIs : DependencyGraph → List Point → Option ℕ → Type 0
RootIs g seen none = seen ≡ []
RootIs g seen (some r) =
    ((q : Point) × Elem q seen × (step_of g q ≡ r)) × ((q : Point) → Elem q seen → r ≤ step_of g q)

-- Where the edge `x` into a reached point `a` stands: `a` waits, the end of `x` was visited, or `x`
-- is among the edges `es` into `p` that are still to be looked at.
pub data Pending (front seen : List Point) (p : Point) (es : List Edge) (a : Point) (x : Edge)
    : Type 0 where
  waits : Elem a front → Pending front seen p es a x
  reached : Elem (link x) seen → Pending front seen p es a x
  later : a ≡ p → Elem x es → Pending front seen p es a x

settle :
    {front seen : List Point} {a p : Point} {x e : Edge} {es : List Edge}
    → Pending front seen p (e ∷ es) a x
    → Elem (link e) seen
    → Pending front seen p es a x
settle (waits f) m = waits f
settle (reached v) m = reached v
settle {seen = seen} (later at (inl same)) m =
    reached (subst (λ y. Elem (link y) seen) (sym same) m)
settle (later at (inr rest)) m = later at rest

widen :
    {front seen : List Point} {a p : Point} {x e : Edge} {es : List Edge}
    → Pending front seen p (e ∷ es) a x
    → Pending (link e ∷ front) (link e ∷ seen) p es a x
widen (waits f) = waits (inr f)
widen (reached v) = reached (inr v)
widen (later at (inl same)) = reached (inl (ap link same))
widen (later at (inr rest)) = later at rest

skip :
    {front seen : List Point} {a p : Point} {x e : Edge} {es : List Edge}
    → Pending front seen p (e ∷ es) a x
    → (a ≡ p → ¬ (x ≡ e))
    → Pending front seen p es a x
skip (waits f) out = waits f
skip (reached v) out = reached v
skip (later at (inl same)) out = absurd (out at same)
skip (later at (inr rest)) out = later at rest

-- The walk from `start` while the edges `es` into `p` are still to be looked at.
pub record Walked (g : DependencyGraph) (start p : Point) (es : List Edge) (s : Search)
    : Type 0 where
  pub sound : (q : Point) → Elem q s.visited → Upstream g start q
  pub queued : (q : Point) → Elem q s.frontier → (q ≡ start) ⊎ Elem q s.visited
  pub closed :
      (a : Point) (e : Edge)
      → (a ≡ start) ⊎ Elem a s.visited
      → Elem e g.edges
      → follows (carried_input_keys g a) a.0 e ≡ true
      → Pending s.frontier s.visited p es a e
  pub root : RootIs g s.visited s.root

-- The root after a point is added.
RootIs-min :
    (g : DependencyGraph) (seen : List Point) (root : Option ℕ) (q : Point)
    → RootIs g seen root
    → RootIs g (q ∷ seen) (some (min_root root (step_of g q)))
RootIs-min g [] none q h =
    ((q, inl refl, refl), λ x m. elim m [ inl e ↦ rw e (omega arith) | inr n ↦ absurd n ])
RootIs-min g (y ∷ seen) none q h = cc
RootIs-min g seen (some r) q ((x, m, e), least) = (
  elim (dec_le r (step_of g q)) [
    | yes le ↦ (x, inr m, omega arith)
    | no gt ↦ (q, inl refl, omega arith)
  ],
  λ y n. elim n [ inl same ↦ rw same (omega arith) | inr old ↦ omega (arith, least y old) ],
)

module _ (g : DependencyGraph) (start p : Point) where
  link-Upstream :
      (e : Edge) (s : Search) {es : List Edge}
      → (p ≡ start) ⊎ Elem p s.visited
      → Elem e g.edges
      → follows (carried_input_keys g p) p.0 e ≡ true
      → Walked g start p es s
      → Upstream g start (link e)
  link-Upstream e s (inl at) m hit w =
      first (subst (λ x. Carries g x (link e)) at (via e m hit refl))
  link-Upstream e s (inr old) m hit w = next (w.sound p old) (via e m hit refl)

  visit-Walked :
      (e : Edge) (es : List Edge) (s : Search)
      → (p ≡ start) ⊎ Elem p s.visited
      → Elem e g.edges
      → follows (carried_input_keys g p) p.0 e ≡ true
      → Walked g start p (e ∷ es) s
      → Walked g start p es (visit g s e)
  unfolding visit
  visit-Walked e es s at_p m hit w = elim (Bool-cases (contains s.visited (link e))) [
    | inl old ↦ rw old (record {
      sound = w.sound;
      queued = w.queued;
      closed =
          λ a x ha mx fx. settle (w.closed a x ha mx fx) ((contains_iff s.visited (link e)).0 old);
      root = w.root;
    })
    | inr new ↦ rw new (record {
      sound = λ q mq. elim mq [
        | inl same ↦ subst (Upstream g start) (sym same) (link-Upstream e s at_p m hit w)
        | inr old ↦ w.sound q old
      ];
      queued = λ q mq. ground (arith, w.queued q);
      closed = λ a x ha mx fx. elim ha [
        | inl at ↦ widen (w.closed a x (inl at) mx fx)
        | inr (inl same) ↦ waits (inl same)
        | inr (inr old) ↦ widen (w.closed a x (inr old) mx fx)
      ];
      root = RootIs-min g s.visited s.root (link e) w.root;
    })
  ]

  visited-visit :
      (s : Search) (e : Edge) (q : Point) → Elem q s.visited → Elem q (visit g s e).visited
  unfolding visit
  visited-visit s e q h = ground arith

  pub scan-Walked :
      (es : List Edge) (s : Search)
      → (p ≡ start) ⊎ Elem p s.visited
      → All (λ e. Elem e g.edges) es
      → Walked g start p es s
      → Walked g start p [] (scan g (carried_input_keys g p) p.0 es s)
  unfolding scan
  scan-Walked [] s at_p m w = w
  scan-Walked (e ∷ es) s at_p m w = elim (Bool-cases (follows (carried_input_keys g p) p.0 e)) [
    | inl hit ↦ rw hit (
        scan-Walked es (visit g s e)
          (elim at_p [ inl at ↦ inl at | inr old ↦ inr (visited-visit s e p old) ]) m.1
          (visit-Walked e es s at_p m.0 hit w))
    | inr miss ↦ rw miss (
        scan-Walked es s at_p m.1 (record {
          sound = w.sound;
          queued = w.queued;
          closed =
              λ a x ha mx fx. skip (w.closed a x ha mx fx) (λ at same. cc (fx, miss, at, same));
          root = w.root;
        }))
  ]
