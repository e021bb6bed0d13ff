-- ===== src/Storage/Keys.antt =====
-- `keys::prefix_end` of storage/snapshot.rs: the end of the range of the keys with a prefix.
use mathlib.Core.List.{reverse, reverse-cons, reverse-append}
use mathlib.Core.Path.{subst}
use mathlib.Core.Bool.{false≢true}
use agent_tx_protocol.Prelude.{
  ℕ, zero, suc, ◌+◌, ◌<◌, ◌≡◌, refl, sym, ap, ◌∙◌, ◌↔◌, inl, inr, Bool, true, false, ◌&&◌, ◌||◌,
  Option, none, some, List, [], ◌∷◌, ◌++◌, ltb, if◌then◌else◌, length, any, All, nat_eq, ◌==◌,
  arith, unwrap_or, Option-cases, Bool-cases,
}

-- The loop: the last byte is popped until one can be counted up.
unfoldable pub pop_loop : List ℕ → Option (List ℕ)
pop_loop [] = none
pop_loop (last ∷ rest) = if ltb last 255 then some (reverse ((last + 1) ∷ rest)) else pop_loop rest

unfoldable pub max_bytes : ℕ → List ℕ
max_bytes zero = []
max_bytes (suc n) = 255 ∷ max_bytes n

-- keys::prefix_end
unfoldable pub prefix_end : List ℕ → List ℕ
unfolding pop_loop max_bytes
prefix_end prefix = unwrap_or (pop_loop (reverse prefix)) (max_bytes (length prefix + 1))

-- The order of keys in the store, and `starts_with`.
unfoldable pub key_lt : List ℕ → List ℕ → Bool
key_lt _ [] = false
key_lt [] (y ∷ ys) = true
key_lt (x ∷ xs) (y ∷ ys) = ltb x y || (x == y && key_lt xs ys)

unfoldable pub starts_with : List ℕ → List ℕ → Bool
starts_with [] key = true
starts_with (x ∷ xs) [] = false
starts_with (x ∷ xs) (y ∷ ys) = x == y && starts_with xs ys

abbrev pub AreBytes : List ℕ → Type 0
AreBytes key = All (λ b. b < 256) key

-- The loop from the first byte on.
abbrev counted_up : ℕ → Option (List ℕ) → Option (List ℕ)
counted_up b (some e) = some (b ∷ e)
counted_up b none = if ltb b 255 then some ((b + 1) ∷ []) else none

snoc-reverse : (x : ℕ) (xs : List ℕ) (b : ℕ) → reverse (x ∷ (xs ++ b ∷ [])) ≡ b ∷ reverse (x ∷ xs)
snoc-reverse x xs b = reverse-append (x ∷ xs) (b ∷ [])

pop_loop-snoc : (xs : List ℕ) (b : ℕ) → pop_loop (xs ++ b ∷ []) ≡ counted_up b (pop_loop xs)
unfolding pop_loop
pop_loop-snoc [] b = refl
pop_loop-snoc (x ∷ xs) b = elim (Bool-cases (ltb x 255)) [
  | inl small ↦ rw (small, pop_loop) (ap (λ e. some e) (snoc-reverse (x + 1) xs b))
  | inr full ↦ rw (full, pop_loop) (pop_loop-snoc xs b)
]

unfoldable bump : List ℕ → Option (List ℕ)
bump [] = none
bump (b ∷ bs) = counted_up b (bump bs)

pop_loop-bump : (p : List ℕ) → pop_loop (reverse p) ≡ bump p
unfolding bump pop_loop
pop_loop-bump [] = refl
pop_loop-bump (b ∷ bs) =
    ap pop_loop (reverse-cons b bs)
    ∙ pop_loop-snoc (reverse bs) b
    ∙ ap (counted_up b) (pop_loop-bump bs)

counted_up-none :
    (b : ℕ) (o : Option (List ℕ)) → counted_up b o ≡ none → (o ≡ none) × (ltb b 255 ≡ false)
counted_up-none b none h = ground arith
counted_up-none b (some e) h = cc

-- a prefix that cannot be counted up is all 0xFF
full-range :
    (p key : List ℕ)
    → bump p ≡ none
    → AreBytes p
    → AreBytes key
    → (starts_with p key ≡ true) ↔ (key_lt key p ≡ false)
unfolding bump starts_with key_lt
full-range [] key h hp hk = (λ _. refl, λ _. refl)
full-range (b ∷ bs) [] h hp hk = (λ x. cc, λ x. cc)
full-range (b ∷ bs) (c ∷ cs) h hp hk =
    let parts = counted_up-none b (bump bs) h in
    ground (arith, parts.1, hp.0, hk.0, full-range bs cs parts.0 hp.1 hk.1)

counted_up-last :
    (b : ℕ) (e : List ℕ) → counted_up b none ≡ some e → (ltb b 255 ≡ true) × ((b + 1) ∷ [] ≡ e)
counted_up-last b e h = ground arith

counted_up-more : (b : ℕ) (f e : List ℕ) → counted_up b (some f) ≡ some e → b ∷ f ≡ e
counted_up-more b f e h = cc

-- the end of a range at the first byte, and further on
range-last :
    (b c : ℕ) (bs cs : List ℕ)
    → bump bs ≡ none
    → AreBytes bs
    → AreBytes cs
    → (starts_with (b ∷ bs) (c ∷ cs) ≡ true)
      ↔ ((key_lt (c ∷ cs) (b ∷ bs) ≡ false) × (key_lt (c ∷ cs) ((b + 1) ∷ []) ≡ true))
unfolding starts_with key_lt
range-last b c bs cs h hp hk = ground (arith, full-range bs cs h hp hk)

range-more :
    (b c : ℕ) (bs cs f : List ℕ)
    → (starts_with bs cs ≡ true) ↔ ((key_lt cs bs ≡ false) × (key_lt cs f ≡ true))
    → (starts_with (b ∷ bs) (c ∷ cs) ≡ true)
      ↔ ((key_lt (c ∷ cs) (b ∷ bs) ≡ false) × (key_lt (c ∷ cs) (b ∷ f) ≡ true))
unfolding starts_with key_lt
range-more b c bs cs f h = ground arith

Bounds : List ℕ → List ℕ → List ℕ → Type 0
Bounds p key e = (starts_with p key ≡ true) ↔ ((key_lt key p ≡ false) × (key_lt key e ≡ true))

bump-Bounds : (p key e : List ℕ) → bump p ≡ some e → AreBytes p → AreBytes key → Bounds p key e
unfolding bump starts_with key_lt Bounds
bump-Bounds [] key e h hp hk = cc
bump-Bounds (b ∷ bs) [] e h hp hk = (λ x. cc, λ x. cc)
bump-Bounds (b ∷ bs) (c ∷ cs) e h hp hk = elim (Option-cases (bump bs)) [
  | inl full ↦
      let last = counted_up-last b e (sym (ap (counted_up b) full) ∙ h) in
      subst (Bounds (b ∷ bs) (c ∷ cs)) last.1 (range-last b c bs cs full hp.1 hk.1)
  | inr (f, more) ↦
      let longer = counted_up-more b f e (sym (ap (counted_up b) more) ∙ h) in
      subst (Bounds (b ∷ bs) (c ∷ cs)) longer
        (range-more b c bs cs f (bump-Bounds bs cs f more hp.1 hk.1))
]

bump-full : (p : List ℕ) → bump p ≡ none → any (λ b. ltb b 255) p ≡ false
unfolding bump any
bump-full [] h = refl
bump-full (b ∷ bs) h =
    let parts = counted_up-none b (bump bs) h in rw parts.1 (bump-full bs parts.0)

bump-small : (p : List ℕ) → any (λ b. ltb b 255) p ≡ true → (e : List ℕ) × (bump p ≡ some e)
bump-small p h = elim (Option-cases (bump p)) [
  | inl full ↦ absurd (false≢true (sym (bump-full p full) ∙ h))
  | inr up ↦ up
]

-- The range from a prefix to its end holds exactly the keys that start with the prefix, for any
-- prefix that has a byte below 0xFF.
pub prefix_end-bounds :
    (p key : List ℕ)
    → AreBytes p
    → AreBytes key
    → any (λ b. ltb b 255) p ≡ true
    → (starts_with p key ≡ true) ↔ ((key_lt key p ≡ false) × (key_lt key (prefix_end p) ≡ true))
unfolding Bounds prefix_end
prefix_end-bounds p key hp hk small =
    let (e, up) = bump-small p small in rw (pop_loop-bump p) (rw up (bump-Bounds p key e up hp hk))
