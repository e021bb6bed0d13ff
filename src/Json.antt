-- ===== src/Json.antt =====
-- serde_json's `Value` as the program matches on it. A number is known by its identity: equal
-- numbers have one code.
use mathlib.Core.Path.{ap₂}
use agent_tx_protocol.Prelude.{
  ℕ, Bool, true, false, ◌&&◌, List, [], ◌∷◌, ◌++◌, Text, nat_eq, list_eq, ◌==◌, if◌then◌else◌,
  Option, none, some, ◌≡◌, refl, ◌↔◌, arith, Eq,
}

mutual
  pub data Value : Type 0 where
    null : Value
    boolean : Bool → Value
    number : ℕ → Value
    string : Text → Value
    array : Items → Value
    object : Fields → Value

  pub data Items : Type 0 where
    nil : Items
    cons : Value → Items → Items

  pub data Fields : Type 0 where
    end : Fields
    field : Text → Value → Fields → Fields

abbrev bool_eq : Bool → Bool → Bool
bool_eq true b = b
bool_eq false true = false
bool_eq false false = true

-- PartialEq of Value
unfoldable mutual
  pub same_value : Value → Value → Bool
  same_value null null = true
  same_value (boolean a) (boolean b) = bool_eq a b
  same_value (number n) (number m) = n == m
  same_value (string s) (string t) = s == t
  same_value (array xs) (array ys) = same_items xs ys
  same_value (object fs) (object gs) = same_fields fs gs
  same_value _ _ = false

  pub same_items : Items → Items → Bool
  same_items nil nil = true
  same_items (cons x xs) (cons y ys) = same_value x y && same_items xs ys
  same_items _ _ = false

  pub same_fields : Fields → Fields → Bool
  same_fields end end = true
  same_fields (field k v fs) (field j w gs) = k == j && (same_value v w && same_fields fs gs)
  same_fields _ _ = false

and_left : (a b : Bool) → (a && b) ≡ true → a ≡ true
and_left a b h = ground arith

and_right : (a b : Bool) → (a && b) ≡ true → b ≡ true
and_right a b h = ground arith

and_intro : (a b : Bool) → a ≡ true → b ≡ true → (a && b) ≡ true
and_intro a b h k = ground arith

field_path :
    {k j : Text} {v w : Value} {fs gs : Fields}
    → k ≡ j
    → v ≡ w
    → fs ≡ gs
    → field k v fs ≡ field j w gs
field_path p q r = cc

mutual
  unfolding same_value

  same_value_iff : (v w : Value) → (same_value v w ≡ true) ↔ (v ≡ w)
  same_value_iff (boolean true) (boolean true) = (λ _. refl, λ _. refl)
  same_value_iff (boolean true) (boolean false) = ground arith
  same_value_iff (boolean false) (boolean true) = ground arith
  same_value_iff (boolean false) (boolean false) = (λ _. refl, λ _. refl)
  same_value_iff (number n) (number m) = ground (arith, nat_eq.same_iff n m)
  same_value_iff (string s) (string t) = ground (arith, (list_eq {A = ℕ}).same_iff s t)
  same_value_iff (array xs) (array ys) = ground (arith, same_items_iff xs ys)
  same_value_iff (object fs) (object gs) = ground (arith, same_fields_iff fs gs)
  same_value_iff null null = (λ _. refl, λ _. refl)
  same_value_iff _ _ = ground arith

  same_items_iff : (xs ys : Items) → (same_items xs ys ≡ true) ↔ (xs ≡ ys)
  same_items_iff nil nil = (λ _. refl, λ _. refl)
  same_items_iff (cons x xs) (cons y ys) = (
    λ h.
        ap₂ cons ((same_value_iff x y).0 (and_left _ _ h))
          ((same_items_iff xs ys).0 (and_right _ _ h)),
    λ e. and_intro _ _ ((same_value_iff x y).1 (cc)) ((same_items_iff xs ys).1 (cc)),
  )
  same_items_iff _ _ = ground arith

  same_fields_iff : (fs gs : Fields) → (same_fields fs gs ≡ true) ↔ (fs ≡ gs)
  same_fields_iff end end = (λ _. refl, λ _. refl)
  same_fields_iff (field k v fs) (field j w gs) = (
    λ h.
        let key : k ≡ j = ((list_eq {A = ℕ}).same_iff k j).0 (and_left _ _ h) in
        let value : v ≡ w = (same_value_iff v w).0 (and_left _ _ (and_right _ _ h)) in
        let rest : fs ≡ gs = (same_fields_iff fs gs).0 (and_right _ _ (and_right _ _ h)) in
        field_path key value rest,
    λ e.
        and_intro _ _ (((list_eq {A = ℕ}).same_iff k j).1 (cc))
          (and_intro _ _ ((same_value_iff v w).1 (cc)) ((same_fields_iff fs gs).1 (cc))),
  )
  same_fields_iff _ _ = ground arith

pub value_same_iff : (v w : Value) → (same_value v w ≡ true) ↔ (v ≡ w)
value_same_iff v w = same_value_iff v w

instance abbrev pub value_eq : Eq Value
value_eq = record { same = same_value; same_iff = value_same_iff }

-- Value::get with a string index
unfoldable pub field_of : Fields → Text → Option Value
field_of end k = none
field_of (field j v fs) k = if j == k then some v else field_of fs k

unfoldable pub member : Value → Text → Option Value
unfolding field_of
member (object fs) k = field_of fs k
member _ k = none

abbrev pub Leaf : Type 0
Leaf = Text × Value

-- The `walk` of `scalar_leaves`: an array hands its key on to its items.
unfoldable mutual
  pub walk : Text → Value → List Leaf
  walk key (object fs) = walk_fields fs
  walk key (array xs) = walk_items key xs
  walk key scalar = (key, scalar) ∷ []

  pub walk_items : Text → Items → List Leaf
  walk_items key nil = []
  walk_items key (cons x xs) = walk key x ++ walk_items key xs

  pub walk_fields : Fields → List Leaf
  walk_fields end = []
  walk_fields (field k v fs) = walk k v ++ walk_fields fs

unfoldable pub scalar_leaves : Value → List Leaf
unfolding walk
scalar_leaves v = walk [] v
