-- ===== src/StateMachine/Policy.antt =====
-- `RollbackPolicy` of engine/state_machine.rs. An `f64` is its 64-bit pattern, and the arithmetic of
-- the floats that the budget uses is a parameter.
use native.Mathlib.Decide.{dec_le}
use agent_tx_protocol.Prelude.{
  ℕ, zero, suc, ◌≤◌, ◌≡◌, Bool, not, ◌&&◌, ◌||◌, ◌++◌, arith, bytes, decimal, ltb, if◌then◌else◌,
  max,
}
use agent_tx_protocol.Errors.{invalid_argument, Result, ok, err}

-- The bit pattern of an f64.
abbrev pub F64 : Type 0
F64 = ℕ

-- The float operations and literals of `validate` and `replay_budget`.
pub record Floats : Type 0 where
  pub from_u32 : ℕ → F64
  pub add : F64 → F64 → F64
  pub mul : F64 → F64 → F64
  pub log2 : F64 → F64
  pub ceil : F64 → F64
  -- `as u64`, which saturates
  pub to_u64 : F64 → ℕ
  pub is_finite : F64 → Bool
  pub le : F64 → F64 → Bool
  pub one : F64
  pub two : F64
  pub tenth : F64
  pub thousand : F64

pub record RollbackPolicy : Type 0 where
  pub max_local_depth : ℕ
  pub max_global_resets : ℕ
  pub replay_budget_factor : F64

abbrev pub max_local_depth_limit : ℕ
max_local_depth_limit = 16

abbrev pub max_global_resets_limit : ℕ
max_global_resets_limit = 16

-- Default for RollbackPolicy
unfoldable pub default_policy : Floats → RollbackPolicy
default_policy fl = record {
  max_local_depth = 2;
  max_global_resets = 1;
  replay_budget_factor = fl.two;
}

-- RollbackPolicy::validate
unfoldable pub validate : Floats → RollbackPolicy → Result (Unit {0})
validate fl p =
    if ltb max_local_depth_limit p.max_local_depth
    then err
        (invalid_argument (bytes "max_local_depth must be <= " ++ decimal max_local_depth_limit))
    else if ltb max_global_resets_limit p.max_global_resets
    then err (
        invalid_argument (bytes "max_global_resets must be <= " ++ decimal max_global_resets_limit))
    else if not (fl.is_finite p.replay_budget_factor)
        || not (fl.le fl.tenth p.replay_budget_factor && fl.le p.replay_budget_factor fl.thousand)
    then err (invalid_argument (bytes "replay_budget_factor must be within [0.1, 1000]"))
    else ok tt

-- RollbackPolicy::replay_budget
unfoldable pub replay_budget : Floats → RollbackPolicy → ℕ → ℕ
replay_budget fl p n =
    let n' = fl.from_u32 (max n 1) in
    let budget = fl.mul (fl.mul p.replay_budget_factor n') (fl.ceil (fl.log2 (fl.add n' fl.one))) in
    max (fl.to_u64 (fl.ceil budget)) 1

-- The largest budget of a transaction whose furthest step is at most `n`.
unfoldable pub peak_budget : Floats → RollbackPolicy → ℕ → ℕ
unfolding replay_budget
peak_budget fl p zero = replay_budget fl p 0
peak_budget fl p (suc n) = max (replay_budget fl p (suc n)) (peak_budget fl p n)

pub replay_budget-le-peak :
    (fl : Floats) (p : RollbackPolicy) (m n : ℕ) → m ≤ n → replay_budget fl p m ≤ peak_budget fl p n
unfolding peak_budget
replay_budget-le-peak fl p m zero h = let e : m ≡ 0 = omega arith in rw e (omega arith)
replay_budget-le-peak fl p m (suc n) h = elim (dec_le m n) [
  | yes below ↦ omega (arith, replay_budget-le-peak fl p m n below)
  | no last ↦ let e : m ≡ suc n = omega arith in rw e (omega arith)
]
