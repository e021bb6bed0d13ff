-- ===== src/Engine/Frame.antt =====
-- What running a step's tool keeps: any property that the actions of the step keep one by one.
use agent_tx_protocol.Prelude.{ℕ, List, [], ◌∷◌, Text, if◌then◌else◌, nat_eq}
use agent_tx_protocol.Json.{Value, object, end}
use agent_tx_protocol.Graph.{Dependency}
use agent_tx_protocol.World.{
  StoreCall, UndoAction, StageRequest, ToolCall, ToolResult, output, error, internal, Log,
  call_tool,
}
use agent_tx_protocol.World
use agent_tx_protocol.Engine.Act.{Locked, modify, world}
use agent_tx_protocol.Engine.Types.{
  StepRequest, Resolution, resolved, unresolved, Parsed, parsed, malformed, Parts,
}
use agent_tx_protocol.Engine.Locked.{
  record_undo, record_all, stage_all, attempt_of, add_step, run_tool, resolve_and_run, run_known,
  run_unknown, run_parsed, run_step, is_blank,
}
use agent_tx_protocol.Engine.Keeps.{Keeps, keeps_rules, Keeps-pure, Keeps-bind, Keeps-raise}

-- The actions of the step `step` that keep `P`.
pub record Framed (parts : Parts) (step : ℕ) (P : Locked → Log → Type 0) : Type 0 where
  pub add_step-Keeps :
      (tool : Text) (args : Value) (deps : List Dependency) → Keeps P (add_step step tool args deps)
  pub call_tool-Keeps : (c : ToolCall) → Keeps P (world (call_tool parts.env c))
  pub record_undo-Keeps : (a : UndoAction) → Keeps P (record_undo parts step a)
  pub stage_all-Keeps : (rs : List StageRequest) → Keeps P (modify (stage_all parts step rs))

module _ (parts : Parts) {step : ℕ} {P : Locked → Log → Type 0} (framed : Framed parts step P) where
  grow-Keeps :
      (tool : Text) (args : Value) (deps : List Dependency) → Keeps P (add_step step tool args deps)
  grow-Keeps = framed.add_step-Keeps

  tool-Keeps : (c : ToolCall) → Keeps P (world (call_tool parts.env c))
  tool-Keeps = framed.call_tool-Keeps

  staged-Keeps : (rs : List StageRequest) → Keeps P (modify (stage_all parts step rs))
  staged-Keeps = framed.stage_all-Keeps

  ruleset framed_rules = (keeps_rules, grow-Keeps, tool-Keeps, staged-Keeps)

  record_all-Keeps : (actions : List UndoAction) → Keeps P (record_all parts step actions)
  unfolding record_all
  record_all-Keeps [] = Keeps-pure tt
  record_all-Keeps (a ∷ actions) =
      Keeps-bind _ _ (framed.record_undo-Keeps a) (λ _. record_all-Keeps actions)

  attempt_of-Keeps :
      (args : Value) (deps : List Dependency) (r : ToolResult)
      → Keeps P (attempt_of parts args deps r)
  unfolding attempt_of
  attempt_of-Keeps args deps (output value) = Keeps-pure _
  attempt_of-Keeps args deps (error (World.failed text)) = Keeps-pure _
  attempt_of-Keeps args deps (error (internal e)) = Keeps-raise e

  run_tool-Keeps :
      (tool : Text) (args : Value) (deps : List Dependency)
      → Keeps P (run_tool parts step tool args deps)
  unfolding run_tool
  run_tool-Keeps tool args deps = search (framed_rules, record_all-Keeps, attempt_of-Keeps) depth 14

  resolve_and_run-Keeps :
      (tool : Text) (args : Value) (r : Resolution)
      → Keeps P (resolve_and_run parts step tool args r)
  unfolding resolve_and_run
  resolve_and_run-Keeps tool args (resolved value deps) =
      search (framed_rules, run_tool-Keeps) depth 14
  resolve_and_run-Keeps tool args (unresolved message deps) = search framed_rules depth 14

  run_known-Keeps : (tool : Text) (args : Value) → Keeps P (run_known parts step tool args)
  unfolding run_known
  run_known-Keeps tool args = search (framed_rules, resolve_and_run-Keeps) depth 14

  run_unknown-Keeps :
      (tools : List Text) (tool : Text) (args : Value)
      → Keeps P (run_unknown parts tools step tool args)
  unfolding run_unknown
  run_unknown-Keeps tools tool args = search framed_rules depth 14

  run_parsed-Keeps :
      (tools : List Text) (tool : Text) (p : Parsed) → Keeps P (run_parsed parts tools step tool p)
  unfolding run_parsed
  run_parsed-Keeps tools tool (parsed args) =
      search (framed_rules, run_known-Keeps, run_unknown-Keeps) depth 14
  run_parsed-Keeps tools tool (malformed text) = search framed_rules depth 14

-- Running the tool of a step keeps what its actions keep.
pub run_step-Keeps :
    (parts : Parts) (tools : List Text) (req : StepRequest) {P : Locked → Log → Type 0}
    → Framed parts req.step_id P
    → Keeps P (run_step parts tools req)
unfolding run_step
run_step-Keeps parts tools req framed = run_parsed-Keeps parts framed tools req.tool_name (
    if is_blank req.arguments_json
    then parsed (object end)
    else parts.parse_json req.arguments_json)
