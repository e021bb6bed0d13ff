-- ===== src/Grpc/Limits.antt =====
-- What the checks on a step's request promise the engine.
use agent_tx_protocol.Prelude.{
  ◌≤◌, ◌≡◌, refl, ap, ◌⊎◌, inl, inr, Bool, true, false, ◌||◌, Option, none, some, [], ◌∷◌, Text,
  length, ltb, nat_eq, ◌==◌, if◌then◌else◌, arith,
}
use agent_tx_protocol.Errors.{invalid_status}
use agent_tx_protocol.World.{Log}
use agent_tx_protocol.Engine.Types.{StepRequest, Parts, Engine}
use agent_tx_protocol.Engine.Operations
use agent_tx_protocol.Grpc.{
  Status, Reply, refused, ExecuteStepResponse, invalid, or_check, check_sizes, max_arguments_bytes,
  max_context_bytes, max_tool_name_bytes, require_tx_id, check_step, execute_step, step_response,
  Printer, try_answered, checked,
}

-- The limits on a request.
pub record IsWithinLimits (req : StepRequest) : Type 0 where
  pub tx_id : 1 ≤ length req.tx_id
  pub step_id : 1 ≤ req.step_id
  pub tool_name : (1 ≤ length req.tool_name) × (length req.tool_name ≤ max_tool_name_bytes)
  pub arguments : length req.arguments_json ≤ max_arguments_bytes
  pub context : length req.raw_context ≤ max_context_bytes

-- The refusal of a request beyond the limits, or no refusal within them.
Checked : StepRequest → Option Status → Type 0
Checked req none = IsWithinLimits req
Checked req (some status) = (status.code ≡ invalid_status) × (¬ IsWithinLimits req)

if-Checked :
    (req : StepRequest) (b : Bool) (message : Text) (o : Option Status)
    → (b ≡ true → ¬ IsWithinLimits req)
    → (b ≡ false → Checked req o)
    → Checked req (if b then some (invalid message) else o)
unfolding Checked
if-Checked req true message o beyond within = (refl, beyond refl)
if-Checked req false message o beyond within = within refl

check_sizes-Checked : (req : StepRequest) → 1 ≤ length req.tx_id → Checked req (check_sizes req)
unfolding check_sizes Checked
check_sizes-Checked req id =
    if-Checked req (req.step_id == 0) _ _ (λ h w. ground (arith, w.step_id))
      λ step.
        if-Checked req (length req.tool_name == 0 || ltb max_tool_name_bytes (length req.tool_name))
          _ _ (λ h w. ground (arith, w.tool_name))
          λ tool.
            if-Checked req (ltb max_arguments_bytes (length req.arguments_json)) _ _
              (λ h w. ground (arith, w.arguments))
              λ arguments.
                if-Checked req (ltb max_context_bytes (length req.raw_context)) _ _
                  (λ h w. ground (arith, w.context))
                  λ context. record {
                    tx_id = id;
                    step_id = ground arith;
                    tool_name = ground arith;
                    arguments = ground arith;
                    context = ground arith;
                  }

no_id-Checked :
    (req : StepRequest) (id : Text)
    → req.tx_id ≡ id
    → Checked req (or_check (require_tx_id id) (check_sizes req))
unfolding require_tx_id Checked
no_id-Checked req [] e = (refl, λ w. omega (arith, ap length e, w.tx_id))
no_id-Checked req (b ∷ id) e = check_sizes-Checked req (rw e (omega arith))

check_step-Checked : (req : StepRequest) → Checked req (check_step req)
unfolding check_step
check_step-Checked req = no_id-Checked req req.tx_id refl

-- What a step's request comes to.
abbrev pub Served :
    Printer → Parts → StepRequest → Engine → Log → Reply ExecuteStepResponse × Engine × Log → Type 0
Served to_string parts req engine log result =
    (IsWithinLimits req
      × (result
          ≡ try_answered (step_response to_string) (Operations.execute_step parts req engine log)))
    ⊎ ((¬ IsWithinLimits req)
        × ((status : Status) × (status.code ≡ invalid_status)
            × (result ≡ (refused status, engine, log))))

serve :
    (to_string : Printer) (parts : Parts) (req : StepRequest) (engine : Engine) (log : Log)
    (o : Option Status)
    → Checked req o
    → Served to_string parts req engine log (
        checked o
          (λ e l. try_answered (step_response to_string) (Operations.execute_step parts req e l))
          engine
          log)
unfolding Checked
serve to_string parts req engine log none h = inl (h, refl)
serve to_string parts req engine log (some status) h = inr (h.1, (status, h.0, refl))

-- The service hands the engine the requests within the limits and no others: it answers those with
-- the engine's answer, and refuses the others as invalid arguments, with the engine untouched.
pub execute_step-Served :
    (to_string : Printer) (parts : Parts) (req : StepRequest) (engine : Engine) (log : Log)
    → Served to_string parts req engine log (execute_step parts to_string req engine log)
unfolding execute_step
execute_step-Served to_string parts req engine log =
    serve to_string parts req engine log (check_step req) (check_step-Checked req)
