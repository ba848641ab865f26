-- ===== src/Bitcoin/Interpreter.antt =====
-- src/payment_communities/bitcoin/interpreter.py: `ScriptInterpreter.execute`.
pub mod Blocks
use unito_blockchain_25_26_p.Base.{
  Bool, true, Option, none, some, List, [], ◌∷◌, Bytes, if◌then◌else◌,
}
use unito_blockchain_25_26_p.Errors.{Result, ok, err, script_verification, ◌>>=◌}
use unito_blockchain_25_26_p.Bitcoin.Script.{Op, Script}
use unito_blockchain_25_26_p.Bitcoin.Machine.{
  SpendContext, Machine, cast_to_bool, is_executing, handle_control_flow,
}
use unito_blockchain_25_26_p.Bitcoin.Dispatch.{dispatch_opcode}

-- One turn of the loop.
unfoldable pub step : SpendContext → Script → Op → Machine → Result Machine
unfolding handle_control_flow is_executing dispatch_opcode
step ctx script op m = elim (handle_control_flow m op) [
  | some handled ↦ handled
  | none ↦
      if is_executing m.exec_stack
      then (dispatch_opcode ctx script op m.eval_stack >>= λ stack.
          ok (record m { eval_stack = stack }))
      else ok m
]

-- The loop over the operations that are left.
unfoldable pub run : SpendContext → Script → Script → Machine → Result Machine
run ctx script [] m = ok m
run ctx script (op ∷ ops) m = step ctx script op m >>= run ctx script ops

-- The checks after the loop.
finish : Machine → Result Bool
unfolding cast_to_bool
finish m = elim m.exec_stack [
  | _ ∷ _ ↦ err script_verification
  | [] ↦ elim m.eval_stack [
    | [] ↦ err script_verification
    | top ∷ rest ↦ if cast_to_bool top then ok true else err script_verification
  ]
]

-- The loop over `ops`, and the checks after it. The script is what a signature commits to.
unfoldable pub execute_from : SpendContext → Script → Script → List Bytes → Result Bool
unfolding run finish
execute_from ctx script ops stack =
    run ctx script ops (record { eval_stack = stack; exec_stack = [] }) >>= finish

unfoldable pub execute : SpendContext → Script → List Bytes → Result Bool
unfolding execute_from
execute ctx script stack = execute_from ctx script script stack
