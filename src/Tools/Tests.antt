-- ===== src/Tools/Tests.antt =====
-- A registration and a record of evidence at concrete inputs.
use fx_rs.Base.{
  ap, arith, length, List, ℕ, ◌≡◌, true, false, refl, some, [], ◌∷◌, ◌++◌, Text, text, text_eq, ok,
  err,
}
use fx_rs.Base.Int.{pos}
use fx_rs.Permission.Engine.{ToolEffect}
use fx_rs.Permission.FilePath.{components, split, parse_piece, parse_pieces, parse_relative}
use fx_rs.Tools.Evidence.{ReadEvidence, lookup, Write, run}
use fx_rs.Tools.Evidence.History.{lookup-run}
use fx_rs.Tools.Registry.{ToolRegistry, find_tool, register, advertisements}
use fx_rs.Tools.Registry.Order.{AllFound, registered, register-advertisements}
use fx_rs.Tools.Types.{Tool, ToolPreparation, ToolError}

abbrev tool : Text → Tool ℕ Text
tool name = record {
  name = name;
  description = text "a tool";
  input_schema = text "{}";
  effect = λ arguments. ok ToolEffect.read;
  project_context_targets = λ arguments w. ok [];
  prepare = λ arguments w. (ok (ToolPreparation.direct [] false), w);
  execute = λ arguments. record { pending = []; finish = λ w. (err ToolError.cancelled, w) };
}

abbrev registry : ToolRegistry ℕ Text
registry = record { tools = (text "read", tool (text "read")) ∷ []; order = text "read" ∷ [] }

register-advertisements_example :
    let (result, registry') = register (tool (text "write")) registry in
    AllFound registry'.tools registry'.order
    × (advertisements registry'
        ≡ advertisements registry ++ registered (tool (text "write")) result)
unfolding find_tool text_eq
register-advertisements_example =
    register-advertisements (tool (text "write")) registry
      (AllFound.cons (text "read") [] refl AllFound.nil)

abbrev evidence : ReadEvidence
evidence = record {
  modified_ns = pos 7;
  content_hash = 1 ∷ 2 ∷ [];
  model_view_covers_full_file = true;
  snapshot_covers_full_file = true;
}

abbrev other_file : List Write
other_file = Write.records (text "b") evidence ∷ []

b_elsewhere : ¬ (components (text "b") ≡ components (text "a//c"))
unfolding components split parse_piece parse_pieces parse_relative text_eq
b_elsewhere h = omega (arith, ap length h)

-- The path of the write is `a/c`, and that of the lookup `a//c`.
lookup-run_example :
    (lookup
        (run (other_file ++ (Write.records (text "a/c") evidence ∷ other_file)) [])
        (text "a//c")
      ≡ some evidence)
    × (lookup (run other_file []) (text "a//c") ≡ lookup [] (text "a//c"))
unfolding components split parse_piece parse_pieces parse_relative text_eq
lookup-run_example =
    lookup-run other_file other_file (Write.records (text "a/c") evidence) [] (text "a//c") refl
      (b_elsewhere, tt)
