-- ===== src/Tools/Registry.antt =====
-- The registry of tools (crates/fx-core/src/tool.rs, lines 320 to 382). The map is an association
-- list by the names; JSON is a parameter.
pub mod Order
use fx_rs.Base.{
  ℕ, Bool, true, false, not, Option, none, some, List, [], ◌∷◌, ◌++◌, Text, text, text_eq,
  if◌then◌else◌, Result, ok, err, length, is_nil, ◌>>=◌, ◌>>◌, refuse_if,
}
use fx_rs.Gateway.Types.{ToolAdvertisement, ToolAdvertisementKind}
use fx_rs.Message.{ToolCall}
use fx_rs.Tools.Types.{Tool, ToolError}

-- What the registry uses of `serde_json`.
pub record Json (V : Type 0) : Type 0 where
  pub parse : Text → Result Text V
  pub is_object : V → Bool

pub data RegistryError : Type 0 where
  duplicate unknown : Text → RegistryError

unfoldable pub registry_error_text : RegistryError → Text
registry_error_text (RegistryError.duplicate name) =
    text "tool `" ++ (name ++ text "` is already registered")
registry_error_text (RegistryError.unknown name) =
    text "tool `" ++ (name ++ text "` is not registered")

pub record ToolRegistry (W V : Type 0) : Type 0 where
  pub tools : List (Text × Tool W V)
  pub order : List Text

-- `map_err(|error| ToolError::InvalidArguments(error.to_string()))`.
abbrev invalid : {E A : Type 0} → (E → Text) → Result E A → Result ToolError A
invalid show (ok a) = ok a
invalid show (err e) = err (ToolError.invalid_arguments (show e))

module _ {W V : Type 0} where
  unfoldable pub find_tool : List (Text × Tool W V) → Text → Option (Tool W V)
  find_tool [] name = none
  find_tool ((key, tool) ∷ tools) name =
      if text_eq key name then some tool else find_tool tools name

  abbrev pub is_found : Option (Tool W V) → Bool
  is_found none = false
  is_found (some tool) = true

  -- A refusal leaves the registry as it was.
  unfoldable pub register :
      Tool W V → ToolRegistry W V → Result RegistryError (Unit {0}) × ToolRegistry W V
  register tool registry =
      if is_found (find_tool registry.tools tool.name)
      then (err (RegistryError.duplicate tool.name), registry)
      else (
        ok tt,
        record {
          tools = (tool.name, tool) ∷ registry.tools;
          order = registry.order ++ tool.name ∷ [];
        },
      )

  unfoldable pub get : ToolRegistry W V → Text → Result RegistryError (Tool W V)
  get registry name = elim (find_tool registry.tools name) [
    | none ↦ err (RegistryError.unknown name)
    | some tool ↦ ok tool
  ]

  unfoldable pub advertisement : Tool W V → ToolAdvertisement V
  advertisement tool = record {
    name = tool.name;
    description = tool.description;
    input_schema = tool.input_schema;
    kind = ToolAdvertisementKind.function;
  }

  -- The advertisements of the names, those that the map has.
  unfoldable pub advertise : List (Text × Tool W V) → List Text → List (ToolAdvertisement V)
  advertise tools [] = []
  advertise tools (name ∷ names) = elim (find_tool tools name) [
    | none ↦ advertise tools names
    | some tool ↦ advertisement tool ∷ advertise tools names
  ]

  unfoldable pub advertisements : ToolRegistry W V → List (ToolAdvertisement V)
  advertisements registry = advertise registry.tools registry.order

  unfoldable pub validate_call :
      Json V → ToolRegistry W V → ToolCall → Result ToolError (Tool W V × V)
  validate_call json registry call = do
    tool ← invalid registry_error_text (get registry call.name)
    arguments ← invalid (λ e. e) (json.parse call.arguments_json)
    refuse_if (not (json.is_object arguments))
        (ToolError.invalid_arguments (text "tool arguments must be a JSON object"))
    ok (tool, arguments)
