-- ===== src/Store/Durable.antt =====
-- The redaction of a session before it is stored (crates/fx-store/src/lib.rs, lines 1121 to 1181).
pub mod Pairing
use fx_rs.Base.{
  ℕ, Bool, true, false, Option, none, some, List, [], ◌∷◌, ◌++◌, Text, text, text_eq, if◌then◌else◌,
  take, as_bytes, Result, ok, err, ◌>>=◌,
}
use fx_rs.Message.{ToolCall, ChatMessage}
use fx_rs.Redaction.Bytes.{Bytes}
use fx_rs.Redaction.Secrets.{Cow, redact_secrets}
use fx_rs.Store.Events.{Codec}
use fx_rs.Store.Session.{Session}

-- The failure of the functions of this module.
pub data Panic : Type 0 where
  panicked : Panic

abbrev pub Identifiers : Type 0
Identifiers = List (Text × Text)

-- `redact_secrets(s).into_owned()`.
unfoldable pub redact : Text → Result Panic Text
redact s = elim (redact_secrets s) [
  | none ↦ err Panic.panicked
  | some Cow.borrowed ↦ ok s
  | some (Cow.owned t) ↦ ok t
]

unfoldable pub is_sensitive : Text → Result Panic Bool
is_sensitive s = elim (redact_secrets s) [
  | none ↦ err Panic.panicked
  | some Cow.borrowed ↦ ok false
  | some (Cow.owned t) ↦ ok true
]

abbrev pub redact_option : Option Text → Result Panic (Option Text)
redact_option none = ok none
redact_option (some s) = do t ← redact s; ok (some t)

unfoldable pub find : Identifiers → Text → Option Text
find [] id = none
find ((key, replacement) ∷ identifiers) id =
    if text_eq key id then some replacement else find identifiers id

-- The replacement of an identifier, or the identifier itself.
unfoldable pub replace : Identifiers → Text → Text
replace identifiers id = elim (find identifiers id) [ none ↦ id | some replacement ↦ replacement ]

abbrev pub replace_option : Identifiers → Option Text → Option Text
replace_option identifiers none = none
replace_option identifiers (some id) = some (replace identifiers id)

module _ {V : Type 0} (codec : Codec V) where
  abbrev pub add_identifier : Identifiers → Text → Bool → Identifiers
  add_identifier identifiers id true =
      (id, text "call_" ++ codec.hex_encode (take 16 (codec.sha256 (as_bytes id)))) ∷ identifiers
  add_identifier identifiers id false = identifiers

  unfoldable pub retain_sensitive_identifier : Identifiers → Text → Result Panic Identifiers
  retain_sensitive_identifier identifiers id = elim (find identifiers id) [
    | some replacement ↦ ok identifiers
    | none ↦ do sensitive ← is_sensitive id; ok (add_identifier identifiers id sensitive)
  ]

  abbrev pub retain_option : Identifiers → Option Text → Result Panic Identifiers
  retain_option identifiers none = ok identifiers
  retain_option identifiers (some id) = retain_sensitive_identifier identifiers id

  unfoldable pub collect_calls : Identifiers → List ToolCall → Result Panic Identifiers
  collect_calls identifiers [] = ok identifiers
  collect_calls identifiers (call ∷ calls) = do
    with_id ← retain_sensitive_identifier identifiers call.id
    with_provisional ← retain_option with_id call.provisional_id
    collect_calls with_provisional calls

  unfoldable pub collect_identifiers : Identifiers → List ChatMessage → Result Panic Identifiers
  collect_identifiers identifiers [] = ok identifiers
  collect_identifiers identifiers (message ∷ messages) = do
    with_id ← retain_option identifiers message.tool_call_id
    with_calls ← collect_calls with_id message.tool_calls
    collect_identifiers with_calls messages

unfoldable pub redact_call : Identifiers → ToolCall → Result Panic ToolCall
redact_call identifiers call = do
  arguments ← redact call.arguments_json
  result ← redact_option call.provider_result
  ok (record call {
    id = replace identifiers call.id;
    provisional_id = replace_option identifiers call.provisional_id;
    arguments_json = arguments;
    provider_result = result;
  })

unfoldable pub redact_calls : Identifiers → List ToolCall → Result Panic (List ToolCall)
redact_calls identifiers [] = ok []
redact_calls identifiers (call ∷ calls) = do
  call' ← redact_call identifiers call
  calls' ← redact_calls identifiers calls
  ok (call' ∷ calls')

unfoldable pub redact_message : Identifiers → ChatMessage → Result Panic ChatMessage
redact_message identifiers message = do
  content ← redact_option message.content
  calls ← redact_calls identifiers message.tool_calls
  ok (record message {
    content = content;
    tool_call_id = replace_option identifiers message.tool_call_id;
    tool_calls = calls;
  })

unfoldable pub redact_messages : Identifiers → List ChatMessage → Result Panic (List ChatMessage)
redact_messages identifiers [] = ok []
redact_messages identifiers (message ∷ messages) = do
  message' ← redact_message identifiers message
  messages' ← redact_messages identifiers messages
  ok (message' ∷ messages')

unfoldable pub redact_durable_session : {V : Type 0} → Codec V → Session → Result Panic Session
redact_durable_session codec session = do
  title ← redact_option session.title
  identifiers ← collect_identifiers codec [] session.history
  history ← redact_messages identifiers session.history
  ok (record session { title = title; history = history })
