-- ===== src/Store/Tests.antt =====
-- A save whose state is one byte, with encodings that keep what they are given.
use fx_rs.Base.{
  ◌≡◌, refl, true, false, Option, none, some, List, [], ◌∷◌, Text, text, text_eq, Result, ok, err,
  arith, ◌++◌, take, replicate, length-take, length-append, len, as_bytes, is_nil,
}
use fx_rs.Base.Int.{pos}
use fx_rs.Redaction.Bytes.{Bytes}
use fx_rs.Agent.Turns.Paired.{Answers, Paired}
use fx_rs.Base.Yields.{Any, Meets}
use fx_rs.Message.{
  Role, ToolArgumentIntegrity, ToolExecutionProvenance, ToolCall, CachePolicy, ChatMessage, role_eq,
}
use fx_rs.Store.Durable.{redact_durable_session}
use fx_rs.Store.Durable.Pairing.{redact_durable_session-Paired}
use fx_rs.Store.Events.{ReplacementStarted, ReplacementChunk, ReplacementCommitted, Codec, div_ceil}
use fx_rs.Store.Events.Write.{Saving, write_replacement}
use fx_rs.Store.Events.Applied.{IsLawful, IsSavingOf}
use fx_rs.Store.Events.Replacement.{Restores, write_replacement-Restores}
use fx_rs.Store.Session.{Session, validate_session, validate_session_id, valid_identifier}

-- JSON values that are payloads.
data Payload : Type 0 where
  started : ReplacementStarted → Payload
  chunk : ReplacementChunk → Payload
  committed : ReplacementCommitted → Payload

abbrev session : Session
session = record {
  schema_version = 3;
  id = text "s";
  created_at_ms = pos 1;
  updated_at_ms = pos 2;
  workspace_root = text "/work";
  origin_workspace_root = none;
  title = none;
  preferences = record { model = none };
  history = [];
}

abbrev started_of : Payload → Result Text ReplacementStarted
started_of (Payload.started p) = ok p
started_of (Payload.chunk p) = err (text "chunk")
started_of (Payload.committed p) = err (text "commit")

abbrev chunk_of : Payload → Result Text ReplacementChunk
chunk_of (Payload.started p) = err (text "start")
chunk_of (Payload.chunk p) = ok p
chunk_of (Payload.committed p) = err (text "commit")

abbrev committed_of : Payload → Result Text ReplacementCommitted
committed_of (Payload.started p) = err (text "start")
committed_of (Payload.chunk p) = err (text "chunk")
committed_of (Payload.committed p) = ok p

abbrev session_of : Bytes → Result Text Session
session_of [] = err (text "empty")
session_of (byte ∷ bytes) = ok session

abbrev codec : Codec Payload
codec = record {
  started_to = λ p. Payload.started p;
  started_from = started_of;
  chunk_to = λ p. Payload.chunk p;
  chunk_from = chunk_of;
  committed_to = λ p. Payload.committed p;
  committed_from = committed_of;
  session_from = session_of;
  sha256 = λ b. take 32 (b ++ replicate 32 0);
  hex_encode = λ b. b;
  hex_decode = λ s. some s;
  base64_encode = λ b. b;
  base64_decode = λ s. ok s;
}

abbrev identifier : Text
identifier = text "00000000000000000000000000000000"

abbrev saving : Saving
saving = record {
  generation = identifier;
  timestamp_ms = pos 2;
  ids = λ n. identifier;
  encoded = 1 ∷ [];
}

identifier_valid : valid_identifier identifier ≡ true
unfolding valid_identifier len as_bytes
identifier_valid = refl

session_valid : validate_session session ≡ ok tt
unfolding validate_session validate_session_id is_nil len text_eq as_bytes
session_valid = refl

codec-IsLawful : IsLawful codec
codec-IsLawful = record {
  started = λ p. refl;
  chunk = λ p. refl;
  committed = λ p. refl;
  hex = λ b. refl;
  digest =
      λ b. omega (arith, length-take 32 (b ++ replicate 32 0), length-append b (replicate 32 0));
  base64 = λ b. refl;
}

saving-IsSavingOf : IsSavingOf codec saving session
saving-IsSavingOf = record {
  ids = λ n. identifier_valid;
  time = refl;
  low = omega arith;
  high = omega arith;
  decoded = refl;
  valid = session_valid;
}

write_replacement-Restores_example :
    Restores codec identifier 1 none session (write_replacement codec saving 1)
unfolding div_ceil
write_replacement-Restores_example =
    write_replacement-Restores codec saving none session 1 codec-IsLawful saving-IsSavingOf
      (omega arith)

abbrev call : ToolCall
call = record {
  id = text "token=abcdefgh";
  name = text "read";
  arguments_json = text "{}";
  argument_integrity = ToolArgumentIntegrity.valid;
  provisional_id = none;
  provider_result = none;
  provenance = ToolExecutionProvenance.fx_local;
}

abbrev message : Role → Option Text → List ToolCall → ChatMessage
message role id calls = record {
  role = role;
  content = some (text "token=abcdefgh");
  tool_call_id = id;
  tool_name = none;
  tool_calls = calls;
  permission_feedback = false;
  cache_policy = CachePolicy.default;
}

-- A question, a call and its answer.
abbrev talk : Session
talk = record session {
  history =
      message Role.user none []
      ∷ message Role.assistant none (call ∷ [])
      ∷ message Role.tool (some call.id) []
      ∷ [];
}

talk-Paired : Paired talk.history
unfolding is_nil role_eq
talk-Paired = Paired.plain (message Role.user none []) _ refl refl (
    Paired.answered (message Role.assistant none (call ∷ []))
      (message Role.tool (some call.id) [] ∷ []) [] refl
      (Answers.cons call [] (message Role.tool (some call.id) []) [] refl refl refl Answers.nil)
      Paired.nil)

redact_durable_session-Paired_example :
    Meets Any (λ (stored : Session). Paired stored.history) (redact_durable_session codec talk)
redact_durable_session-Paired_example = redact_durable_session-Paired codec talk talk-Paired
