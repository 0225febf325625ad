-- ===== src/Store/Events.antt =====
-- The event log of a session (crates/fx-store/src/lib.rs, lines 603 to 930). A session's state is
-- written as one replacement: a start, the chunks of its encoding, and a commit.
pub mod Chunks
pub mod Write
pub mod Applied
pub mod Chunked
pub mod Replacement
use fx_rs.Base.{
  ℕ, zero, suc, ◌+◌, ◌-◌, ◌*◌, ◌/◌, Bool, true, false, not, ◌&&◌, ◌||◌, Option, none, some, List,
  [], ◌∷◌, ◌++◌, Text, text, text_eq, leb, ltb, ◌==◌, if◌then◌else◌, length, take, drop, is_nil,
  Result, ok, err, ◌>>=◌, ◌>>◌, refuse_if, saturating_add, checked_add,
}
use fx_rs.Base.Int.{ℤ, pos, ltb_ℤ}
use fx_rs.Redaction.Bytes.{Bytes}
use fx_rs.Store.Session.{
  Session, SessionStoreError, validate_session, valid_identifier, checked_identifier,
}

abbrev pub event_schema_version : ℕ
event_schema_version = 1

abbrev pub raw_state_chunk_bytes : ℕ
raw_state_chunk_bytes = 4 * 1024 * 1024

abbrev pub max_state_bytes : ℕ
max_state_bytes = 256 * 1024 * 1024

pub record ReplacementStarted : Type 0 where
  pub replacement_id : Text
  pub encoded_bytes : ℕ
  pub sha256 : Text
  pub chunk_count : ℕ

pub record ReplacementChunk : Type 0 where
  pub replacement_id : Text
  pub chunk_index : ℕ
  pub raw_bytes : ℕ
  pub chunk_sha256 : Text
  pub bytes : Text

pub record ReplacementCommitted : Type 0 where
  pub replacement_id : Text
  pub encoded_bytes : ℕ
  pub sha256 : Text
  pub chunk_count : ℕ

-- What the store uses of serde_json, sha2, hex and base64; `V` is the type of JSON values.
pub record Codec (V : Type 0) : Type 0 where
  pub started_to : ReplacementStarted → V
  pub started_from : V → Result Text ReplacementStarted
  pub chunk_to : ReplacementChunk → V
  pub chunk_from : V → Result Text ReplacementChunk
  pub committed_to : ReplacementCommitted → V
  pub committed_from : V → Result Text ReplacementCommitted
  pub session_from : Bytes → Result Text Session
  pub sha256 : Bytes → Bytes
  pub hex_encode : Bytes → Text
  pub hex_decode : Text → Option Bytes
  pub base64_encode : Bytes → Text
  pub base64_decode : Text → Result Text Bytes

pub record Envelope (V : Type 0) : Type 0 where
  pub schema_version : ℕ
  pub log_generation : Text
  pub seq : ℕ
  pub event_id : Text
  pub timestamp_ms : ℤ
  pub kind : Text
  pub payload : V

pub record PendingReplacement : Type 0 where
  pub id : Text
  pub encoded_bytes : ℕ
  pub sha256 : Bytes
  pub chunk_count : ℕ
  pub chunks : Bytes
  pub next_chunk : ℕ

-- The variables `pending` and `session` of a replay.
pub record Replay : Type 0 where
  pub pending : Option PendingReplacement
  pub session : Option Session

abbrev pub corrupt : Text → SessionStoreError
corrupt s = SessionStoreError.corrupt s

abbrev pub corrupt_by : {A : Type 0} → Text → Result Text A → Result SessionStoreError A
corrupt_by label (ok a) = ok a
corrupt_by label (err e) = err (corrupt (label ++ e))

abbrev pub require : {A : Type 0} → Option A → Text → Result SessionStoreError A
require none label = err (corrupt label)
require (some a) label = ok a

abbrev pub is_some : {A : Type 0} → Option A → Bool
is_some none = false
is_some (some a) = true

unfoldable pub div_ceil : ℕ → ℕ → ℕ
div_ceil n d = (n + (d - 1)) / d

abbrev pub started_kind : Text
started_kind = text "state_replacement_started"

abbrev pub chunk_kind : Text
chunk_kind = text "state_replacement_chunk"

abbrev pub committed_kind : Text
committed_kind = text "state_replacement_committed"

module _ {V : Type 0} (codec : Codec V) where
  unfoldable pub decode_digest : Text → Result SessionStoreError Bytes
  decode_digest value = do
    digest ← require (codec.hex_decode value) (text "invalid SHA-256 digest")
    refuse_if (not (length digest == 32)) (corrupt (text "invalid SHA-256 digest"))
    ok digest

  unfoldable pub apply_started : V → Replay → Result SessionStoreError Replay
  apply_started payload replay = do
    refuse_if (is_some replay.pending) (corrupt (text "nested state replacement"))
    started ← corrupt_by (text "replacement start: ") (codec.started_from payload)
    refuse_if (not (ltb 0 started.encoded_bytes && leb started.encoded_bytes max_state_bytes))
        (corrupt (text "invalid replacement size"))
    refuse_if (not (started.chunk_count == div_ceil started.encoded_bytes raw_state_chunk_bytes))
        (corrupt (text "invalid replacement chunks"))
    id ← checked_identifier started.replacement_id
    digest ← decode_digest started.sha256
    ok (record {
      pending = some (record {
        id = id;
        encoded_bytes = started.encoded_bytes;
        sha256 = digest;
        chunk_count = started.chunk_count;
        chunks = [];
        next_chunk = 0;
      });
      session = replay.session;
    })

  unfoldable pub apply_chunk : V → Replay → Result SessionStoreError Replay
  apply_chunk payload replay = do
    chunk ← corrupt_by (text "replacement chunk: ") (codec.chunk_from payload)
    pending ← require replay.pending (text "replacement chunk without start")
    refuse_if
        (not (text_eq chunk.replacement_id pending.id)
          || not (chunk.chunk_index == pending.next_chunk)
          || leb pending.chunk_count pending.next_chunk)
        (corrupt (text "replacement chunk identity or order mismatch"))
    decoded ← corrupt_by (text "replacement chunk base64: ") (codec.base64_decode chunk.bytes)
    refuse_if
        (is_nil decoded
          || ltb raw_state_chunk_bytes (length decoded)
          || not (length decoded == chunk.raw_bytes))
        (corrupt (text "replacement chunk content mismatch"))
    digest ← decode_digest chunk.chunk_sha256
    refuse_if
        (not (text_eq digest (codec.sha256 decoded))
          || ltb pending.encoded_bytes (saturating_add (length pending.chunks) (length decoded)))
        (corrupt (text "replacement chunk content mismatch"))
    ok (record replay {
      pending = some (record pending {
        chunks = pending.chunks ++ decoded;
        next_chunk = suc pending.next_chunk;
      });
    })

  unfoldable pub apply_committed : V → Replay → Result SessionStoreError Replay
  apply_committed payload replay = do
    committed ← corrupt_by (text "replacement commit: ") (codec.committed_from payload)
    replacement ← require replay.pending (text "replacement commit without start")
    refuse_if
        (not (text_eq committed.replacement_id replacement.id)
          || not (committed.encoded_bytes == replacement.encoded_bytes)
          || not (committed.chunk_count == replacement.chunk_count))
        (corrupt (text "replacement commit content mismatch"))
    digest ← decode_digest committed.sha256
    refuse_if
        (not (text_eq digest replacement.sha256)
          || not (replacement.next_chunk == replacement.chunk_count)
          || not (length replacement.chunks == replacement.encoded_bytes)
          || not (text_eq (codec.sha256 replacement.chunks) replacement.sha256))
        (corrupt (text "replacement commit content mismatch"))
    session ← corrupt_by (text "session state: ") (codec.session_from replacement.chunks)
    validate_session session
    ok (record { pending = none; session = some session })

  unfoldable pub apply_event : Text → V → Replay → Result SessionStoreError Replay
  apply_event kind payload replay =
      if text_eq kind started_kind
      then apply_started payload replay
      else if text_eq kind chunk_kind
      then apply_chunk payload replay
      else if text_eq kind committed_kind
      then apply_committed payload replay
      else err (corrupt (text "unsupported event kind `" ++ (kind ++ text "`")))

  -- The loop of `replay_committed` over the envelopes of the log, from the sequence number `seq` on.
  unfoldable pub replay_events :
      Text → ℕ → List (Envelope V) → Replay → Result SessionStoreError (ℕ × Replay)
  replay_events generation seq [] replay = ok (seq, replay)
  replay_events generation seq (envelope ∷ envelopes) replay = do
    refuse_if
        (not (envelope.schema_version == event_schema_version)
          || not (text_eq envelope.log_generation generation)
          || not (envelope.seq == seq)
          || not (valid_identifier envelope.event_id)
          || ltb_ℤ envelope.timestamp_ms (pos 0))
        (corrupt (text "invalid event identity or sequence"))
    next_seq ← require (checked_add seq 1) (text "event sequence overflow")
    replay' ← apply_event envelope.kind envelope.payload replay
    replay_events generation next_seq envelopes replay'
