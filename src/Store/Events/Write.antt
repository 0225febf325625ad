-- ===== src/Store/Events/Write.antt =====
-- How a save writes its events (crates/fx-store/src/lib.rs, lines 405 to 485 and 903 to 930); the frames
-- of the log are outside.
use fx_rs.Base.{
  ℕ, zero, suc, List, [], ◌∷◌, ◌++◌, Text, text, length, take, drop, Result, ok, ◌>>=◌, checked_add,
}
use fx_rs.Base.Int.{ℤ}
use fx_rs.Redaction.Bytes.{Bytes}
use fx_rs.Store.Events.{
  ReplacementStarted, ReplacementChunk, ReplacementCommitted, Codec, Envelope, event_schema_version,
  raw_state_chunk_bytes, require, div_ceil, started_kind, chunk_kind, committed_kind,
}
use fx_rs.Store.Session.{SessionStoreError}

-- `encoded.chunks(d)`.
unfoldable pub chunks_from : ℕ → ℕ → Bytes → List Bytes
chunks_from zero d bytes = []
chunks_from (suc fuel) d [] = []
chunks_from (suc fuel) d (byte ∷ bytes) =
    take d (byte ∷ bytes) ∷ chunks_from fuel d (drop d (byte ∷ bytes))

-- What the events of one save share; the n-th identifier that `new_identifier` draws is `ids n`.
pub record Saving : Type 0 where
  pub generation : Text
  pub timestamp_ms : ℤ
  pub ids : ℕ → Text
  pub encoded : Bytes

module _ {V : Type 0} (codec : Codec V) (saving : Saving) where
  -- `write_event`, without the frame.
  abbrev pub event : ℕ → ℕ → Text → V → Envelope V
  event seq n kind payload = record {
    schema_version = event_schema_version;
    log_generation = saving.generation;
    seq = seq;
    event_id = saving.ids n;
    timestamp_ms = saving.timestamp_ms;
    kind = kind;
    payload = payload;
  }

  abbrev pub chunk_payload : ℕ → Bytes → ReplacementChunk
  chunk_payload index chunk = record {
    replacement_id = saving.ids 0;
    chunk_index = index;
    raw_bytes = length chunk;
    chunk_sha256 = codec.hex_encode (codec.sha256 chunk);
    bytes = codec.base64_encode chunk;
  }

  -- The events of the chunks behind sequence number `seq`, and the last number.
  unfoldable pub write_chunks :
      ℕ → ℕ → List Bytes → Result SessionStoreError (ℕ × List (Envelope V))
  write_chunks seq index [] = ok (seq, [])
  write_chunks seq index (chunk ∷ chunks) = do
    next_seq ← require (checked_add seq 1) (text "event sequence overflow")
    (last, events) ← write_chunks next_seq (suc index) chunks
    ok (
      last,
      event next_seq (suc (suc index)) chunk_kind (codec.chunk_to (chunk_payload index chunk))
          ∷ events,
    )

  abbrev pub chunk_count : ℕ
  chunk_count = div_ceil (length saving.encoded) raw_state_chunk_bytes

  abbrev pub state_digest : Text
  state_digest = codec.hex_encode (codec.sha256 saving.encoded)

  abbrev pub started_payload : ReplacementStarted
  started_payload = record {
    replacement_id = saving.ids 0;
    encoded_bytes = length saving.encoded;
    sha256 = state_digest;
    chunk_count = chunk_count;
  }

  abbrev pub committed_payload : ReplacementCommitted
  committed_payload = record {
    replacement_id = saving.ids 0;
    encoded_bytes = length saving.encoded;
    sha256 = state_digest;
    chunk_count = chunk_count;
  }

  -- The events of a save from `first_seq` on, and the last sequence number.
  unfoldable pub write_replacement : ℕ → Result SessionStoreError (ℕ × List (Envelope V))
  write_replacement first_seq = do
    let chunks = chunks_from (length saving.encoded) raw_state_chunk_bytes saving.encoded
    (seq, events) ← write_chunks first_seq 0 chunks
    last ← require (checked_add seq 1) (text "event sequence overflow")
    ok (
      last,
      event first_seq 1 started_kind (codec.started_to started_payload)
          ∷ (events
              ++ event last (suc (suc (length chunks))) committed_kind
                  (codec.committed_to committed_payload)
                ∷ []),
    )
