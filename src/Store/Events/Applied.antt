-- ===== src/Store/Events/Applied.antt =====
-- The events of a save are applied by a replay, each at its turn (crates/fx-store/src/lib.rs, lines
-- 746 to 900).
use fx_rs.Base.{
  ℕ, suc, ◌+◌, ◌≤◌, ◌<◌, ◌≡◌, refl, ap, true, false, Option, none, some, List, [], ◌∷◌, ◌++◌, Text,
  text, text_eq, text_eq_refl, leb, ltb, ◌==◌, length, is_nil, ok, saturating_add, checked_add,
  u64_max, arith,
}
use fx_rs.Base.Int.{pos, ltb_ℤ}
use fx_rs.Redaction.Bytes.{Bytes}
use fx_rs.Store.Events.{
  ReplacementStarted, ReplacementChunk, ReplacementCommitted, Codec, Envelope, Replay,
  raw_state_chunk_bytes, max_state_bytes, require, decode_digest, apply_started, apply_chunk,
  apply_committed, apply_event, replay_events, started_kind, chunk_kind, committed_kind,
}
use fx_rs.Store.Events.Write.{
  Saving, event, chunk_payload, chunk_count, started_payload, committed_payload,
}
use fx_rs.Store.Session.{Session, validate_session, valid_identifier, checked_identifier}

-- What the log needs of the encodings, each of which is undone by its decoding, and of the digest.
pub record IsLawful {V : Type 0} (codec : Codec V) : Type 0 where
  pub started : (p : ReplacementStarted) → codec.started_from (codec.started_to p) ≡ ok p
  pub chunk : (p : ReplacementChunk) → codec.chunk_from (codec.chunk_to p) ≡ ok p
  pub committed : (p : ReplacementCommitted) → codec.committed_from (codec.committed_to p) ≡ ok p
  pub hex :
      (b : Bytes) → codec.hex_decode (codec.hex_encode (codec.sha256 b)) ≡ some (codec.sha256 b)
  -- A digest of SHA-256 has 32 bytes.
  pub digest : (b : Bytes) → length (codec.sha256 b) ≡ 32
  pub base64 : (b : Bytes) → codec.base64_decode (codec.base64_encode b) ≡ ok b

-- A save of a session that `save_sync` lets through: the identifiers and the time are valid, and the
-- encoding has a size that is allowed and is decoded to the session.
pub record IsSavingOf {V : Type 0} (codec : Codec V) (saving : Saving) (stored : Session)
    : Type 0 where
  pub ids : (n : ℕ) → valid_identifier (saving.ids n) ≡ true
  pub time : ltb_ℤ saving.timestamp_ms (pos 0) ≡ false
  pub low : 1 ≤ length saving.encoded
  pub high : length saving.encoded ≤ max_state_bytes
  pub decoded : codec.session_from saving.encoded ≡ ok stored
  pub valid : validate_session stored ≡ ok tt

pub same_number : (n : ℕ) → (n == n) ≡ true
same_number n = ground arith

pub next_number :
    (seq : ℕ) (label : Text) → seq < u64_max → require (checked_add seq 1) label ≡ ok (suc seq)
next_number seq label low =
    let fits : leb (seq + 1) u64_max ≡ true = ground arith in
    let more : seq + 1 ≡ suc seq = omega arith in rw fits (ap ok more)

-- The replacement that is pending when `k` chunks were applied, which make `written`.
abbrev pub at_chunk : {V : Type 0} → Codec V → Saving → Option Session → ℕ → Bytes → Replay
at_chunk codec saving session k written = record {
  pending = some (record {
    id = saving.ids 0;
    encoded_bytes = length saving.encoded;
    sha256 = codec.sha256 saving.encoded;
    chunk_count = chunk_count codec saving;
    chunks = written;
    next_chunk = k;
  });
  session = session;
}

module _ {V : Type 0} (codec : Codec V) (saving : Saving) (lawful : IsLawful codec) where
  decode_digest-hex_encode :
      (b : Bytes) → decode_digest codec (codec.hex_encode (codec.sha256 b)) ≡ ok (codec.sha256 b)
  unfolding decode_digest
  decode_digest-hex_encode b =
      let full : (length (codec.sha256 b) == 32) ≡ true = ground (arith, lawful.digest b) in
      rw (lawful.hex b, full)

  module _ (ids : (n : ℕ) → valid_identifier (saving.ids n) ≡ true)
      (time : ltb_ℤ saving.timestamp_ms (pos 0) ≡ false) where
    -- An event of the save at its turn is applied.
    pub replay-event :
        (seq n : ℕ) (kind : Text) (payload : V) (events : List (Envelope V)) (r r' : Replay)
        → seq < u64_max
        → apply_event codec kind payload r ≡ ok r'
        → replay_events codec saving.generation seq
            (event codec saving seq n kind payload ∷ events)
            r
          ≡ replay_events codec saving.generation (suc seq) events r'
    unfolding replay_events
    replay-event seq n kind payload events r r' low applied =
        rw
          (
            ids n,
            time,
            text_eq_refl saving.generation,
            same_number seq,
            next_number seq (text "event sequence overflow") low,
            applied,
          )
          refl

    pub started-applied :
        (session : Option Session)
        → 1 ≤ length saving.encoded
        → length saving.encoded ≤ max_state_bytes
        → apply_event codec started_kind
            (codec.started_to (started_payload codec saving))
            (record { pending = none; session = session })
          ≡ ok (at_chunk codec saving session 0 [])
    unfolding apply_event text_eq apply_started checked_identifier
    started-applied session low high =
        let a : ltb 0 (length saving.encoded) ≡ true = ground arith in
        let b : leb (length saving.encoded) max_state_bytes ≡ true = ground arith in
        rw
          (
            lawful.started (started_payload codec saving),
            a,
            b,
            same_number (chunk_count codec saving),
            ids 0,
            decode_digest-hex_encode saving.encoded,
          )
          refl

    pub chunk-applied :
        (session : Option Session) (k : ℕ) (written chunk : Bytes)
        → is_nil chunk ≡ false
        → length chunk ≤ raw_state_chunk_bytes
        → k < chunk_count codec saving
        → length written + length chunk ≤ length saving.encoded
        → length saving.encoded ≤ max_state_bytes
        → apply_event codec chunk_kind
            (codec.chunk_to (chunk_payload codec saving k chunk))
            (at_chunk codec saving session k written)
          ≡ ok (at_chunk codec saving session (suc k) (written ++ chunk))
    unfolding apply_event text_eq apply_chunk
    chunk-applied session k written chunk full small more fits high =
        let a : leb (chunk_count codec saving) k ≡ false = ground arith in
        let b : ltb raw_state_chunk_bytes (length chunk) ≡ false = ground arith in
        let c : ltb (length saving.encoded) (saturating_add (length written) (length chunk))
            ≡ false =
          ground arith in
        rw
          (
            lawful.chunk (chunk_payload codec saving k chunk),
            text_eq_refl (saving.ids 0),
            same_number k,
            a,
            lawful.base64 chunk,
            full,
            b,
            same_number (length chunk),
            decode_digest-hex_encode chunk,
            text_eq_refl (codec.sha256 chunk),
            c,
          )
          refl

    pub committed-applied :
        (session : Option Session) (stored : Session)
        → codec.session_from saving.encoded ≡ ok stored
        → validate_session stored ≡ ok tt
        → apply_event codec committed_kind
            (codec.committed_to (committed_payload codec saving))
            (at_chunk codec saving session (chunk_count codec saving) saving.encoded)
          ≡ ok (record { pending = none; session = some stored })
    unfolding apply_event text_eq apply_committed
    committed-applied session stored decoded valid =
        rw
          (
            lawful.committed (committed_payload codec saving),
            text_eq_refl (saving.ids 0),
            same_number (length saving.encoded),
            same_number (chunk_count codec saving),
            decode_digest-hex_encode saving.encoded,
            text_eq_refl (codec.sha256 saving.encoded),
            decoded,
            valid,
          )
          refl
