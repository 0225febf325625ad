-- ===== src/Store/Events/Replacement.antt =====
-- A state that was written to the log is read back (crates/fx-store/src/lib.rs, lines 405 to 497 and 746
-- to 900).
use fx_rs.Base.{
  ℕ, suc, ◌+◌, ◌≤◌, ◌<◌, ◌≡◌, refl, sym, ap, ◌∙◌, true, false, Option, none, some, List, [], ◌∷◌,
  ◌++◌, Text, text, length, Result, ok, err, u64_max, arith,
}
use mathlib.Core.Path.{subst}
use fx_rs.Base.Int.{pos, ltb_ℤ}
use fx_rs.Redaction.Bytes.{Bytes}
use fx_rs.Store.Events.{
  Codec, Envelope, Replay, raw_state_chunk_bytes, max_state_bytes, replay_events, started_kind,
  committed_kind,
}
use fx_rs.Store.Events.Write.{
  Saving, chunks_from, event, chunk_count, started_payload, committed_payload, write_replacement,
}
use fx_rs.Store.Events.Chunks.{
  AreChunks, concat, chunks_from-AreChunks, concat-chunks_from, length-chunks_from,
}
use fx_rs.Store.Session.{Session, SessionStoreError, validate_session, valid_identifier}
use fx_rs.Store.Events.Applied.{
  IsLawful, IsSavingOf, next_number, at_chunk, replay-event, started-applied, committed-applied,
}
use fx_rs.Store.Events.Chunked.{chunk_events, write_chunks-events, chunks-applied}

module _ {V : Type 0} (codec : Codec V) (saving : Saving) (lawful : IsLawful codec) where
  module _ (ids : (n : ℕ) → valid_identifier (saving.ids n) ≡ true)
      (time : ltb_ℤ saving.timestamp_ms (pos 0) ≡ false) where
    -- The chunks of the save.
    saved_chunks : List Bytes
    saved_chunks = chunks_from (length saving.encoded) raw_state_chunk_bytes saving.encoded

    saved-count : length saved_chunks ≡ chunk_count codec saving
    unfolding saved_chunks
    saved-count = length-chunks_from (length saving.encoded) saving.encoded (omega arith)

    saved-concat : concat saved_chunks ≡ saving.encoded
    unfolding saved_chunks
    saved-concat =
        concat-chunks_from raw_state_chunk_bytes (omega arith) (length saving.encoded)
          saving.encoded (omega arith)

    saved-AreChunks : AreChunks raw_state_chunk_bytes saved_chunks
    unfolding saved_chunks
    saved-AreChunks =
        chunks_from-AreChunks raw_state_chunk_bytes (omega arith) (length saving.encoded)
          saving.encoded

    replay-nil :
        (seq : ℕ) (r : Replay) → replay_events codec saving.generation seq [] r ≡ ok (seq, r)
    unfolding replay_events
    replay-nil seq r = refl

    saved_events : ℕ → List (Envelope V)
    saved_events first_seq =
        event codec saving first_seq 1 started_kind
          (codec.started_to (started_payload codec saving))
        ∷ (chunk_events codec saving lawful ids time first_seq 0 saved_chunks
            ++ event codec saving (suc (first_seq + length saved_chunks))
                (suc (suc (length saved_chunks))) committed_kind
                (codec.committed_to (committed_payload codec saving))
              ∷ [])

    write_replacement-events :
        (first_seq : ℕ)
        → first_seq + length saved_chunks < u64_max
        → write_replacement codec saving first_seq
          ≡ ok (suc (first_seq + length saved_chunks), saved_events first_seq)
    unfolding write_replacement saved_events saved_chunks
    write_replacement-events first_seq low =
        rw
          (
            write_chunks-events codec saving lawful ids time saved_chunks first_seq 0 (omega arith),
            next_number (first_seq + length saved_chunks) (text "event sequence overflow") low,
          )
          refl

    replay-saved_events :
        (session : Option Session) (stored : Session) (first_seq : ℕ)
        → 1 ≤ length saving.encoded
        → length saving.encoded ≤ max_state_bytes
        → codec.session_from saving.encoded ≡ ok stored
        → validate_session stored ≡ ok tt
        → suc (first_seq + length saved_chunks) < u64_max
        → replay_events codec saving.generation first_seq
            (saved_events first_seq)
            (record { pending = none; session = session })
          ≡ ok (
            suc (suc (first_seq + length saved_chunks)),
            record { pending = none; session = some stored },
          )
    unfolding saved_events
    replay-saved_events session stored first_seq low high decoded valid fits =
        let whole : 0 + length saved_chunks ≤ chunk_count codec saving =
          omega (arith, saved-count) in
        let room : length {A = ℕ} [] + length (concat saved_chunks) ≤ length saving.encoded =
          omega (arith, ap length saved-concat) in
        replay-event codec saving lawful ids time first_seq 1 started_kind
          (codec.started_to (started_payload codec saving)) _
          (record { pending = none; session = session }) (at_chunk codec saving session 0 [])
          (omega arith) (started-applied codec saving lawful ids time session low high)
        ∙ chunks-applied codec saving lawful ids time session saved_chunks first_seq 0 [] _
            saved-AreChunks whole room high (omega arith)
        ∙ ap
            (λ w.
              replay_events codec saving.generation (suc (first_seq + length saved_chunks)) commit
                (at_chunk codec saving session (0 + length saved_chunks) w))
            saved-concat
        ∙ ap
            (λ k.
              replay_events codec saving.generation (suc (first_seq + length saved_chunks)) commit
                (at_chunk codec saving session k saving.encoded))
            counted
        ∙ replay-event codec saving lawful ids time (suc (first_seq + length saved_chunks))
            (suc (suc (length saved_chunks))) committed_kind
            (codec.committed_to (committed_payload codec saving)) []
            (at_chunk codec saving session (chunk_count codec saving) saving.encoded)
            (record { pending = none; session = some stored }) (omega arith)
            (committed-applied codec saving lawful ids time session stored decoded valid)
        ∙ replay-nil _ _
      where
        commit : List (Envelope V)
        commit =
            event codec saving (suc (first_seq + length saved_chunks))
              (suc (suc (length saved_chunks))) committed_kind
              (codec.committed_to (committed_payload codec saving))
            ∷ []

        counted : 0 + length saved_chunks ≡ chunk_count codec saving
        counted = omega (arith, saved-count)

-- What a replay makes of the events of a save: the session that was saved, with nothing pending.
abbrev pub Restores :
    {V : Type 0}
    → Codec V
    → Text
    → ℕ
    → Option Session
    → Session
    → Result SessionStoreError (ℕ × List (Envelope V))
    → Type 0
Restores codec generation first_seq session stored (err e) = ⊥
Restores codec generation first_seq session stored (ok (last, events)) =
    replay_events codec generation first_seq events (record { pending = none; session = session })
    ≡ ok (suc last, record { pending = none; session = some stored })

-- The events that a save writes are replayed to the session that was saved, whatever session the log
-- had before, with no replacement left pending. The encodings are lawful, the identifiers, the time
-- and the size of the state are allowed, the session is valid, and the sequence numbers do not
-- reach the last one of 64 bits.
pub write_replacement-Restores :
    {V : Type 0} (codec : Codec V) (saving : Saving) (session : Option Session) (stored : Session)
    (first_seq : ℕ)
    → IsLawful codec
    → IsSavingOf codec saving stored
    → suc (first_seq + chunk_count codec saving) < u64_max
    → Restores codec saving.generation first_seq session stored
        (write_replacement codec saving first_seq)
write_replacement-Restores codec saving session stored first_seq lawful h fits =
    subst (Restores codec saving.generation first_seq session stored)
      (sym (
        write_replacement-events codec saving lawful h.ids h.time first_seq
          (omega (arith, saved-count codec saving lawful h.ids h.time))))
      (replay-saved_events codec saving lawful h.ids h.time session stored first_seq h.low h.high
        h.decoded h.valid (omega (arith, saved-count codec saving lawful h.ids h.time)))
