-- ===== src/Store/Events/Chunked.antt =====
-- The events of the chunks of a save (crates/fx-store/src/lib.rs, lines 436 to 462 and 837 to 871).
use fx_rs.Base.{
  ℕ, suc, ◌+◌, ◌≤◌, ◌<◌, ◌≡◌, sym, ap, ◌∙◌, true, false, Option, List, [], ◌∷◌, ◌++◌, text, length,
  ok, u64_max, arith, length-append, append_assoc, append_nil,
}
use fx_rs.Base.Int.{pos, ltb_ℤ}
use fx_rs.Redaction.Bytes.{Bytes}
use fx_rs.Store.Events.{
  Codec, Envelope, raw_state_chunk_bytes, max_state_bytes, replay_events, chunk_kind,
}
use fx_rs.Store.Events.Write.{Saving, event, chunk_payload, write_chunks, chunk_count}
use fx_rs.Store.Events.Chunks.{AreChunks, concat}
use fx_rs.Store.Session.{Session, valid_identifier}
use fx_rs.Store.Events.Applied.{IsLawful, next_number, at_chunk, replay-event, chunk-applied}

module _ {V : Type 0} (codec : Codec V) (saving : Saving) (lawful : IsLawful codec) where
  module _ (ids : (n : ℕ) → valid_identifier (saving.ids n) ≡ true)
      (time : ltb_ℤ saving.timestamp_ms (pos 0) ≡ false) where
    -- The events of the chunks, from the one behind `seq` on.
    unfoldable pub chunk_events : ℕ → ℕ → List Bytes → List (Envelope V)
    chunk_events seq k [] = []
    chunk_events seq k (chunk ∷ chunks) =
        event codec saving (suc seq) (suc (suc k)) chunk_kind
          (codec.chunk_to (chunk_payload codec saving k chunk))
        ∷ chunk_events (suc seq) (suc k) chunks

    pub write_chunks-events :
        (chunks : List Bytes) (seq k : ℕ)
        → seq + length chunks ≤ u64_max
        → write_chunks codec saving seq k chunks
          ≡ ok (seq + length chunks, chunk_events seq k chunks)
    unfolding write_chunks chunk_events
    write_chunks-events [] seq k h = let e : seq ≡ seq + 0 = omega arith in ap (λ n. ok (n, [])) e
    write_chunks-events (chunk ∷ chunks) seq k h =
        let e : suc seq + length chunks ≡ seq + suc (length chunks) = omega arith in
        rw
          (
            next_number seq (text "event sequence overflow") (omega arith),
            write_chunks-events chunks (suc seq) (suc k) (omega arith),
          )
          (ap
            (λ n. ok (
              n,
              event codec saving (suc seq) (suc (suc k)) chunk_kind
                    (codec.chunk_to (chunk_payload codec saving k chunk))
                  ∷ chunk_events (suc seq) (suc k) chunks,
            ))
            e)

    -- The chunks are applied one after the other.
    pub chunks-applied :
        (session : Option Session) (chunks : List Bytes) (seq k : ℕ) (written : Bytes)
        (tail : List (Envelope V))
        → AreChunks raw_state_chunk_bytes chunks
        → k + length chunks ≤ chunk_count codec saving
        → length written + length (concat chunks) ≤ length saving.encoded
        → length saving.encoded ≤ max_state_bytes
        → seq + length chunks < u64_max
        → replay_events codec saving.generation
            (suc seq)
            (chunk_events seq k chunks ++ tail)
            (at_chunk codec saving session k written)
          ≡ replay_events codec saving.generation
              (suc (seq + length chunks))
              tail
              (at_chunk codec saving session (k + length chunks) (written ++ concat chunks))
    unfolding chunk_events
    chunks-applied session _ seq k written tail AreChunks.nil counted fits high low =
        let e : seq ≡ seq + 0 = omega arith in
        let f : k ≡ k + 0 = omega arith in
        ap
          (λ n.
            replay_events codec saving.generation (suc n) tail
              (at_chunk codec saving session k written))
          e
        ∙ ap
            (λ n.
              replay_events codec saving.generation (suc (seq + 0)) tail
                (at_chunk codec saving session n written))
            f
        ∙ ap
            (λ w.
              replay_events codec saving.generation (suc (seq + 0)) tail
                (at_chunk codec saving session (k + 0) w))
            (sym (append_nil written))
    chunks-applied session _ seq k written tail (AreChunks.cons chunk chunks full small rest)
          counted fits high low =
        let e : suc seq + length chunks ≡ seq + suc (length chunks) = omega arith in
        let f : suc k + length chunks ≡ k + suc (length chunks) = omega arith in
        let room : length written + length chunk ≤ length saving.encoded =
          omega (arith, length-append chunk (concat chunks)) in
        let left : length (written ++ chunk) + length (concat chunks) ≤ length saving.encoded =
          omega (arith, length-append chunk (concat chunks), length-append written chunk) in
        replay-event codec saving lawful ids time (suc seq) (suc (suc k)) chunk_kind
          (codec.chunk_to (chunk_payload codec saving k chunk))
          (chunk_events (suc seq) (suc k) chunks ++ tail) (at_chunk codec saving session k written)
          (at_chunk codec saving session (suc k) (written ++ chunk)) (omega arith)
          (chunk-applied codec saving lawful ids time session k written chunk full small
            (omega arith) room high)
        ∙ chunks-applied session chunks (suc seq) (suc k) (written ++ chunk) tail rest (omega arith)
            left high (omega arith)
        ∙ ap
            (λ n. replay_events codec saving.generation (suc n) tail (
              at_chunk codec saving session (suc k + length chunks)
                ((written ++ chunk) ++ concat chunks)))
            e
        ∙ ap
            (λ n.
              replay_events codec saving.generation (suc (seq + suc (length chunks))) tail
                (at_chunk codec saving session n ((written ++ chunk) ++ concat chunks)))
            f
        ∙ ap
            (λ w.
              replay_events codec saving.generation (suc (seq + suc (length chunks))) tail
                (at_chunk codec saving session (k + suc (length chunks)) w))
            (append_assoc written chunk (concat chunks))
