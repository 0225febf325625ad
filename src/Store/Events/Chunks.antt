-- ===== src/Store/Events/Chunks.antt =====
-- The chunks of an encoding (crates/fx-store/src/lib.rs, line 429; `slice::chunks`).
use fx_rs.Base.{
  ℕ, zero, suc, ◌-◌, ◌≤◌, ◌≡◌, refl, sym, ap, ◌∙◌, false, List, [], ◌∷◌, ◌++◌, length, take, drop,
  is_nil, arith, length-take, length-drop,
}
use fx_rs.Redaction.Bytes.{Bytes}
use fx_rs.Store.Events.{raw_state_chunk_bytes, div_ceil}
use fx_rs.Store.Events.Write.{chunks_from}

-- No chunk is empty or above the limit.
pub data AreChunks (d : ℕ) : List Bytes → Type 0 where
  nil : AreChunks d []
  cons :
      (chunk : Bytes) (chunks : List Bytes)
      → is_nil chunk ≡ false
      → length chunk ≤ d
      → AreChunks d chunks
      → AreChunks d (chunk ∷ chunks)

abbrev pub concat : List Bytes → Bytes
concat [] = []
concat (chunk ∷ chunks) = chunk ++ concat chunks

take-drop : (n : ℕ) (xs : Bytes) → take n xs ++ drop n xs ≡ xs
take-drop zero xs = refl
take-drop (suc n) [] = refl
take-drop (suc n) (x ∷ xs) = ap (x ∷◌) (take-drop n xs)

take-full : (d byte : ℕ) (bytes : Bytes) → 1 ≤ d → is_nil (take d (byte ∷ bytes)) ≡ false
unfolding is_nil
take-full zero byte bytes h = absurd (omega arith)
take-full (suc d) byte bytes h = refl

module _ (d : ℕ) (positive : 1 ≤ d) where
  pub chunks_from-AreChunks : (fuel : ℕ) (bytes : Bytes) → AreChunks d (chunks_from fuel d bytes)
  unfolding chunks_from
  chunks_from-AreChunks zero bytes = AreChunks.nil
  chunks_from-AreChunks (suc fuel) [] = AreChunks.nil
  chunks_from-AreChunks (suc fuel) (byte ∷ bytes) =
      AreChunks.cons _ _ (take-full d byte bytes positive)
        (omega (arith, length-take d (byte ∷ bytes)))
        (chunks_from-AreChunks fuel (drop d (byte ∷ bytes)))

  pub concat-chunks_from :
      (fuel : ℕ) (bytes : Bytes) → length bytes ≤ fuel → concat (chunks_from fuel d bytes) ≡ bytes
  unfolding chunks_from
  concat-chunks_from zero [] h = refl
  concat-chunks_from zero (byte ∷ bytes) h = absurd (omega arith)
  concat-chunks_from (suc fuel) [] h = refl
  concat-chunks_from (suc fuel) (byte ∷ bytes) h =
      ap (take d (byte ∷ bytes) ++◌) (
        concat-chunks_from fuel (drop d (byte ∷ bytes))
          (omega (arith, length-drop d (byte ∷ bytes))))
      ∙ take-drop d (byte ∷ bytes)

div_ceil-zero : div_ceil 0 raw_state_chunk_bytes ≡ 0
unfolding div_ceil
div_ceil-zero = omega arith

div_ceil-step :
    (n : ℕ)
    → 1 ≤ n
    → div_ceil n raw_state_chunk_bytes
      ≡ suc (div_ceil (n - raw_state_chunk_bytes) raw_state_chunk_bytes)
unfolding div_ceil
div_ceil-step n h = omega arith

pub length-chunks_from :
    (fuel : ℕ) (bytes : Bytes)
    → length bytes ≤ fuel
    → length (chunks_from fuel raw_state_chunk_bytes bytes)
      ≡ div_ceil (length bytes) raw_state_chunk_bytes
unfolding chunks_from
length-chunks_from zero [] h = sym div_ceil-zero
length-chunks_from zero (byte ∷ bytes) h = absurd (omega arith)
length-chunks_from (suc fuel) [] h = sym div_ceil-zero
length-chunks_from (suc fuel) (byte ∷ bytes) h =
    let left : length (drop raw_state_chunk_bytes (byte ∷ bytes)) ≤ fuel =
      omega (arith, length-drop raw_state_chunk_bytes (byte ∷ bytes)) in
    ap suc (length-chunks_from fuel (drop raw_state_chunk_bytes (byte ∷ bytes)) left)
    ∙ ap (λ n. suc (div_ceil n raw_state_chunk_bytes))
        (length-drop raw_state_chunk_bytes (byte ∷ bytes))
    ∙ sym (div_ceil-step (length (byte ∷ bytes)) (omega arith))
