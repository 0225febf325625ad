-- ===== src/Redaction/Masking.antt =====
-- What the masking of a text does (crates/fx-core/src/redaction.rs, lines 3 to 27).
use fx_rs.Base.{
  ℕ, zero, suc, ◌+◌, ◌-◌, ◌≤◌, ◌<◌, ◌≡◌, refl, sym, ap, ◌∙◌, Bool, true, false, Option, none, some,
  [], ◌∷◌, ◌++◌, leb, if◌then◌else◌, length, length-drop, drop, get_elem?, arith, is_nil, part,
  part-join, part-nil, part-one, take_all, append_assoc, append_nil,
}
use mathlib.Core.Path.{subst}
use fx_rs.Redaction.Bytes.{Bytes}
use fx_rs.Redaction.Token.{Span}
use fx_rs.Redaction.Mask.{redacted, secret_span, bytes_between, redact_from, redact_bytes}
use fx_rs.Redaction.Spans.{secret_span-Within}
use fx_rs.Redaction.TokenSpans.{AllWithin}

-- The text from an index on, byte by byte, becomes the output: at each index that the search comes
-- to, a secret there is masked whole, and a byte that begins no secret stays.
pub data Masked (bytes : Bytes) : ℕ → Bytes → Type 0 where
  finish : (i : ℕ) → length bytes ≤ i → Masked bytes i []
  keep :
      (i byte : ℕ) (out : Bytes)
      → get_elem? bytes i ≡ some byte
      → secret_span bytes i ≡ none
      → Masked bytes (suc i) out
      → Masked bytes i (byte ∷ out)
  mask :
      (i prefix_end value_end : ℕ) (out : Bytes)
      → secret_span bytes i ≡ some (prefix_end, value_end)
      → Masked bytes value_end out
      → Masked bytes i (part bytes i prefix_end ++ (redacted ++ out))

-- The loop comes to an end with an output and a place up to which it is copied, and what it adds to
-- what it had is the masked text.
record Ends (bytes output : Bytes) (copied index : ℕ) (r : Option (Bytes × ℕ)) : Type 0 where
  output' : Bytes
  copied' : ℕ
  rest : Bytes
  result : r ≡ some (output', copied')
  below : copied' ≤ length bytes
  empty : is_nil output' ≡ true → copied' ≡ 0
  masked : Masked bytes index rest
  same : output ++ (part bytes copied index ++ rest) ≡ output' ++ drop copied' bytes

get_elem?-in_range :
    (bytes : Bytes) (i : ℕ) → i < length bytes → (byte : ℕ) × (get_elem? bytes i ≡ some byte)
get_elem?-in_range [] i h = ground arith
get_elem?-in_range (b ∷ bytes) zero h = (b, refl)
get_elem?-in_range (b ∷ bytes) (suc i) h = get_elem?-in_range bytes i (omega arith)

bytes_between-part :
    (bytes : Bytes) (from to : ℕ)
    → from ≤ to
    → to ≤ length bytes
    → bytes_between bytes from to ≡ some (part bytes from to)
unfolding bytes_between
bytes_between-part bytes from to h below = ground arith

part-tail : (bytes : Bytes) (from : ℕ) → part bytes from (length bytes) ≡ drop from bytes
part-tail bytes from =
    take_all (length bytes - from) (drop from bytes) (sym (length-drop from bytes))

Ends-here :
    (bytes output : Bytes) (copied index : ℕ)
    → copied ≤ index
    → index ≡ length bytes
    → (is_nil output ≡ true → copied ≡ 0)
    → Ends bytes output copied index (some (output, copied))
Ends-here bytes output copied index h e empty = record {
  output' = output;
  copied' = copied;
  rest = [];
  result = refl;
  below = omega arith;
  empty = empty;
  masked = Masked.finish index (omega arith);
  same =
      ap (output ++◌)
        (append_nil (part bytes copied index) ∙ ap (part bytes copied) e ∙ part-tail bytes copied);
}

Ends-keep :
    (bytes output : Bytes) (copied index byte : ℕ) (r : Option (Bytes × ℕ))
    → copied ≤ index
    → get_elem? bytes index ≡ some byte
    → secret_span bytes index ≡ none
    → Ends bytes output copied (suc index) r
    → Ends bytes output copied index r
Ends-keep bytes output copied index byte r h at no_span ends = record {
  output' = ends.output';
  copied' = ends.copied';
  rest = byte ∷ ends.rest;
  result = ends.result;
  below = ends.below;
  empty = ends.empty;
  masked = Masked.keep index byte ends.rest at no_span ends.masked;
  same = sym (ap (output ++◌) moved) ∙ ends.same;
}
  where
    moved :
        part bytes copied (suc index) ++ ends.rest ≡ part bytes copied index ++ (byte ∷ ends.rest)
    moved =
        ap (λ xs. xs ++ ends.rest)
          (part-join bytes copied index (suc index) h (omega arith)
            ∙ ap (part bytes copied index ++◌) (part-one bytes index byte at))
        ∙ append_assoc (part bytes copied index) (byte ∷ []) ends.rest

Ends-mask :
    (bytes output : Bytes) (copied index prefix_end value_end : ℕ) (r : Option (Bytes × ℕ))
    → copied ≤ index
    → index ≤ prefix_end
    → secret_span bytes index ≡ some (prefix_end, value_end)
    → Ends bytes (output ++ (part bytes copied prefix_end ++ redacted)) value_end value_end r
    → Ends bytes output copied index r
Ends-mask bytes output copied index prefix_end value_end r h h' span ends = record {
  output' = ends.output';
  copied' = ends.copied';
  rest = part bytes index prefix_end ++ (redacted ++ ends.rest);
  result = ends.result;
  below = ends.below;
  empty = ends.empty;
  masked = Masked.mask index prefix_end value_end ends.rest span ends.masked;
  same = sym moved ∙ ends.same;
}
  where
    moved :
        (output ++ (part bytes copied prefix_end ++ redacted))
          ++ (part bytes value_end value_end ++ ends.rest)
        ≡ output
          ++ (part bytes copied index ++ (part bytes index prefix_end ++ (redacted ++ ends.rest)))
    moved =
        ap (λ xs. (output ++ (part bytes copied prefix_end ++ redacted)) ++ (xs ++ ends.rest))
          (part-nil bytes value_end)
        ∙ append_assoc output (part bytes copied prefix_end ++ redacted) ends.rest
        ∙ ap (output ++◌) (
            append_assoc (part bytes copied prefix_end) redacted ends.rest
            ∙ ap (λ xs. xs ++ (redacted ++ ends.rest))
                (part-join bytes copied index prefix_end h h')
            ∙ append_assoc (part bytes copied index) (part bytes index prefix_end)
                (redacted ++ ends.rest))

is_nil-append_redacted : (xs ys : Bytes) → is_nil (xs ++ (ys ++ redacted)) ≡ false
unfolding is_nil
is_nil-append_redacted [] [] = refl
is_nil-append_redacted [] (y ∷ ys) = refl
is_nil-append_redacted (x ∷ xs) ys = refl

redact_from-Ends :
    (fuel : ℕ) (bytes output : Bytes) (copied index : ℕ)
    → length bytes ≤ index + fuel
    → copied ≤ index
    → index ≤ length bytes
    → (is_nil output ≡ true → copied ≡ 0)
    → Ends bytes output copied index (redact_from fuel bytes output copied index)
unfolding redact_from
redact_from-Ends zero bytes output copied index enough h below empty =
    either (leb (length bytes) index) (ground arith)
  where
    either :
        (b : Bool)
        → b ≡ true
        → Ends bytes output copied index (if b then some (output, copied) else none)
    either true e = Ends-here bytes output copied index h (omega arith) empty
    either false e = ground arith
redact_from-Ends (suc fuel) bytes output copied index enough h below empty =
    either (leb (length bytes) index) refl (λ inside.
      found (secret_span bytes index) refl (secret_span-Within bytes index below) inside
        (redact_from-Ends fuel bytes output copied (suc index) (omega arith) (omega arith)
          (omega arith) empty)
        (λ prefix_end value_end moved within.
          redact_from-Ends fuel bytes (output ++ (part bytes copied prefix_end ++ redacted))
            value_end value_end (omega arith) (omega arith) within
            (λ e. ground (arith, is_nil-append_redacted output (part bytes copied prefix_end)))))
  where
    next : Option Span → Option (Bytes × ℕ)
    next span = elim span [
      | none ↦ redact_from fuel bytes output copied (suc index)
      | some (prefix_end, value_end) ↦ elim (bytes_between bytes copied prefix_end) [
        | none ↦ none
        | some piece ↦ redact_from fuel bytes (output ++ (piece ++ redacted)) value_end value_end
      ]
    ]

    found :
        (span : Option Span)
        → secret_span bytes index ≡ span
        → AllWithin bytes index span
        → index < length bytes
        → Ends bytes output copied (suc index) (redact_from fuel bytes output copied (suc index))
        → ((prefix_end value_end : ℕ)
            → index < value_end
            → value_end ≤ length bytes
            → Ends bytes
                (output ++ (part bytes copied prefix_end ++ redacted))
                value_end
                value_end
                (redact_from fuel bytes
                  (output ++ (part bytes copied prefix_end ++ redacted))
                  value_end
                  value_end))
        → Ends bytes output copied index (next span)
    found none e within inside kept masked =
        let (byte, at) = get_elem?-in_range bytes index inside in
        Ends-keep bytes output copied index byte _ h at e kept
    found (some (prefix_end, value_end)) e (w1, w2, w3, w4) inside kept masked =
        Ends-mask bytes output copied index prefix_end value_end _ h w1 e (
          subst
            (λ o.
              Ends bytes (output ++ (part bytes copied prefix_end ++ redacted)) value_end value_end
                (elim o [
                  | none ↦ none
                  | some piece ↦
                      redact_from fuel bytes (output ++ (piece ++ redacted)) value_end value_end
                ]))
            (sym (bytes_between-part bytes copied prefix_end (omega arith) (omega arith)))
            (masked prefix_end value_end w3 w4))

    either :
        (b : Bool)
        → leb (length bytes) index ≡ b
        → (index < length bytes → Ends bytes output copied index (next (secret_span bytes index)))
        → Ends bytes output copied index
            (if b then some (output, copied) else next (secret_span bytes index))
    either true e rest = Ends-here bytes output copied index h (ground arith) empty
    either false e rest = rest (ground arith)

-- The masking of the bytes of a text never cuts them out of range and comes to an end, and its output is the text
-- with each secret masked that the search meets, byte by byte from the start.
pub redact_bytes-Masked :
    (bytes : Bytes) → (out : Bytes) × (redact_bytes bytes ≡ some out) × Masked bytes 0 out
unfolding redact_bytes
redact_bytes-Masked bytes = (
  ends.rest,
  subst (λ r. finish r ≡ some ends.rest) (sym ends.result)
      (either (is_nil ends.output') refl ∙ ap some (sym ends.same)),
  ends.masked,
)
  where
    finish : Option (Bytes × ℕ) → Option Bytes
    finish r = elim r [
      | none ↦ none
      | some (output, copied) ↦
          if is_nil output then some bytes else elim (bytes_between bytes copied (length bytes)) [
            | none ↦ none
            | some tail ↦ some (output ++ tail)
          ]
    ]

    ends : Ends bytes [] 0 0 (redact_from (length bytes) bytes [] 0 0)
    ends =
        redact_from-Ends (length bytes) bytes [] 0 0 (omega arith) (omega arith) (omega arith)
          (λ _. refl)

    is_nil-nil : (xs : Bytes) → is_nil xs ≡ true → xs ≡ []
    is_nil-nil [] e = refl
    is_nil-nil (x ∷ xs) e = unfold is_nil in ground arith

    either :
        (b : Bool)
        → is_nil ends.output' ≡ b
        → (if b then some bytes else elim (bytes_between bytes ends.copied' (length bytes)) [
          | none ↦ none
          | some tail ↦ some (ends.output' ++ tail)
        ])
          ≡ some (ends.output' ++ drop ends.copied' bytes)
    either true e = sym (
        ap (λ xs. some (xs ++ drop ends.copied' bytes)) (is_nil-nil ends.output' e)
        ∙ ap (λ n. some (drop n bytes)) (ends.empty e))
    either false e =
        subst
          (λ o.
            (elim o [ none ↦ none | some tail ↦ some (ends.output' ++ tail) ])
            ≡ some (ends.output' ++ drop ends.copied' bytes))
          (sym (bytes_between-part bytes ends.copied' (length bytes) ends.below (omega arith)))
          (ap (λ xs. some (ends.output' ++ xs)) (part-tail bytes ends.copied'))
