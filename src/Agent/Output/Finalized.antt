-- ===== src/Agent/Output/Finalized.antt =====
-- The outputs that go into the conversation (crates/fx-core/src/agent.rs, lines 717 to 762).
use fx_rs.Base.{
  ◌≤◌, ◌≡◌, ◌≢◌, refl, ◌∙◌, true, max, Option, none, some, Text, ltb, if◌then◌else◌, len, Result,
  ok, err, if_both, option_both,
}
use fx_rs.Base.Yields.{Meets}
use fx_rs.Agent.Output.{
  error_output, into_owned, finalize_inline, finalize_stored, finalize_durable, finalize_plain,
  finalize_tool_output,
}
use fx_rs.Agent.Output.Bounded.{bounded_inline_output_lem}
use fx_rs.Agent.Types.{Failure, ToolContext, RunState, on_world}
use fx_rs.Message.{ToolCall}
use fx_rs.Redaction.Secrets.{Cow, redact_secrets}
use fx_rs.Tools.Types.{ToolOutput, StoredToolResult, ToolResultStoreError, large_tool_result_bytes}

abbrev pub IsPanic : Failure → Type 0
IsPanic e = e ≡ Failure.panicked

module _ {W V : Type 0} (context : ToolContext W) where
  -- What holds of the finished output: its durable content was consumed, an error stays an error, and
  -- durable content that was not stored is within the limit on results.
  pub record Finalized (output out : ToolOutput V) : Type 0 where
    pub consumed : out.durable_content ≡ none
    pub fails : output.is_error ≡ true → out.is_error ≡ true
    pub bounded :
        output.durable_content ≢ none
        → context.tool_results ≡ none
        → len out.content ≤ context.max_result_bytes

  -- The redaction of a plain output drops its structured form.
  finalize_plain-Finalized :
      (output : ToolOutput V) (cow : Cow)
      → output.durable_content ≡ none
      → Finalized output (finalize_plain output cow)
  unfolding finalize_plain
  finalize_plain-Finalized output Cow.borrowed h = record {
    consumed = h;
    fails = λ e. e;
    bounded = λ d t. absurd (d h);
  }
  finalize_plain-Finalized output (Cow.owned redacted) h = record {
    consumed = h;
    fails = λ e. e;
    bounded = λ d t. absurd (d h);
  }

  finalize_inline-Finalized :
      (call : ToolCall) (output q : ToolOutput V) (durable : Text)
      → q.is_error ≡ output.is_error
      → Finalized output (finalize_inline context call q durable)
  unfolding finalize_inline
  finalize_inline-Finalized call output q durable same = record {
    consumed = refl;
    fails = λ e. same ∙ e;
    bounded = λ d t. (bounded_inline_output_lem durable context.max_result_bytes call.name).0;
  }

  finalize_stored-Finalized :
      (output q : ToolOutput V) (durable : Text) (r : Result ToolResultStoreError StoredToolResult)
      → q.is_error ≡ output.is_error
      → context.tool_results ≢ none
      → Finalized output (finalize_stored q durable r)
  unfolding finalize_stored error_output
  finalize_stored-Finalized output q durable (ok stored) same h = record {
    consumed = refl;
    fails = λ e. same ∙ e;
    bounded = λ d t. absurd (h t);
  }
  finalize_stored-Finalized output q durable (err e) same h = record {
    consumed = refl;
    fails = λ e. refl;
    bounded = λ d t. absurd (h t);
  }

  finalize_durable-Finalized :
      (call : ToolCall) (output q : ToolOutput V) (durable : Text) (s : RunState W V)
      → q.is_error ≡ output.is_error
      → Meets IsPanic (Finalized output) (finalize_durable context call q durable s).0
  unfolding finalize_durable
  finalize_durable-Finalized call output q durable s same = by_store context.tool_results refl
    where
      Good : Result Failure (ToolOutput V) × RunState W V → Type 0
      Good r = Meets IsPanic (Finalized output) r.0

      by_store :
          (store : Option
            (Text → Text → Text → W → Result ToolResultStoreError StoredToolResult × W))
          → context.tool_results ≡ store
          → let r : Result Failure (ToolOutput V) × RunState W V = (elim store [
            | none ↦ (ok (finalize_inline context call q durable), s)
            | some store ↦
                if ltb large_tool_result_bytes (len durable)
                then (
                  ok (finalize_stored q durable (on_world (store call.id call.name durable) s).0),
                  (on_world (store call.id call.name durable) s).1,
                )
                else (ok (finalize_inline context call q durable), s)
          ]) in
            Good r
      by_store none h = finalize_inline-Finalized call output q durable same
      by_store (some store) h =
          if_both Good (ltb large_tool_result_bytes (len durable)) _ _
            (finalize_stored-Finalized output q durable _ same (λ e. cc))
            (finalize_inline-Finalized call output q durable same)

  -- A finished output has no durable content left, and an error is still an error. Where the output
  -- had durable content and there is no store, its content is within the limit on results. The only
  -- failure is a panic of the redaction.
  pub finalize_tool_output-Finalized :
      (call : ToolCall) (output : ToolOutput V) (s : RunState W V)
      → Meets IsPanic (Finalized output) (finalize_tool_output context call output s).0
  unfolding finalize_tool_output
  finalize_tool_output-Finalized call output s = by_durable output.durable_content refl
    where
      Good : Result Failure (ToolOutput V) × RunState W V → Type 0
      Good r = Meets IsPanic (Finalized output) r.0

      by_durable :
          (d : Option Text)
          → output.durable_content ≡ d
          → let r : Result Failure (ToolOutput V) × RunState W V = (elim d [
            | none ↦ elim (redact_secrets output.content) [
              | none ↦ (err Failure.panicked, s)
              | some cow ↦ (ok (finalize_plain output cow), s)
            ]
            | some durable ↦ elim (redact_secrets durable) [
              | none ↦ (err Failure.panicked, s)
              | some cow ↦
                  finalize_durable context call
                    (record output {
                      original_bytes = max output.original_bytes (len durable);
                      durable_content = none;
                    })
                    (into_owned durable cow)
                    s
            ]
          ]) in
            Good r
      by_durable none h =
          option_both Good (redact_secrets output.content) _ _ refl
            (λ cow. finalize_plain-Finalized output cow h)
      by_durable (some durable) h =
          option_both Good (redact_secrets durable) _ _ refl
            (λ cow. finalize_durable-Finalized call output _ _ s refl)
