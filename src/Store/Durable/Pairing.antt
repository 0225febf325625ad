-- ===== src/Store/Durable/Pairing.antt =====
-- The redaction of a session keeps the answers of tool calls with their calls
-- (crates/fx-store/src/lib.rs, lines 1121 to 1181).
use fx_rs.Base.{◌≡◌, refl, sym, ap, ◌∙◌, true, some, List, [], ◌∷◌, ◌++◌, is_nil, arith}
use mathlib.Core.Path.{subst}
use fx_rs.Base.Meets.{Meets-Any, Meets-bind}
use fx_rs.Base.Yields.{Any, Meets}
use fx_rs.Agent.Turns.Paired.{Answers, Paired}
use fx_rs.Message.{Role, ToolCall, ChatMessage, role_eq}
use fx_rs.Store.Durable.{
  Identifiers, redact, redact_option, replace, replace_option, collect_identifiers, redact_call,
  redact_calls, redact_message, redact_messages, redact_durable_session,
}
use fx_rs.Store.Events.{Codec}
use fx_rs.Store.Session.{Session}

module _ (identifiers : Identifiers) where
  -- The calls with their identifiers replaced.
  data Calls : List ToolCall → List ToolCall → Type 0 where
    nil : Calls [] []
    cons :
        (c c' : ToolCall) (cs cs' : List ToolCall)
        → c'.id ≡ replace identifiers c.id
        → Calls cs cs'
        → Calls (c ∷ cs) (c' ∷ cs')

  record IsRedacted (m m' : ChatMessage) : Type 0 where
    role : m'.role ≡ m.role
    tool_call_id : m'.tool_call_id ≡ replace_option identifiers m.tool_call_id
    calls : Calls m.tool_calls m'.tool_calls

  data Messages : List ChatMessage → List ChatMessage → Type 0 where
    nil : Messages [] []
    cons :
        (m m' : ChatMessage) (ms ms' : List ChatMessage)
        → IsRedacted m m'
        → Messages ms ms'
        → Messages (m ∷ ms) (m' ∷ ms')

  redact_call-id :
      (c : ToolCall)
      → Meets Any (λ (c' : ToolCall). c'.id ≡ replace identifiers c.id) (redact_call identifiers c)
  unfolding redact_call
  redact_call-id c =
      Meets-bind Any Any _ (redact c.arguments_json) _ (Meets-Any (redact c.arguments_json)) (λ a h.
        Meets-bind Any Any _ (redact_option c.provider_result) _
          (Meets-Any (redact_option c.provider_result)) (λ r h'. refl))

  redact_calls-Calls : (cs : List ToolCall) → Meets Any (Calls cs) (redact_calls identifiers cs)
  unfolding redact_calls
  redact_calls-Calls [] = Calls.nil
  redact_calls-Calls (c ∷ cs) =
      Meets-bind Any (λ (c' : ToolCall). c'.id ≡ replace identifiers c.id) _
        (redact_call identifiers c) _ (redact_call-id c)
        (λ c' h.
          Meets-bind Any (Calls cs) _ (redact_calls identifiers cs) _ (redact_calls-Calls cs)
            (λ cs' h'. Calls.cons c c' cs cs' h h'))

  redact_message-IsRedacted :
      (m : ChatMessage) → Meets Any (IsRedacted m) (redact_message identifiers m)
  unfolding redact_message
  redact_message-IsRedacted m =
      Meets-bind Any Any _ (redact_option m.content) _ (Meets-Any (redact_option m.content))
        (λ content h.
          Meets-bind Any (Calls m.tool_calls) _ (redact_calls identifiers m.tool_calls) _
            (redact_calls-Calls m.tool_calls)
            (λ cs h'. record { role = refl; tool_call_id = refl; calls = h' }))

  redact_messages-Messages :
      (ms : List ChatMessage) → Meets Any (Messages ms) (redact_messages identifiers ms)
  unfolding redact_messages
  redact_messages-Messages [] = Messages.nil
  redact_messages-Messages (m ∷ ms) =
      Meets-bind Any (IsRedacted m) _ (redact_message identifiers m) _ (redact_message-IsRedacted m)
        (λ m' h.
          Meets-bind Any (Messages ms) _ (redact_messages identifiers ms) _
            (redact_messages-Messages ms) (λ ms' h'. Messages.cons m m' ms ms' h h'))

  Calls-nil : (cs cs' : List ToolCall) → Calls cs cs' → is_nil cs ≡ true → is_nil cs' ≡ true
  unfolding is_nil
  Calls-nil _ _ Calls.nil h = h
  Calls-nil _ _ (Calls.cons c c' cs cs' e r) h = absurd (ground arith)

  -- What `answered` needs of the redacted replies and of what follows them.
  abbrev Follows : List ToolCall → List ChatMessage → Type 0
  Follows calls ms =
      (replies : List ChatMessage) × (rest : List ChatMessage) × (ms ≡ replies ++ rest)
      × Answers calls replies
      × Paired rest

  Answers-Follows :
      (calls calls' : List ToolCall) (replies rest ms' : List ChatMessage)
      → Answers calls replies
      → Calls calls calls'
      → Messages (replies ++ rest) ms'
      → ((rest' : List ChatMessage) → Messages rest rest' → Paired rest')
      → Follows calls' ms'
  Answers-Follows _ _ _ rest ms' Answers.nil Calls.nil h ih = ([], ms', refl, Answers.nil, ih ms' h)
  Answers-Follows _ _ _ rest _ (Answers.cons call calls reply replies r i n a)
        (Calls.cons c call' cs calls' e rs) (Messages.cons m reply' ms ms' redacted h) ih =
      extend (Answers-Follows calls calls' replies rest ms' a rs h ih)
    where
      extend : Follows calls' ms' → Follows (call' ∷ calls') (reply' ∷ ms')
      extend (replies', rest', split, answers, paired) = (
        reply' ∷ replies',
        rest',
        ap (reply' ∷◌) split,
        Answers.cons call' calls' reply' replies' (redacted.role ∙ r)
            (redacted.tool_call_id ∙ ap (replace_option identifiers) i ∙ ap some (sym e))
            (Calls-nil reply.tool_calls reply'.tool_calls redacted.calls n) answers,
        paired,
      )

  Messages-Paired : (ms ms' : List ChatMessage) → Paired ms → Messages ms ms' → Paired ms'
  Messages-Paired _ _ Paired.nil Messages.nil = Paired.nil
  Messages-Paired _ _ (Paired.plain m ms h t p) (Messages.cons n m' ns ms' redacted rest) =
      Paired.plain m' ms' (Calls-nil m.tool_calls m'.tool_calls redacted.calls h)
        (ap (λ role. role_eq role Role.tool) redacted.role ∙ t) (Messages-Paired ms ms' p rest)
  Messages-Paired _ _ (Paired.answered m replies rest r a p)
        (Messages.cons n m' ns ms' redacted h) =
      join (
        Answers-Follows m.tool_calls m'.tool_calls replies rest ms' a redacted.calls h
          (λ rest' q. Messages-Paired rest rest' p q))
    where
      join : Follows m'.tool_calls ms' → Paired (m' ∷ ms')
      join (replies', rest', split, answers, paired) =
          subst (λ l. Paired (m' ∷ l)) (sym split)
            (Paired.answered m' replies' rest' (redacted.role ∙ r) answers paired)

-- A session in which every tool call is answered, by its own tool message and in order, still has this
-- form when its secrets are masked and the identifiers of calls that hold secrets are replaced.
pub redact_durable_session-Paired :
    {V : Type 0} (codec : Codec V) (session : Session)
    → Paired session.history
    → Meets Any (λ (stored : Session). Paired stored.history) (redact_durable_session codec session)
unfolding redact_durable_session
redact_durable_session-Paired codec session paired =
    Meets-bind Any Any _ (redact_option session.title) _ (Meets-Any (redact_option session.title))
      (λ title h.
        Meets-bind Any Any _ (collect_identifiers codec [] session.history) _
          (Meets-Any (collect_identifiers codec [] session.history))
          (λ identifiers h'.
            Meets-bind Any (Messages identifiers session.history) _
              (redact_messages identifiers session.history) _
              (redact_messages-Messages identifiers session.history)
              (λ history h''. Messages-Paired identifiers session.history history paired h'')))
