-- ===== src/Agent/Turns/Paired.antt =====
-- Conversations whose tool calls are answered (crates/fx-core/src/agent.rs, lines 243 to 319 and 460 to
-- 466).
use fx_rs.Base.{
  ◌≡◌, refl, sym, ap, ◌∙◌, Bool, true, false, some, List, [], ◌∷◌, ◌++◌, Text, if◌then◌else◌,
  length, count_while, is_nil, append_assoc, append_nil, arith,
}
use mathlib.Core.Path.{subst}
use fx_rs.Agent.Admission.{Outcome}
use fx_rs.Agent.Targets.{insert_stable_system_context}
use fx_rs.Agent.Turns.{tool_message, tool_messages}
use fx_rs.Message.{Role, ChatMessage, ToolCall, text_message, role_eq}

-- The tool messages answer the calls, each one its own, in order.
pub data Answers : List ToolCall → List ChatMessage → Type 0 where
  nil : Answers [] []
  cons :
      (call : ToolCall) (calls : List ToolCall) (reply : ChatMessage) (replies : List ChatMessage)
      → reply.role ≡ Role.tool
      → reply.tool_call_id ≡ some call.id
      → is_nil reply.tool_calls ≡ true
      → Answers calls replies
      → Answers (call ∷ calls) (reply ∷ replies)

-- Each assistant message with tool calls is followed at once by the answers to its calls, and no
-- other tool message occurs.
pub data Paired : List ChatMessage → Type 0 where
  nil : Paired []
  plain :
      (m : ChatMessage) (ms : List ChatMessage)
      → is_nil m.tool_calls ≡ true
      → role_eq m.role Role.tool ≡ false
      → Paired ms
      → Paired (m ∷ ms)
  answered :
      (m : ChatMessage) (replies rest : List ChatMessage)
      → m.role ≡ Role.assistant
      → Answers m.tool_calls replies
      → Paired rest
      → Paired (m ∷ (replies ++ rest))

pub Paired-append : (ms ns : List ChatMessage) → Paired ms → Paired ns → Paired (ms ++ ns)
Paired-append _ ns Paired.nil q = q
Paired-append _ ns (Paired.plain m ms h t p) q =
    Paired.plain m (ms ++ ns) h t (Paired-append ms ns p q)
Paired-append _ ns (Paired.answered m replies rest r a p) q =
    subst (λ all. Paired (m ∷ all)) (sym (append_assoc replies rest ns))
      (Paired.answered m replies (rest ++ ns) r a (Paired-append rest ns p q))

-- A message that is neither from a tool nor calls one.
pub Paired-plain :
    (m : ChatMessage)
    → is_nil m.tool_calls ≡ true
    → role_eq m.role Role.tool ≡ false
    → Paired (m ∷ [])
Paired-plain m h t = Paired.plain m [] h t Paired.nil

pub Paired-answered :
    (m : ChatMessage) (replies : List ChatMessage)
    → m.role ≡ Role.assistant
    → Answers m.tool_calls replies
    → Paired (m ∷ replies)
Paired-answered m replies r a =
    subst (λ all. Paired (m ∷ all)) (append_nil replies)
      (Paired.answered m replies [] r a Paired.nil)

pub tool_messages-Answers :
    {V : Type 0} (calls : List ToolCall) (outcomes : List (Outcome V))
    → length outcomes ≡ length calls
    → Answers calls (tool_messages calls outcomes)
unfolding tool_messages tool_message is_nil
tool_messages-Answers [] [] h = Answers.nil
tool_messages-Answers [] (o ∷ os) h = absurd (omega arith)
tool_messages-Answers (call ∷ calls) [] h = absurd (omega arith)
tool_messages-Answers (call ∷ calls) ((output, feedback) ∷ os) h =
    Answers.cons call calls _ _ refl refl refl (tool_messages-Answers calls os (omega arith))

module _ (content : Text) where
  -- The insertion goes through the system messages at the beginning.
  insert-cons :
      (m : ChatMessage) (ms : List ChatMessage)
      → insert_stable_system_context content (m ∷ ms) ≡ (
          if role_eq m.role Role.system
          then m ∷ insert_stable_system_context content ms
          else text_message Role.system content ∷ (m ∷ ms))
  unfolding insert_stable_system_context count_while
  insert-cons m ms = ground arith

  insert-nil : insert_stable_system_context content [] ≡ text_message Role.system content ∷ []
  unfolding insert_stable_system_context count_while
  insert-nil = refl

  insert-prefix :
      (m : ChatMessage) (ms : List ChatMessage) (b : Bool)
      → Paired (insert_stable_system_context content ms)
      → Paired (m ∷ ms)
      → is_nil m.tool_calls ≡ true
      → role_eq m.role Role.tool ≡ false
      → Paired (
          if b
          then m ∷ insert_stable_system_context content ms
          else text_message Role.system content ∷ (m ∷ ms))
  unfolding text_message role_eq is_nil
  insert-prefix m ms true inserted whole h t = Paired.plain m _ h t inserted
  insert-prefix m ms false inserted whole h t = Paired.plain _ _ refl refl whole

  pub insert-Paired :
      (ms : List ChatMessage) → Paired ms → Paired (insert_stable_system_context content ms)
  unfolding insert_stable_system_context count_while text_message role_eq is_nil
  insert-Paired _ Paired.nil = Paired.plain _ _ refl refl Paired.nil
  insert-Paired _ (Paired.plain m ms h t p) = subst Paired (sym (insert-cons m ms)) (
      insert-prefix m ms (role_eq m.role Role.system) (insert-Paired ms p) (Paired.plain m ms h t p)
        h t)
  insert-Paired _ (Paired.answered m replies rest r a p) =
      let e : role_eq m.role Role.system ≡ false = ap (λ role. role_eq role Role.system) r in
      subst Paired
        (sym (
          insert-cons m (replies ++ rest)
          ∙ ap
              (λ b.
                if b
                then m ∷ insert_stable_system_context content (replies ++ rest)
                else text_message Role.system content ∷ (m ∷ (replies ++ rest)))
              e))
        (Paired.plain _ _ refl refl (Paired.answered m replies rest r a p))

  -- A message that is not a system message stays at the end.
  pub insert-last :
      (ms : List ChatMessage) (m : ChatMessage)
      → role_eq m.role Role.system ≡ false
      → insert_stable_system_context content (ms ++ m ∷ [])
        ≡ insert_stable_system_context content ms ++ m ∷ []
  insert-last [] m h = ground (arith, insert-cons m [], insert-nil)
  insert-last (n ∷ ms) m h =
      ground (arith, insert-cons n (ms ++ m ∷ []), insert-cons n ms, insert-last ms m h)
