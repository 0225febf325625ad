-- ===== src/Context/Tests.antt =====
-- The projection of context, run on a conversation with two turns (crates/fx-core/src/context.rs).
use fx_rs.Base.{
  ◌+◌, ◌≤◌, ◌≡◌, refl, List, [], ◌∷◌, text, length, drop, ◌==◌, if◌then◌else◌, len, len_utf8,
  unwrap_or, is_nil, count_while,
}
use fx_rs.Message.{ChatMessage, Role, role_eq, text_message}
use fx_rs.Context.Estimate.{
  estimate_messages_tokens, messages_tokens, message_tokens, calls_tokens, option_tokens,
  estimate_text_tokens, words_tokens, word_tokens,
}
use fx_rs.Context.Words.{split_whitespace, begins_word, is_whitespace}
use fx_rs.Context.Groups.{conversation_groups, groups_from, slice}
use fx_rs.Context.Groups.Partition.{concat_groups, conversation_groups-cover}
use fx_rs.Context.Project.{project, assemble, count_omitted, select, select_older}
use fx_rs.Context.Project.Account.{project-count}
use fx_rs.Context.Project.Outcome.{Outcome, project-outcome}
use fx_rs.Context.Project.Shape.{Between, prefix_of, newest_turn, project-Between}
use fx_rs.Context.Summary.{compacted_message, summary_max_bytes}
use fx_rs.Context.Summary.Bounded.{compacted_message-len}

abbrev rules : ChatMessage
rules = text_message Role.system (text "be brief")

abbrev first : ChatMessage
first = text_message Role.user (text "hi")

abbrev reply : ChatMessage
reply = text_message Role.assistant (text "ho")

abbrev second : ChatMessage
second = text_message Role.user (text "go on")

abbrev two_turns : List ChatMessage
two_turns = rules ∷ first ∷ reply ∷ second ∷ []

-- With one token, the first turn is left out.
first_turn_omitted : (project two_turns 1).omitted_messages ≡ 2
unfolding project is_nil estimate_messages_tokens message_tokens calls_tokens text_message
    option_tokens estimate_text_tokens words_tokens split_whitespace word_tokens len
    conversation_groups count_while role_eq groups_from assemble count_omitted len_utf8
    messages_tokens slice select select_older begins_word is_whitespace
first_turn_omitted = refl

conversation_groups-cover_example :
    concat_groups two_turns (conversation_groups two_turns 1) ≡ drop 1 two_turns
conversation_groups-cover_example = conversation_groups-cover two_turns 1

compacted_message-len_example :
    len (unwrap_or (compacted_message two_turns).content []) ≤ summary_max_bytes
compacted_message-len_example = compacted_message-len two_turns

project-Between_example :
    Between (prefix_of two_turns) (newest_turn two_turns) (project two_turns 1).messages
project-Between_example = project-Between two_turns 1

project-count_example :
    length (project two_turns 1).messages + (project two_turns 1).omitted_messages
    ≡ length two_turns + (if (project two_turns 1).omitted_messages == 0 then 0 else 1)
project-count_example = project-count two_turns 1

project-outcome_example : Outcome two_turns 1 (project two_turns 1)
project-outcome_example = project-outcome two_turns 1
