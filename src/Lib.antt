-- ===== src/Lib.antt =====
-- fx is a coding agent: a model proposes tool calls, and the agent decides, runs and records them.
-- This library models the parts of it that carry rules of their own, and proves what they promise.
-- The definitions follow the source function by function; paths start at the repository's root.
--
-- The parts, and the files that model them:
--
-- * Messages, `crates/fx-core/src/message.rs`: Message. A conversation is a list of `ChatMessage`,
--   which the context projector reads and which child agents keep as their history.
-- * Permissions, `crates/fx-core/src/permission.rs`: Permission. Permission.Engine has the engine's
--   state and `decide`; Permission.FilePath has the patterns, with the path components of
--   `std::path` on Unix. The engine's modes are those of child agents too.
-- * Context, `crates/fx-core/src/context.rs`: Context. Context.Words and Context.Estimate have the
--   texts and their estimates, Context.Summary the message that stands for what was left out,
--   Context.Groups the turns, and Context.Project the projector itself.
-- * Redaction, `crates/fx-core/src/redaction.rs`: Redaction. Redaction.Token and
--   Redaction.Assignment are the scanners, and Redaction.Mask is the loop that masks what they find.
-- * Child agents, `crates/fx-subagent/src/lib.rs` and `crates/fx-subagent/src/domain.rs`: Subagent.
--   Subagent.Child has the operations on one child, each as the closure that runs under its lock:
--   `message` with both its branches, `configure`, `lifecycle`, the change of `relationship`, the two
--   halves of `run_child` and the events of tools.
--   Subagent.Child.Calls has histories of these in any order, as callers and runs interleave under
--   the lock of the child; only the reset of the cancellation flag, which the source makes just
--   before a run takes the lock, is one step with the start of the run here. Subagent.Tree has the
--   tree of children: the test of authority, the search for a cycle, `relationship` and the
--   milestones that a child reports, on an association list that stands for the map from ids to
--   children.
-- * Monitors of terminals, `crates/fx-process/src/monitor.rs`: Monitor. Monitor.Config has the
--   definitions and their validation, Monitor.Clock the deadlines, Monitor.Pattern the matcher of
--   output, Monitor.Create the creation and the integrity check, and Monitor.Machine the operations,
--   one for each method. Monitor.Machine.Host has what a round of
--   `crates/fx-process/src/terminal_monitor_store.rs` does to one monitor.
-- * Gateways, `crates/fx-core/src/gateway.rs`: Gateway. Gateway.Types has requests and answers, and
--   Gateway.Retry is `SafeRetryGateway`.
-- * Tools, `crates/fx-core/src/tool.rs`, `crates/fx-core/src/tool_result.rs` and
--   `crates/fx-core/src/read_evidence.rs`: Tools. Tools.Types has what a tool is to the agent,
--   Tools.Registry the registry and the validation of calls, Tools.Evidence the evidence of reads,
--   whose keys are paths by their components, and sequences of writes to it.
-- * The agent, `crates/fx-core/src/agent.rs`: Agent. Agent.Turns is the loop over the model's
--   answers; it projects the conversation with Context.Project and hands the calls of an answer to
--   Agent.Targets, which looks for new project context, and to Agent.Batch, which executes them.
--   Agent.Admission asks the engine of Permission and the approval handler, Agent.Join polls the
--   futures of calls that run at the same time, and Agent.Output finishes what tools give, with
--   Redaction.Secrets.
-- * The session store, `crates/fx-store/src/lib.rs` and `crates/fx-core/src/session.rs`: Store.
--   Store.Session has sessions and their validation, and Store.Events the events of the log and how a
--   replay applies them; Store.Events.Write is how a save writes them. Store.Durable is the
--   redaction before a save.
-- * Base has what they share: native numbers and their tests, lists, text as code points with its
--   UTF-8 bytes, results, 64-bit integers, and methods that keep what they wrote before an error.
--
-- State and errors: a method on `&mut self` is a function from the state to a result and the state
-- behind it, so that what is written before an error stays written, as in the source. A function
-- without a receiver returns `Result`. `none` stands for a panic in Redaction.Mask and
-- Redaction.Secrets; in the agent a panic is a failure of its own.
--
-- The world: gateways, tools, the approval handler, the store of results and the cancellation flag
-- are functions that read and change a world of an unknown type `W`, and JSON values have an unknown
-- type `V`. The futures of tools are lists of polls, between which the world changes. The events
-- that a run emits are a list of its state.
--
-- Integers: `usize` and `u64` are native numbers with their saturation and checks written out, and
-- `i64` is `ℤ` with its checks. Lengths and indices of texts and lists stay below 2^63, as they do
-- in memory, and are not bounded in the model.
--
-- Fuel: the loop of Redaction.Mask has as much fuel as the text has bytes, and each turn moves the
-- index on, which is part of the theorem about it. The two loops up the parents of a child have the
-- turns that the source gives them, and answer as the source does when these run out. The decimal
-- digits of Context.Words have one turn for each unit of the number. The loop of `advance_deadline` is the division that it computes.
-- The rounds of Agent.Join have one turn more than all futures have polls left, and each round uses up
-- a poll; the batches of Agent.Batch have one turn for each call, and each turn takes a call or more.
-- The loop of Agent.Turns takes the fuel as an argument: each pass counts a step, so that a limit on
-- the steps is fuel enough; with no limit it may run for ever. The chunks of Store.Events.Write have
-- one turn for each byte. Every other loop recurs on its list.
--
-- Not modelled: files, processes, HTTP, JSON and clocks, which are arguments where the code uses
-- them (the time, the answer of a probe, the result of a run); the texts of error messages of
-- monitors; the creation, restoring and inspection of child agents and the saving to their store; the
-- round of the monitor host over its list of monitors and the events it records; the validity of the masked bytes as UTF-8,
-- where a failure is a panic of the model; the default methods of tools; the files of the session
-- store with its watermark, the frames of its log and their hash; the store of tool results; and the
-- providers, the MCP client, the tools themselves, configuration and user interfaces.
pub mod Base
pub mod Message
pub mod Gateway
pub mod Permission
pub mod Context
pub mod Redaction
pub mod Tools
pub mod Agent
pub mod Store
pub mod Subagent
pub mod Monitor
