-- ===== src/Lib.antt =====
-- Ergo Agent: the embeddable agent core of internal/engine, with resource/, message/, session/ and
-- tool/.
--
-- The host calls the runtime with a command. A run (`execution` in internal/engine/runtime.go)
-- keeps a session, two queues of control messages and an event journal; each turn drains a queue,
-- asks the provider with retries, executes the tool calls and appends the results to the session.
-- Output of tools is truncated before it enters a message, and a long session is compacted.
--
-- Files and the code they model:
--   Prelude       Boolean tests, lists, association lists and integers over the native ℕ, and what the
--                 source uses of the packages strings and strconv (Prelude.Text).
--   Json          The values of type any, as encoding/json reads them: `get`, `put`, `put_all` are
--                 the accesses to map[string]any. A number is an exact decimal.
--   Message       message/message.go. Message.Codec is what encoding/json makes of its tags; keys
--                 are matched exactly, and numbers have no exponent.
--   Session       internal/engine/runtime.go: branchEntries, branch, appendEntry. The state is the
--                 list of entries and the leaf of `execution`. Session.Walk is about the
--                 walk to the root, Session.Branch about branches, Session.Append about appends.
--                 Session.Settings has restoreSettings and effectivePlanMode.
--   Controls      internal/engine/runtime.go: pollControls, drainQueue and
--                 injectQueuedMessages with the two queues.
--   Journal       internal/engine/runtime.go: emit and failEventPipeline. Extensions and the sink
--                 of the host are functions; the mutex is left out, since emit holds it throughout.
--   Retry         internal/engine/runtime.go: complete and retryableProviderError. Hooks, provider
--                 and context are functions of the attempt; the events of a retry and the headers
--                 are left out. Durations are int64 nanoseconds with their wrap-around.
--   Registry      internal/engine/runtime.go: extensionTools, findTool, filterTools, upsertTool,
--                 expandTools, planTools. What a tool does is a parameter.
--   Profile       resource/profile.go, and agentRole and uniqueStrings of resource/resources.go.
--   Truncate      internal/engine/truncate.go over lists of bytes.
--   Provider      provider/provider.go: the structs of a request, a completion and an HTTP error.
--   Compaction    internal/engine/compaction.go: token estimates, usageTokens, prepareCompaction and
--                 entryMessage, with messagesFromEntries of runtime.go. Compaction.Serialize has
--                 serializeConversation and the prompts, Compaction.Run compactWithReason with its
--                 requests for summaries, Compaction.Effect what it does to the context. The parsing of
--                 times and the length of a raw JSON text are parameters. Compaction.Cuts and
--                 Compaction.Partition are about the cut and its parts, Compaction.Context about what
--                 is read afterwards, Compaction.Summaries about branch summaries, Compaction.Stuck
--                 about branches that are not compacted.
--   Schema        internal/engine/tool_validation.go: validateSchemaValueAt over decoded JSON, with a
--                 parameter for regular expressions. Errors are data instead of texts; the random
--                 order of a Go map is the order of the fields. Schema.Fuel measures schemas;
--                 Schema.Total and Schema.References are about termination, Schema.Accepted about
--                 object schemas. Schema.Coerce has coerceWithJSONSchema, coercePrimitive and
--                 validateToolCall of the same file; strconv.ParseFloat and the text of a number are
--                 parameters, and a number has the form of its literal, which json.Marshal may refuse
--                 (+5, 0x10, +Inf). A schema is what JSON decodes to: an enum of the Go type []string
--                 is left out. cloneJSONValue returns the value itself when json.Marshal refuses it;
--                 what a rejected alternative then changes in it is left out.
--   FileEdit      internal/engine/file_edit.go: applyFileEdits with the exact and the fuzzy search,
--                 over code points instead of bytes. FileEdit.Search, FileEdit.Splice and
--                 FileEdit.Matches are about the matches and their replacement, FileEdit.Diff has
--                 renderEditDiff, FileEdit.Diff.Patch is about its patch.
--   Pipeline      internal/engine/runtime.go: prepareToolExecution with its gates in their order and
--                 requiresApproval; Pipeline.Batch has executePreparedTool, recordToolOutcome and
--                 executeToolBatch. Validation, hooks, tools, hashes and the moments at which the
--                 context is done are functions. The goroutines of a batch write disjoint slots, and
--                 are run in the order of the calls. Pipeline.Clearance is about what is
--                 executed, Pipeline.Answers about the messages that answer.
--   Agent         internal/engine/runtime.go: the loop of runAgent over its turns, from the first
--                 message on, with endAgent, failTruncatedToolCalls and the records of a turn's
--                 messages. Agent.Overflow has isContextOverflowError, Agent.Usage normalizeUsage and
--                 applyModelPricing, Agent.Turn a request, Agent.Tools the calls of an answer,
--                 Agent.Loop the loop. Providers, tools, hooks, the controls that arrive and the
--                 moments at which the context is done are functions of the turn. Agent.Stable,
--                 Agent.Replay and Agent.Mirror are about the session and the messages,
--                 Agent.Answered about what is sent, Agent.Recovery about overflows.
--   Todo          The todo tool of internal/engine/tools.go and restoreTodos of runtime.go.
--                 Todo.Numbered is about the numbers, Todo.Restored about what a later run reads.
--   Subagent      runSubagent and truncateSubagentOutput of internal/engine/tools.go; what a subagent
--                 answers is a parameter. Subagent.Parallel and Subagent.Chain are about the modes.
--   Operation     The operations of internal/engine/runtime.go that change the session, with the
--                 setters of internal/engine/extensions.go and summarizeAbandonedBranch of
--                 compaction.go. Operation.Settled is about settings, Operation.Navigated about the
--                 move to another branch.
--   Tests         Concrete runs of the theorems.
--
-- Fuel: the walk of branchEntries gets one step more than the session has entries. Each step but the
-- last adds an entry with an id not seen before, so that this is enough. The calls of
-- validateSchemaValueAt are as deep as the fuel; the nesting of the schema bounds it, but for
-- references, and so do the calls of coerceWithJSONSchema, which follows none of them itself. The
-- binary digits of a number are counted up to 64, since a larger float is no int. The loop of runAgent
-- takes MaxTurns turns when that is positive; otherwise the source has no bound, the fuel
-- says how many turns are looked at, and the theorems are about every fuel. The waves of parallel
-- subagents get as much fuel as there are tasks. All other loops are structural recursions.
--
-- Not modelled: HTTP clients, providers, MCP, the file system, shell and image tools, and the
-- package managers, which are input and output; the example control plane of examples/ecs; the
-- facades of agent/, runtime/ and runner/, which re-export the engine. Of the engine itself the choice
-- of the profile and of the tools at the start of runAgent, the events within a streamed message,
-- RunWithOptions, the operations inspect, extension_command and those of packages, parseFileEdits and
-- the choice of the agent that runs a subagent's task are left out: the functions that are modelled
-- enter them by their arguments and results only. The snapshot and the event run.completed after an
-- operation, whose errors it returns, are left out too. The hooks before a compaction get the
-- preparation by pointer and may assign to its fields; writes of hooks, also of those after it, into
-- the entries and lists that they share with the session are left out. failEventPipeline calls cancel
-- without a test, since RunWithOptions always sets it. A float64 is an exact decimal, except for the
-- next number of restored todos, which is rounded; in memory that number is an int, which is read as
-- it is.
pub mod Prelude
pub mod Operation
pub mod Todo
pub mod Subagent
pub mod Truncate
pub mod Profile
pub mod Registry
pub mod Json
pub mod Session
pub mod Message
pub mod Controls
pub mod Journal
pub mod Retry
pub mod Compaction
pub mod Schema
pub mod Pipeline
pub mod Provider
pub mod Agent
pub mod FileEdit
mod Tests
