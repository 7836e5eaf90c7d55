-- ===== src/Lib.antt =====
-- halfmoon: a verification library for the parts of the program that route messages to agents, keep
-- conversations, choose models, split answers and keep media files.
--
-- The agent loop keeps each conversation through the interface of pkg/session/session_store.go, which
-- has two implementations: the manager of pkg/session/manager.go, a map in memory that is saved to
-- JSON files, and the backend of pkg/session/jsonl_backend.go over the append-only files of
-- pkg/memory/jsonl.go. To get an answer it resolves the configured names to candidates
-- (pkg/providers/model_ref.go, fallback.go) and runs them in order: candidates in cooldown are skipped
-- (cooldown.go), errors are classified (error_classifier.go), retriable ones are counted against the
-- model and the next candidate is tried. Messages that arrive while it runs wait in a steering queue;
-- a history that no longer fits the model's window is cut at a turn (pkg/agent/context_budget.go).
--
-- Before that, pkg/routing/route.go picks the agent for an incoming message and builds the key of its
-- session (session_key.go), under which the stores above keep the conversation. Long answers are split
-- by pkg/channels/split.go before a channel sends them. Files that come with a message are registered
-- with pkg/media/store.go under a scope, and released with it. pkg/cron/service.go sends messages at set
-- times, and pkg/tools/registry.go keeps the tools that the loop offers to the model.
--
-- Files:
-- - Base: Boolean tests, lists over native numbers, association lists for Go's maps, integers, and
--   Go's texts as lists of code points with the functions of package strings that the source uses.
-- - Protocol: pkg/providers/protocoltypes/types.go.
-- - Memory: pkg/memory/jsonl.go. Memory.Lines is the scanner, Memory.Codec is encoding/json as a
--   parameter with its documented laws, Memory.Store has the operations on the two files of one session
--   (readMeta is `read_meta`, addMsg is `add_full_message`, and so on by name), Memory.Keys the names
--   of the files of many sessions. Under Memory.Store: Clean and Keeps describe uninterrupted files,
--   Session is the conversation that they implement, Crash and Rewrite say what interruptions leave, and
--   Crash.Lost which appends never reach a reader.
-- - Session: pkg/session/manager.go; Session.Backends compares it with the files.
-- - Providers.ModelRef: pkg/providers/model_ref.go. Providers.Cooldown: cooldown.go, with the
--   tables of its waiting times in Timing, what a history of marks leaves in History, and how long a
--   failure keeps a model out in Backoff.
--   Providers.Reason: the failure types of types.go. Providers.Regex and Providers.Classifier:
--   error_classifier.go, with where a matched group stands in Regex.Found, the status that a message
--   shows in Classifier.Status, and what can be answered in Classifier.Reasons. Providers.Fallback: fallback.go.
-- - Agent.Budget: pkg/agent/context_budget.go, with its boundaries and its estimates. Agent.Steering: the
--   queue of pkg/agent/steering.go, and under it what passes through the queue over a run of calls.
-- - Channels.Split: pkg/channels/split.go. Under it, Search has the searches' bounds, Bounds the sizes of
--   chunks, Plain the texts without code blocks, and Endless a text that is split for ever.
-- - Routing.AgentId: pkg/routing/agent_id.go. Routing.SessionKey: session_key.go. Routing.Config: what
--   routing reads of pkg/config/config.go. Routing.Route: route.go; Cascade and Agents under it say
--   which binding is chosen and which agents can be, and Stored which sessions share a file of Memory.
-- - Media.Store: pkg/media/store.go. Sound says what its maps agree on, Release and Refs that releasing
--   keeps it, Forget which refs go, Files and Lent what becomes of the files.
-- - Cron.Job and Cron.Service: pkg/cron/service.go. Wake compares getNextWakeMS with checkJobs, Runs says what a run
--   leaves of a job, Missed what becomes of jobs whose time passes while the service is down.
-- - Tools.Registry: pkg/tools/registry.go; Visible says how long a hidden tool can be called.
-- - The Tests modules run the code on concrete inputs.
--
-- A session's files are a record of the bytes of the one and the decoded state of the other. Every
-- writing operation takes a fault, which says where it stops; what it wrote before stays. A tracker is
-- an association list from keys to entries, and a run of the chain is a list of turns: a candidate
-- with what the clock, the caller's context and the provider answer at its turn.
--
-- The media store is a record of its maps, and the disk a test for paths; the ref that Store makes up
-- is an argument, which a run of calls takes to be new. The phase under the lock and the removal of
-- files are two functions, so that a call can come in between. The identity links of session keys are
-- a list, in the order in which Go's loop over the map meets them.
--
-- A cron job's handler runs outside the lock: check_jobs picks the jobs, and finish_job is what
-- executeJobByID does when the handler has returned. Its times are 64-bit integers that wrap around.
--
-- Bounds and fuel: the line limit is the source's 10 MB. The matcher of Providers.Regex gives a star
-- as many rounds as there are characters left, which is enough since each round of the source's
-- patterns takes one. split_message takes a number of rounds; a text without code blocks ends within
-- one round more than it has characters, and for any text the result says whether the rounds were
-- enough. Every other recursion is structural.
--
-- Not modelled: locks (each operation runs alone but for the phases named above, and one request at a
-- time uses the tracker); overflow of counters, but for the times of cron jobs and the version of the
-- tool registry; the calendar (times and durations are natural numbers in the unit of the source and the
-- clock is an argument of each call); the timers that call CleanExpired and checkJobs, and the loop
-- around them; the expressions of cron jobs, which a library reads; ToLower and letter case outside
-- ASCII; invalid UTF-8; the reasons for which a metadata file cannot be read; the router of models by
-- complexity, whose scores are floating-point numbers; logging; and the parts of the program that are
-- not named above.

pub mod Base
pub mod Protocol
pub mod Memory
pub mod Session
pub mod Providers
pub mod Agent
pub mod Channels
pub mod Routing
pub mod Media
pub mod Cron
pub mod Tools
