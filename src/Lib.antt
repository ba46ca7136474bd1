-- ===== src/Lib.antt =====
-- Ninthwave runs coding agents in parallel on work items. Each item is driven through a state
-- machine, from `queued` over its pull request, CI, review and merge to `done` or `stuck`, by a poll
-- loop that feeds the machine snapshots of the outside world and executes the actions that it returns.
--
-- Orchestrator models that state machine, the class `Orchestrator` of core/orchestrator.ts with the
-- types of core/orchestrator-types.ts and the guards of core/orchestrator-guards.ts:
--   Types, Actions, Item   the states and their table STATE_TRANSITIONS, the configuration and the
--                          timeouts, the actions, the item and the snapshot of it;
--   Guards                 the nine guards, with the names of the source;
--   Transition             `transition` with its side effects, and the exception that it throws;
--   Rebase, Workers        `updateRebaseTracking`, `planRebaseConflictAction`, `checkWorkerLiveness`,
--                          timeouts, retries and respawns;
--   Feedback               `ingestPendingFeedbackBatch`, `resolvePendingFeedbackBatch`,
--                          `continuePendingFeedbackHandoff`;
--   Merge                  `tryHandleNoNewInfo` and `evaluateMerge`;
--   Pipeline, Reviews, Reviewing, Implementing, PostMerge   the handlers of the states;
--   Store                  the map of items, dependents and stacked launches;
--   Setup                  the settings that change at runtime, `addItem` and its kin;
--   Process                `transitionItem` and `launchReadyItems`;
--   Poll                   `processTransitions` and `prioritizeMergeActions`.
-- Orchestrator.Laws holds the proofs, in a module for each part of the machine, and Examples the
-- concrete inputs on which the theorems apply.
--
-- Broker models the crew broker of core/broker-state.ts, by which the daemons of a crew share work
-- items, with the types of core/broker-store.ts:
--   Crew      the state of a crew, its events, `isWorkItemAvailable` and the status message;
--   Daemons   `connectDaemon`, `disconnectDaemon`, `recordHeartbeat`, `checkCrewHeartbeats`;
--   Items     `syncCrewItems`, `claimNextWorkItem`, `completeWorkItem`.
-- Broker.Laws has the proofs; Runs the operations as steps of a crew, and what a crew can become. The
-- two parts meet in the event loop of the command line, which is not modelled: a daemon claims items
-- of the broker and adds them to its own orchestrator.
--
-- Execution models core/orchestrator-actions.ts, the carrying out of the actions, and `executeAction`:
--   Deps                   `OrchestratorDeps`, the context of an execution, and what it leaves;
--   Inbox                  inbox targets, the default branch, the expected base, the daemon's rebase;
--   Launch                 `executeLaunch`;
--   MergeBase, MergeFailure, MergeSuccess   `executeMerge`, with what it does to the other items;
--   Rebasing               `executeDaemonRebase`, `executeRebase`, `executeLaunchRebaser`;
--   Sessions, Notices      the other executors;
--   Dispatch               `executeAction`.
-- It works on the items and the transitions of Orchestrator. The calls of git, GitHub, the multiplexer and
-- the workers, among them `validatePickupCandidate`, are functions of the record `Deps`: what they answer
-- within one action depends on their arguments only, as no action makes a call that changes something
-- twice, and each of them may throw. The calls that change something outside are the list that an action leaves.
-- Execution.Laws holds the proofs.
--
-- Requests models core/request-queue.ts: Bucket the token bucket, Semaphore the priority semaphore, Queue the
-- facade that joins them, by the steps between which `enqueue` waits. Tokens
-- are whole fractions (`unit` of them are one token, `rate` are added in a millisecond), so their
-- arithmetic is exact where the program adds floating point numbers, and `msUntilNextToken`, which tells how
-- long a wait sleeps and depends on that rounding, is left out; a waiter is known by a number; a wait is a list of the readings of the clock. The two sleep and wake by promises, which
-- are the steps between the operations. Requests.Laws holds the proofs.
--
-- Planning models `computeBatches` of core/commands/batch-order.ts on the work items of Orchestrator. Its
-- loop is on fuel, as many rounds as there are valid ids, which is enough, since each round gives an id
-- its batch. Planning.Laws holds the proofs.
--
-- How the code is read. An operation that mutates an item returns the new item with its actions; the
-- exception of an illegal transition is the result `illegal_transition`. A timestamp is a number of
-- milliseconds or a text that cannot be read, and a difference of two times is written as a sum. A
-- poll, as an operation of the broker, has its argument `now`, where the code takes one, and one reading
-- of the clock, `wall`, for the calls of `new Date()`. An
-- item with no snapshot is handled as one whose snapshot has no field set. Messages and failure
-- reasons are constructors, one for each template of text. Optional text that is only tested for
-- truth is an `Option` in which the empty text is `none`. The callbacks `onTransition` and `onEvent`
-- observe and are left out. A map is a list in insertion order with one entry for each key. Only
-- `computeBatches` uses fuel: each other loop is over a list.
--
-- The exception of an empty `sorted[0]!` is the outer `none` of `process_transitions`, and what an
-- exception leaves of the state is not kept. `localeCompare` is the parameter `precedes`, of which
-- nothing is assumed.
--
-- Not modelled: the comments on stacks and `buildStackChain`, log lines and
-- warnings, the texts of errors, the removal of files that is best-effort, the parsing of work items, the
-- persistence, the broker's server, the command line and the terminal interface, which are I/O or
-- rendering.
mod Prelude
pub mod Orchestrator
pub mod Broker
pub mod Requests
pub mod Planning
pub mod Execution
mod Examples
