-- ===== src/Lib.antt =====
-- A model of claude-agent-runner: an orchestrator that runs Claude agents in containers and talks to
-- a runner inside each of them, with the theorems that make its state right.
--
-- The parts and how they interact. The orchestrator keeps its sessions in an SQLite database, gives
-- each of them an OAuth token out of a pool, stops the least recently active ones when there are too
-- many, and lets requests in by a tenant's key. Clients subscribe to sessions and send requests, which
-- the bridge passes on to the runners. A runner takes turns, one at a time, and keeps its session's
-- conversation in a JSONL file, whose records form a tree, and in the running process, and edits both.
--
-- - Context.antt (packages/runner/src/context.ts): the records of the file, `buildChain`,
--   `injectMessage`, `removeMessage` and `truncateToLastN`, on the list that `readJsonl` returns and
--   `writeJsonl` takes. Context/Walk.antt is about the walk from a leaf to the root, Context/Leaf.antt
--   about the leaf that it starts at, Context/Inject.antt about injection at the tail, and
--   Context/Remove.antt about removal. Context/Lines.antt is `readJsonl` and `writeJsonl` themselves.
-- - TokenPool.antt (packages/orchestrator/src/token-pool.ts): the class `TokenPool`, with children on
--   the indices being valid, on a session keeping its token, on the rotation, and on the counts.
-- - Db.antt (packages/orchestrator/src/db.ts, types.ts): the rows of the tables of sessions and of
--   snapshots, and the foreign key between them.
-- - Sessions.antt (packages/orchestrator/src/sessions.ts): the class `SessionManager`, its table
--   beside the map of runtime references. Sessions/Identity.antt is about ids and about operations
--   on different sessions, Sessions/Naming.antt about names, removal and the order of eviction.
-- - Capacity.antt (packages/orchestrator/src/server/services/capacity.ts and session-runtime.ts):
--   `ensureCapacity` over the sessions and the token pool.
-- - WarmPool.antt (packages/orchestrator/src/warm-pool.ts): the class `WarmPool`, which takes its
--   tokens from the token pool. WarmPool/Refill.antt is about the targets, WarmPool/Adopt.antt about
--   the entry that is handed out, WarmPool/Tokens.antt about the tokens that the entries hold.
-- - WsBridge.antt (packages/orchestrator/src/ws-bridge.ts): the class `WsBridge`, which writes to the
--   session manager what the runners report. WsBridge/Frames.antt holds the frames of its senders,
--   WsBridge/Sockets.antt is about the socket of a session, WsBridge/Isolation.antt about the
--   sessions that a message or the end of a socket changes.
-- - ClientWs.antt (packages/orchestrator/src/client-ws.ts): the WebSocket of the clients, over the
--   bridge. ClientWs/Sockets.antt lets a socket in, ClientWs/Commands.antt has the requests that are
--   passed on to a runner, ClientWs/Answers.antt the answers that they wait for,
--   ClientWs/Terminal.antt the sockets on a terminal, and ClientWs/Links.antt counts the listeners. ClientWs/Subscriptions.antt, ClientWs/Delivery.antt and
--   ClientWs/Admission.antt are about the subscriptions, the events and who may subscribe,
--   ClientWs/Truth.antt and ClientWs/Replies.antt about the answers to requests.
-- - SessionRuntime.antt (packages/orchestrator/src/server/services/session-runtime.ts): the check of a
--   request and the credentials. SessionRuntime/Spawn.antt is `spawnSession`, which brings the warm
--   pool, the tokens, the bridge and the sessions together, and SessionRuntime/Outcome.antt is about
--   how it ends. SessionRuntime/Waiting.antt has the promises of `waitForReady` and `sendAndCollect`,
--   and SessionRuntime/Collected.antt is about what settles them.
-- - AutoCompact.antt (packages/orchestrator/src/auto-compact.ts): the class `AutoCompactor`;
--   AutoCompact/Quiet.antt is about when a compaction is asked for.
-- - Tenants.antt (packages/orchestrator/src/tenants.ts): the class `TenantManager`, its table and its
--   cache. Tenants/Cache.antt and Tenants/Operations.antt are about the cache agreeing with the
--   table, Tenants/Access.antt (packages/orchestrator/src/auth.ts) about who is let in.
-- - MemIpc.antt (packages/runner/src/mem-ipc.ts): the class `MemIpcClient`, requests and answers as
--   lines on a socket. MemIpc/Chunks.antt is about the chunks that arrive, MemIpc/Order.antt about
--   the requests being settled in order.
-- - Helpers.antt (packages/runner/src/helpers.ts): the ring buffer of a process's error output;
--   Helpers/RingBuffer.antt is about what it holds.
-- - RunnerTurn.antt (packages/runner/src/command-handler.ts, and the fork in run-turn.ts): the commands
--   that start, steer and end turns. RunnerTurn/Steers.antt is about what becomes of a pending steer and
--   fork, RunnerTurn/Busy.antt about when the runner is busy.
-- - RunnerOptions.antt (packages/runner/src/command-handler.ts and session-lifecycle.ts): the options
--   of a runner and of its SDK session, under `set_options` and `adopt`. RunnerOptions/Current.antt is
--   about the options that a session runs with after an adoption.
-- - LiveContext.antt (packages/runner/src/context-ops.ts, merge-back.ts, and the rewind of
--   command-handler.ts): the messages of the running process, edited over the IPC client.
--   LiveContext/Rewind.antt is about what a rewind keeps, LiveContext/Merge.antt about where the
--   result of a background session goes, LiveContext/Placeholder.antt about what it is put in.
-- - Common.antt and its children: Boolean tests, lists, maps and sorting for the others.
-- - Each part's child Tests.antt runs it on small inputs and applies the theorems to them.
--
-- How the code is read. A text that the code only stores and compares is a number, a text that it
-- takes apart is a list of characters, a missing or null value is `none`. A JavaScript `Map` is the
-- list of its entries in the order of insertion. A table is the list of its rows, and a statement
-- changes the rows that it selects. A thrown error is a value. The clock, random ids and keys are
-- arguments. Calls on the runner's socket and on containers are recorded in order, and no other
-- request is handled in between, but for `spawnSession`, the spawns of the warm pool and the turns of
-- a runner, whose parts between two awaits are functions of their own. Which sockets are open is an argument. The JSON
-- codec is a parameter, of which `Codec` in Context/Lines.antt states what the lines rely on. The decoding of the bytes of a
-- socket is a parameter. A time
-- is a number.
--
-- Fuel. Only the walk of `buildChain` has fuel: two more than the number of records. It visits no
-- uuid twice, so that it stops before.
--
-- Not modelled: containers, HTTP and WebSocket traffic, logs, metrics, the JSON texts, the migrations
-- of the database, the routes, and what the SDK does in a turn.
pub mod Common
pub mod Context
pub mod Helpers
pub mod SessionRuntime
pub mod RunnerTurn
pub mod LiveContext
pub mod RunnerOptions
pub mod ClientWs
pub mod TokenPool
pub mod Db
pub mod MemIpc
pub mod Sessions
pub mod AutoCompact
pub mod Capacity
pub mod Tenants
pub mod WarmPool
pub mod WsBridge
