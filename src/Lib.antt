-- ===== src/Lib.antt =====
-- AgenTel (XBus): the local message broker for agent sessions, written in TypeScript.
--
-- Sessions register with the broker, and send each other messages that it keeps in SQLite tables
-- until the recipient's hook pulls them at a checkpoint. The recipient's MCP component then
-- acknowledges and answers them, and a periodic sweep retries, expires and buries what stays
-- behind. This library models that delivery core and the policies it rests on.
--
-- Shared: Base has the Boolean tests, lists, and SQL tables as lists of rows (update, count,
-- select, first row, order).
--
-- Protocol: src/protocol/states.ts is Protocol.States (the states, triggers, edge table and its
-- resolution) with Protocol.Transitions on histories of transitions; src/protocol/errors.ts is
-- Protocol.Errors; src/protocol/handshake.ts is Protocol.Handshake.
--
-- Identity: src/identity/components.ts is Identity.Components, the capability matrix that every
-- operation asks first; src/identity/aliases.ts is Identity.Aliases, the aliases and the forms of a
-- recipient; src/identity/session-name.ts is Identity.SessionName, the names that sessions may take,
-- with Identity.Suggestion, and Identity.Routable has what such a name is as a recipient.
--
-- Broker: src/broker/retry.ts, deadlines.ts, readiness.ts, routing-class.ts and controls.ts are
-- Broker.Retry, Deadlines, Readiness, Routing and Controls. Broker.Db has the tables of
-- src/database/migrations.ts that the operations use, as one record of lists of rows, and
-- operations on them: a function from the tables to the tables and a result, which is a value or
-- the code of a thrown error. `transaction` gives the old tables back on a throw, as
-- src/database/connection.ts does. src/broker/receipts.ts is Broker.Injections.
-- src/broker/delivery.ts is Broker.Delivery: Sessions (role, epoch and activity), Checkpoint
-- (checkpointPull, processNext), Mark (markInjected), Ack (ack), Redeliver (redeliver) and Reply
-- (reply). src/broker/reaper.ts is Broker.Reaper: AckTimeouts, Expiry, IdleSessions and Sweep.
-- src/broker/deadletter.ts is Broker.DeadLetter, and src/broker/cancellation.ts is
-- Broker.Cancellation. `send` of src/broker/store.ts is Broker.Send, which resolves its recipient by
-- Broker.Recipients and asks Broker.Controls for blocked peers; Broker.Sequences is the invariant of
-- the numbers that messages get per recipient. src/broker/ledger.ts is Broker.Ledger, the audit
-- ledger as a list of rows and one of anchors; JSON, the order of keys and SHA-256 are parameters.
-- src/broker/scheduler.ts is Broker.Schedules (schedules, quiet hours and their advance) and
-- Broker.Scheduler (a tick), over an interface of the store's operator sends; Broker.ScheduleThrows has what
-- throws in it, on quiet hours that are malformed and instants beyond the dates.
-- src/broker/liveness-proof.ts and singleton.ts are Broker.Liveness, and
-- ensure.ts beside them is Broker.Ensure, over the answers of probes; its wait runs on one unit of
-- fuel for each millisecond of the timeout, and one.
-- Broker.Evolution says who may change a delivery and how, by the
-- direct changes of state that each kind of caller makes; the modules beside the operations prove it
-- of each, and Broker.Runs of their sequences.
--
-- Ipc: src/ipc/framing.ts is Ipc.Framing. The bytes of a value's JSON and their parsing are
-- parameters, and the loop of the decoder runs on as much fuel as the buffer has bytes, and one.
--
-- Adapter: src/adapter/capabilities.ts, tier.ts, evidence.ts and lifecycle.ts are
-- Adapter.Capabilities, Tier, Evidence and Lifecycle. src/adapter-broker/trusted-evidence.ts is
-- Adapter.Registry, and enforce.ts beside it is Adapter.Registration, which clamps what an adapter
-- declares and awards by the broker's evidence; Adapter.Awards has what an award rests on.
--
-- Ids, checkpoints and epochs are natural numbers, since they are only compared, and instants are
-- milliseconds. The clock stands still within an operation, as the code's transactions take one
-- instant, and is an argument. The id generator is the counter `next_id`. The reaper's random
-- source is a function of the number of the draw. The delay of a backoff is the floor of a
-- fraction, as a random value is given by a numerator and a denominator.
--
-- Loops over rows are recursion on the list that the query returns. The one operation that calls
-- itself, `cancel`, runs on fuel, and one unit is proved enough. A query without an order returns
-- rows in the order of the table.
--
-- Not modelled: registration, names and the operator's sends of the broker's store, the
-- adapters' manifests, the secure channel and federation, which are parts of their own; sockets,
-- processes, the command line and the dashboard, which are input and output; cryptography and
-- schemas of other packages. Of the rows, columns that no modelled operation reads are left out, as
-- are the texts of messages to people and the hash of the body.
pub mod Base
pub mod Protocol
pub mod Identity
pub mod Broker
pub mod Ipc
pub mod Adapter
pub mod Tests
