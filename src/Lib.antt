-- ===== src/Lib.antt =====
-- Hobbyist: a self-hosted platform that keeps databases, apps, workers and queues of a small box
-- asleep until somebody needs them. This library models the parts that decide what happens to a
-- message and to a resource.
--
-- The parts and how they interact. Queue producers call the broker
-- (packages/queue/src/broker.ts), which keeps each queue's messages in a table of one sqlite
-- file. The tick (packages/queue/src/tick.ts) goes over the queues: it expires leases, sweeps
-- what is too old, wakes the consumer, leases a batch, delivers it and applies the result;
-- messages without retries left go to the dead letter queue's file. The proxy
-- (packages/proxy/src) counts the connections of each resource in its activity tracker and routes
-- cancel requests by keys of its own. The hibernator (packages/cli/src/daemon/hibernator.ts)
-- stops what the tracker and a guard call idle; the guard of a worker
-- (packages/queue/src/guard.ts) reads the leases of the queues it consumes. The proxy, the tick,
-- the mirror and the cron scheduler wake a resource by one function
-- (packages/cli/src/daemon/context.ts), which joins concurrent calls and, after a start has
-- failed, refuses more until a retry time. The cron scheduler (packages/cli/src/daemon/crons.ts)
-- fires the schedules of workers by the search of packages/core/src/cron.ts. The alarm mirror
-- (packages/do/src/mirror.ts) wakes namespaces whose alarm is due. A daemon that starts
-- reconciles the recorded states with what Docker and the probes say
-- (packages/cli/src/daemon/reconcile.ts). The tick, the mirror, the hibernator and the cron
-- scheduler each run in a timer loop that a stop signal (packages/core/src/stop-signal.ts)
-- interrupts; the shutdown (packages/cli/src/daemon/server.ts) stops the four one after another
-- before it stops resources. A batch goes to its consumer by the control port
-- (packages/queue/src/deliver.ts), and counts as activity.
--
-- Which file models what:
--   Base          shared names and lemmas; Base.Texts has texts as lists of codes with their order,
--                 Base.Maps and Base.TextMaps have maps as association lists
--   Core.Types    packages/core/src/types.ts
--   Core.Ports    allocatePort of packages/core/src/store.ts and packages/core/src/ports.ts
--   Core.Calendar the calendar of JavaScript's Date in UTC, as cron.ts uses it
--   Core.Cron     packages/core/src/cron.ts: parseCron is parse_cron, nextCronTime is next_cron_time
--   Core.StopSignal
--                 packages/core/src/stop-signal.ts: the calls of the signal, and the settling and
--                 resuming of its waits, on a record with the set of waiters
--   Core.Loop     the loop of startQueueTick, startAlarmMirror, startHibernator and
--                 startCronScheduler, each piece between two awaits a step; what goes on in the rest
--                 of the daemon is an event with any change of the world
--   Queue.Ids     packages/queue/src/ids.ts: newMessageId is new_message_id, the module variables
--                 are the state Ids
--   Queue.Message, Queue.Table
--                 the data of broker.ts and schema.ts, and its SQL statements on a list of rows
--   Queue.Enqueue enqueue, depth and purge
--   Queue.Lease   readyRows, isBatchReady, leaseBatch and hasOutstandingLease
--   Queue.Settle  applyResult and expireLeases: apply_result and expire_leases, the loops with their
--                 transaction and callback
--   Queue.Retain  sweepRetention, peek and insertDeadLetter
--   Queue.WellFormed
--                 the invariant of a table
--   Queue.Mailbox what the operations of the broker promise, on a map from ids to messages
--   Queue.Tick    packages/queue/src/tick.ts: tickOnce is tick_once, over all queue files, and
--                 Queue.Tick.Loop has startQueueTick
--   Queue.Json, Queue.Deliver
--                 packages/queue/src/deliver.ts: deliverBatch is deliver_batch, parseDeliveryResult
--                 is parse_delivery_result, on the values that JSON.parse gives
--   Queue.Codec   packages/queue/src/codec.ts: encodeBody is encode_body and decodeBody is
--                 decode_body, up to the JSON text of the nodes
--   Proxy.Activity
--                 packages/proxy/src/activity.ts: the class is the record Tracker, each method a
--                 function to the next tracker
--   Proxy.Cancel  packages/proxy/src/cancel.ts
--   Proxy.Bytes, Proxy.Startup
--                 packages/proxy/src/startup.ts, the client's half: parseStartup is parse_startup,
--                 buildStartupPacket is build_startup_packet
--   Proxy.Backend the backend's half of startup.ts: scanBackendStartup is scan_backend_startup,
--                 classifyBackendAnswer is classify_backend_answer, errorResponse is error_response
--   Daemon.World, Daemon.Hibernator
--                 boundDatabase of packages/cli/src/daemon/context.ts and the pass of hibernator.ts
--   Daemon.Queues drainableQueues and retentionTargets of packages/cli/src/daemon/queues.ts
--   Daemon.Delivery
--                 queueStateOf and queueDeliverFn of queues.ts, with the touches of server.ts
--   Daemon.Crons  scheduledWorkers and tickCrons of packages/cli/src/daemon/crons.ts, with the state of
--                 the scheduler as the record CronState; Daemon.Crons.Control has postScheduled and
--                 listCrons
--   Daemon.Loops  durableObjectNamespaces of packages/cli/src/daemon/alarms.ts, and the loops of the
--                 mirror, the hibernator and the cron scheduler
--   Daemon.Shutdown
--                 performShutdown of packages/cli/src/daemon/server.ts, against the four loops
--   Daemon.Reconcile
--                 packages/cli/src/daemon/reconcile.ts, with skipReconcile of the kinds
--   Daemon.Wake   buildWake of packages/cli/src/daemon/context.ts, each piece between two awaits a
--                 function on the in-flight map and the refusals, run by a list of events
--   Daemon.Guard  packages/queue/src/guard.ts
--   Daemon.Alarm  packages/do/src/sleep.ts and mirror.ts
--   Daemon.Backoff
--                 packages/cli/src/daemon/wake-backoff.ts
--   */Tests       runs at concrete inputs
--
-- Numbers. Times are milliseconds and counts are natural numbers, which the source keeps far below
-- 2 ^ 53. Where the source subtracts and compares, the model adds on the other side.
--
-- Bounds and fuel. The loops go over lists, or over the fixed number of rounds that the source has
-- (ten characters of a time, sixteen random digits, eight attempts at a cancel key). These run on
-- fuel: allocate_host_port, whose loop has no bound in the source; each round takes one more port
-- of the range out of the search, so as many rounds as the range has ports, and one more, are
-- enough. write of the body's codec has one more than there are objects. The loops of the startup
-- codec take at least one byte a round, so the size of the buffer is enough; parse_startup has an
-- answer of its own for the end of the fuel, which it never gives. The loop of nextCronTime moves
-- the time on by a round and stops after five years, so it has a round for each millisecond of
-- them, and has an answer of its own for the end of the fuel as well.
--
-- Parameters. What is not in the repository, or is awaited, is an argument of the definitions that
-- use it: random numbers, the clock, Docker, probes, the wake and delivery calls of the tick (which
-- get the whole world and give one back, since other tasks run meanwhile), the wake and control calls
-- of the cron scheduler, the guard and stop of the hibernator, the answers of the host to a port's
-- probe, what opening a queue file gives, what a fetch and JSON.parse give, the directories of a
-- worker, and Node's UTF-8 encoder and decoder.
--
-- The timers themselves are events of the loops: an interval has no length. A result whose delays
-- are not whole numbers from 0 on is read by the delivery, and not followed into the broker.
--
-- Not modelled: log lines, the text of error messages, the JSON text of a message's nodes, the socket
-- code of the proxy, the HTTP routes, snapshots and configuration of the daemon, the command line,
-- and the Docker, Postgres and workerd calls of the kinds.
pub mod Base
pub mod Core
pub mod Queue
pub mod Proxy
pub mod Daemon
