-- ===== src/Lib.antt =====
-- actor_cluster: wallets as actors, spread over nodes by a hash, with their events in Cassandra.
--
-- A gateway (cmd/client) sends batches of envelopes over one gRPC stream for each node. A node
-- (internal/node) checks in the routing table (pkg/discovery) that it owns the wallet, finds or
-- rehydrates the wallet's actor, and puts the envelope into the actor's mailbox (pkg/actor). The
-- actor (internal/node/actor.go) decides on the amount, writes an event through pkg/persistence
-- and answers with the new balance; the node sends the answers back in batches.
--
-- Files and the code they model:
--   Prelude, Prelude/*       numbers, words, lists, maps, texts and bits that the others share
--   Message                  pkg/remote/pb (the message structs) and pkg/remote/errors.go
--   Persistence              pkg/persistence: the Store contract and the Cassandra adapter
--   Discovery/Table          pkg/discovery/table.go: SlotOf, ModuloSlotOwner, BuildRoutingTable,
--                            GetNodeIP
--   Discovery/Hash, Routing  about the hash, and about lookups in a built table
--   Discovery/Etcd           pkg/discovery/etcd_resolver.go: EtcdRegistry, EtcdResolver
--   Discovery/Etcd/Keys, Prefix, Watch, Agree, Lease, Retry  about the keys, the watch, two
--                            resolvers and the registration
--   Mailbox/State            pkg/actor/actor.go: Actor, Start, Send, Stop, dequeue, Drain, completeResult
--   Mailbox/Threads          the callers and the loop, interleaved at their atomic operations
--   Mailbox/Order, Keeps, Swap, Loop, Fifo, Wake, Dies, Drain  about every interleaving
--   Reconcile                internal/node/reconciliation.go: computeTrueBalance,
--                            issueCompensatingTransaction,
--                            RunDailyReconciliation
--   Reconcile/Agree, Settle  about the recomputed balance, and what is relied on of Cassandra there
--   Server                   pkg/remote/server.go: NewServer, StreamMessages
--   Server/Guards            about what the handler is given
--   Node/Keys, Runtime       internal/node/node.go: ActorKey, Node, HandleBatch, forceKillLocalActor,
--                            Emit, enqueueResult, the sweep of passivationLoop, Stop
--   Node/Retry               about the retry of HandleBatch
--   Node/Races               internal/node/node.go: the retry among other goroutines
--   Node/Races/Ends          about the end of that retry
--   Node/Served              internal/node/node.go: the calls and the aggregator in any order
--   Node/Served/Owed, Once   about the answers of such a run
--   Node/Fate, Rounds, Replies, Routes, Identity  about what becomes of a request, and the way of
--                            its answer
--   Node/Flush               internal/node/node.go: aggregatorLoop
--   Node/Delivery, Aggregate about what reaches each stream
--   Client/Callbacks         cmd/client/router.go: ShardedCallbackMap
--   Client/Metrics           cmd/client/router.go: the counters of Router, FailAll
--   Client/Dispatch          cmd/client/router.go: getStreamer, dispatchEnvelope, ExecuteAndWait
--   Client/Dispatch/Outcome, Wait, Reaches  about what a dispatch and a wait leave behind, and the
--                            node that a request reaches
--   Client/Streamer          cmd/client/streamer.go: flusherLoop, sendBatch, receiverLoop, fail
--   Client/Streamer/Batches, Sends, Results, Counters  about what is sent, answered and counted
--   Client/Life              cmd/client/streamer.go, router.go: the goroutines of one streamer, step by
--                            step: NewNodeStreamer, both loops, fail, FailAll, StopAndWait
--   Client/Life/Shards, Keeps, Conserved, Clear, Reached, Swept, Carried, Matched, Wire
--                            about the callbacks and the envelopes of such a run
--   Client/Stress            cmd/client/stress.go: stressConfig, StressEngine, drainInFlight
--   Client/Stress/Load, Breakdown  about the options, the drain and the error counts
--   Client/Stress/Engine     cmd/client/stress.go: the engine's runs and its callers in any order
--   Client/Gateway           cmd/client/serve.go: the handlers, computeBalance; cmd/client/main.go:
--                            nextRequestID
--   Client/Gateway/Control   cmd/client/serve.go: the handlers of the stress engine
--   Client/Gateway/Balance, Status, Pays  about the balance, the statuses and the ids, and a payment
--                            on its way through gateway and node
--   Crossing                 cmd/client/streamer.go, pkg/remote/server.go, internal/node/node.go: a
--                            streamer's batches on their way to the actors
--   Process/NodeMain         cmd/node/main.go
--   Process/ClientMain       cmd/client: main, newRouterFromConfig, runStressCommand, runServeCommand
--   Process/Unwind, Serving  about the order of their actions
--   Wallet/State, Ops        internal/node/actor.go: BusinessActor, addTxID, seedTxID, Handle,
--                            rehydrate, takeSnapshotSync and takeSnapshotAsync
--   Wallet/Log               the wallet's tables seen abstractly, and what is relied on of Cassandra
--   Wallet/Sync, Steps       an actor, its rows and the snapshot goroutines, as a step relation
--   Wallet/Left, Rehydrate, Durable, Ring, Window, Cases, Funds  about rehydrate and Handle
--
-- An int64 is its bit pattern below 2 ^ 64 and every sum is written with its wrap-around; a length,
-- a count or the int eventCount is a natural number. A string is a sequence of characters, a
-- byte a number below 256. What time.Now returns is an argument. Go's maps are association lists
-- behind their laws. Every loop is a structural recursion, but for two: Drain, with as much fuel
-- as there are nodes behind the head, and the retry of HandleBatch, with fuel for two rounds.
-- Those two are enough when no other goroutine comes between the steps of a call, as in Node/Runtime;
-- among other goroutines (Node/Races) the fuel that reaches the second round in a row in which they
-- leave the wallet alone is.
--
-- Not under the repository's control, and therefore parameters: the Cassandra session (what is relied
-- on of it are the records WalletTables of Wallet/Log and ReconcileTables of Reconcile/Settle), the
-- etcd client, the gRPC streams and the decoder of JSON, whose answers are arguments. What a select
-- meets is a list of events; what another goroutine does between two calls of a dispatch is an
-- argument of it.
--
-- Not modelled: the flags of the commands, generated code, logging and metric getters, timers, the
-- encodings of HTTP and JSON and the gateway's page.
pub mod Prelude
pub mod Message
pub mod Persistence
pub mod Discovery
pub mod Mailbox
pub mod Wallet
pub mod Reconcile
pub mod Node
pub mod Server
pub mod Client
pub mod Process
pub mod Crossing
