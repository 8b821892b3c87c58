-- ===== src/Lib.antt =====
-- Torua, a distributed key-value store: a coordinator and nodes that talk HTTP.
--
-- The coordinator (cmd/coordinator/main.go) keeps a list of nodes and a registry that assigns four
-- shards to nodes. A node registers, and the shards without an assignment are dealt to the nodes
-- that are not marked unhealthy. A health monitor checks the nodes and calls back when one fails.
-- A request for /data/{key} is forwarded to the node that the key's shard is assigned to. A node
-- (cmd/node/main.go) keeps shards that it creates on demand; a shard counts its operations and keeps
-- its values in a store.
--
-- Which file models what:
--   Cluster      internal/cluster/types.go: the messages, PostJSON and GetJSON. Client is about
--                PostJSON
--   Storage      internal/storage/store.go: the interface Store as a record of operations with its
--                promises as laws (StoreLaws), and MemoryStore. Laws, Refinement: its theorems.
--                Buffers puts MemoryStore on a heap of byte slices that its caller writes to
--   Shard        internal/shard/shard.go over any Store. Keys, Range, Counts: its theorems;
--                Interleaved has DeleteRange with other operations between its deletions, Snapshot
--                has GetStats with other operations between its loads
--   Registry     internal/coordinator/shard_registry.go. Laws, Routing, Rebalance, Balance and
--                Rebuilt are about its methods. View forgets the order of the map: a quotient of
--                the registries by what GetAssignment gives. Answers sets sequences of calls
--                against a table from shard numbers to nodes
--   Health       internal/coordinator/health_monitor.go. Check is defaultHealthCheck; History is
--                about one record, Tracking about a round of checks, Lifecycle has Start and Stop;
--                Parts takes a round apart into its locked parts
--   Coordinator  cmd/coordinator/main.go: the server's state, registration, listing, assignment, the
--                callback. Broadcast is handleBroadcast; Nodes, AssignLoop, AutoAssign, Invariant
--                and Steps lead to the invariant over every sequence of steps; Redistribution and
--                Exclusion are about when shards move, FirstNode about who gets them, Listing about
--                GET /nodes. Serve has the routes of main. Threads takes the handlers and the
--                callback apart into their locked parts, for any number of them at the same time;
--                Serve/Begun does so behind the routes
--   Proxy        cmd/coordinator/main.go: handleData, forwardGet, forwardPut, forwardDelete. Parts
--                has handleData in its two locked parts; Interrupted puts the steps of
--                Coordinator/Threads between them
--   Node         cmd/node/main.go: the shards of a node and its handlers. Path and Endpoints
--                are about requests for a key, Serve is the router of main (Serve/Begun leads
--                requests to the parts of Race), Mismatch sets the coordinator's URLs against
--                it. Race takes handleShardRequest apart: the parts that hold the node's lock, and
--                the counter, the store's call and the loads of GetStats each for itself; in
--                Race/Lost for two requests at the same time, in Race/Many for any number of
--                them. Race/Cells keeps the shards that they create and lose, and what they read
--                there. Session is about sequences of requests. Startup has the
--                configuration and the loop of register, Process the node's process from start
--                to exit
--   System       both programs: a node's register at the coordinator (Join), a client's request
--                through the coordinator to a node (Data), the monitor's ticks on the coordinator's
--                nodes with the callbacks that they start (Monitor), the coordinator's process from
--                start to exit (Process; a panic of the monitor's ticker included, Process/Panics)
--   Fnv, Http, Mux   what the program uses of hash/fnv and net/http
--   Base         the shared names, tests, lists, maps, strings and decimal numbers
--   Examples     the theorems at concrete inputs
--
-- A function has the name of the Go function, in snake case: handle_register is handleRegister. A
-- method on a pointer takes the state and returns the new one. How Go is read:
--   * int has 64 bits and is `pos n` or `negsuc n`; the counters are uint64 and wrap; the hash is
--     uint32. ConsecutiveFails is a plain number: 2^63 failed checks in a row are out of reach.
--   * A string is a list of bytes. A map is an association list in any order, so nothing depends on
--     the order in which Go visits a map.
--   * A function that holds a lock throughout is one step. The callback for an unhealthy node takes
--     the server's lock for its first half only, so it is two steps, with others between them. In
--     Coordinator.Threads the second half is as many steps as it has calls of the registry. There a
--     registration may be interrupted like a callback, though the code holds the lock: more runs are
--     allowed than the code has. The list of nodes is read in one step.
--   * In System.Process a round of checks is as many steps as the monitor takes its lock, with requests
--     and callbacks between them; the nodes are copied in one step. Elsewhere a round is one step.
--   * In System a message arrives and is answered, and a URL's path is what follows the address of
--     the program that it leads to. In Monitor the callbacks of a tick run before the next tick.
--   * Times are numbers. The clock, JSON, time.ParseDuration, os.Getenv and the network are
--     arguments. A URL's path is taken after decoding, and percent escapes are left out.
--   * Loops are by recursion on the list or on the number of rounds that are left; no fuel is used.
--     register makes ten rounds, as the code's loop does.
--   * An error's text is written out, but for the text of an error that a library returns.
--   * In the two Process modules a signal that arrives before signal.Notify ends the process, as Go's
--     runtime does; a signal behind it is taken by main.
--   * Session, Proxy/Route and Proxy/Interrupted are about requests as the router
--     hands them to a handler. The routers (Serve) send a path that is not clean elsewhere.
--   * time.NewTicker panics for an interval that is not positive. Start of Health is then none, and the
--     coordinator's process ends with exit code 2.
--
-- Not modelled: the HTTP server's own timeouts and connections, and logging; a read of the
-- coordinator's list of nodes while another thread writes it, which is a data race and has no defined
-- result in Go; the failover, replicas and migration that comments mention, for which there is no
-- code. The doc.go files hold comments only.
pub mod Base
pub mod Cluster
pub mod Fnv
pub mod Storage
pub mod Shard
pub mod Registry
pub mod Health
pub mod Http
pub mod Coordinator
pub mod Proxy
pub mod Mux
pub mod Node
pub mod System
mod Examples
