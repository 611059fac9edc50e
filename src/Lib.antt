-- ===== src/Lib.antt =====
-- Sandstorm: a control plane that places sandboxes on a fleet of nodes, keeps what each node holds in
-- step with what callers want, and moves idle sandboxes to colder storage.
--
-- The master keeps desired state in a database (crates/sandstorm-core/src/state.rs) and decides in
-- request handlers and loops (master/api.rs, master/demote.rs). A node sends a report of what it holds,
-- the master folds the report into desired state, and answers with the commands that close the
-- difference; the node runs them, holds some back for want of memory, and reports again. The messages
-- are in proto.rs.
--
-- Which file models what, all under crates/sandstorm-core/src:
--   Tier       tier.rs: `Tier`, `IdlePolicy`, `tier_for_idle`, `from_str`
--   Proto      proto.rs: the records and commands of a poll
--   Backend    master/api.rs and node/runtime.rs: `BackendKind`, `backend_of_engine`
--   Tag        tag.rs: `is_safe`, `fetch_expiry`
--   Store      state.rs: the tables as lists of rows; Store/Sandboxes, Slots, Tokens, Nodes, Pools and
--              Snapshots have the queries, each a function on `Store` under the name of its method
--   Maps       a `HashMap` with texts for keys, as an association list
--   Master     master/api.rs: `MasterState`, as a record that is passed from step to step
--   Master/Reports, Placement, Reconcile, Handlers   master/api.rs: `record_failures`,
--              `apply_traffic`, `apply_evictions`; `pick_node` and `pick_node_where`; `diff`,
--              `pulls_for` and `fetch_from`; `poll`, `node_traffic`, `pool_for` and the handlers of one
--              sandbox (`set_tier` is `request_tier`, `delete_sandbox` is `remove_sandbox`)
--   Master/Switch    master/api.rs: `set_node_backend`
--   Master/Create    master/api.rs: `create_sandbox`; its tests of the request in Create, the choice of a
--              place in Create/Place, the transaction in Create/Batch
--   Master/Branches  master/api.rs: `branch_sandbox`, `snapshot_info`, `delete_snapshot`
--   Master/Registration  master/api.rs and tls.rs: `register`, `require_node_cert`, `revoke_node` (here
--              `revoke`), `split_token`
--   Master/Demotion  master/demote.rs: `sweep`
--   Master/Drive     master/drive.rs: one round of `drive`
--   Rules      proto.rs and master/api.rs: `canonical`, `canonical_cidr`, `EgressChange`, `set_default_egress`
--              (here `change_default_egress`), `set_sandbox_egress` (here `change_sandbox_egress`)
--   Node       node/mod.rs, node/runtime.rs, node/starting.rs: `holding_back_at`, `backoff_for`,
--              `still_deferred`, `hold_for`, `next_group`, `owed_mib`, and `leave_out_deferred` of
--              master/api.rs, which answers them
--   Node/Wakeups     node/wake.rs: what a node remembers of requests, and `victims`
--   Node/Promotion   node/mod.rs: `promote`, `promote_reading`, `evict_one`
--   Node/Commands    node/mod.rs: `run_one`; what is answered at once in Commands/Answered, the work under a
--              sandbox's lock in Commands/Work, the failure book in Commands/Offer
--   Node/Switch      node/switch.rs: `switch`, `prepare`
--   Node/Net         node/net.rs: `NetConfig`, `slot`
--   Node/Firewall    node/net.rs: `egress_rules`, `egress_script`, and `set`, `clear` and `of` (here `of_sandbox`) of
--              `EgressRules`; Firewall/Walk has what a packet meets
--   Node/Gateway     node/gateway.rs: `Gateway::reconcile`, `expose`, `start`, `bind_soon`
--   Node/Gateway/Requests   node/gateway.rs, proxy.rs and auth.rs: the headers of a request, `requested_port`,
--              `presented_token_matches`, `constant_time_eq`, `strip_hop_by_hop`, `wants_upgrade`
--   Node/Gateway/Proxy   node/gateway.rs: `proxy` with `connect_upstream`, and the end of an answer
--   Master/E2b       master/e2b.rs and state.rs: the rows of E2B sandboxes, `list_v2` and its cursors; in E2b/Life
--              `init_envd`, `bring_back`, `pause`, `connect`, `resume`, `kill` and the timeouts; in
--              E2b/Make `create`
-- The other modules below these state and prove what the code guarantees. Examples has a small fleet on
-- which the code is run and the theorems are applied.
--
-- Numbers are natural numbers. Machine integers whose range the code depends on are bounded where it
-- does: a slot's successor stops at the end of 32 bits, and a delay in milliseconds wraps at 64. A clock
-- that is read is an argument, and a database error is not modelled. The
-- loops are structural recursion on the lists that the code walks. Those that wait run on fuel: the loop of
-- a promotion, for a number of rounds, and for the patience of a caller there is a number that is enough,
-- as `run_one` has none, and gives five; the gateway's attempts to connect, 100 for a minute of boot,
-- with 2001 pauses of each; and the wait for envd, 601 looks in a minute. Each of these is proved enough
-- from how long a pause takes at least. The gateway waits for a wake and for a sandbox's answer without a
-- limit, and the model has a reply for a request that waits for ever.
--
-- Parameters stand for what is not this repository's code, and for I/O: the JSON of a template's
-- spec (`Specs`, `SpecView`), addresses as texts (`Addresses`), signatures, certificates and digests
-- (`Authority`), random texts (`Random`), the runtime of a node with its clock, and what other
-- threads do between two looks at it (`Host`, `Engine`, `Upstream`), the kernel's firewall (`Kernel`), what a
-- header or a query holds (`Reading`, `Readings`), and what a sandbox's envd answers (`Envd`). What has
-- happened to the master's state while a handler waits is an argument of the handler.
-- Not modelled: the runtimes, images, TLS, the namespaces of the network and the commands that build them,
-- the bytes of a request and the front door, the JSON of the E2B interface and its cache of routes,
-- metrics and logs, and of the master: pairing with a listening node and the requests on templates.
pub mod Prelude
pub mod Maps
pub mod Tier
pub mod Proto
pub mod Backend
pub mod Tag
pub mod Store
pub mod Master
pub mod Rules
pub mod Node
pub mod Examples
