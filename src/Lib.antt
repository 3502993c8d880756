-- ===== src/Lib.antt =====
-- A model of runen-net, a Rust library for authoritative multiplayer networking. The workspace has
-- two crates: `crates/runen-net`, which holds the transport-independent state machines, and
-- `crates/runen-net-quic`, which carries them over QUIC.
--
-- The parts that are modelled, and where:
--   Identity         crates/runen-net/src/identity.rs: identities are numbers; `IncarnationRegistry`
--                    (`claim`, `contains`) records those that are used.
--   Session          crates/runen-net/src/session.rs: `Session` holds the memberships, the bindings
--                    of connections and the recovery clock. Session/State.antt has the types and the
--                    queries, Session/Operations.antt `admit_new`, `connection_lost`,
--                    `bind_replacement`, `remove_participant`, `advance_recovery_clock` and `close`.
--                    A method returns the session after the call and its result.
--   Delivery         crates/runen-net/src/delivery.rs and delivery_acceptance.rs: the endpoint that
--                    holds the flows. Delivery.antt has the modes and the acceptance of a message;
--                    under Delivery/, Types.antt has the data, Accounting.antt the counts of the
--                    aggregate, connections and sessions, Flows.antt `establish_flow`,
--                    `associate_flow_with_session` and `terminate_flow`, Pressure.antt the eviction
--                    loops, Sending.antt `submit` and the custody of outbound transfers,
--                    Receiving.antt `receive`, Exposure.antt `poll_exposure`, Ending.antt the
--                    calls composed of these, with `terminate_connection`, Queries.antt the
--                    getters. History.antt runs any sequence of the calls;
--                    Delivering.antt and Reordering.antt the arrivals and polls of one
--                    reliable flow.
--   Wire             crates/runen-net-quic/src/wire.rs: the variable-length integers (VarInt), the
--                    flow identities and their cursors (FlowId), and the bodies of the flow control
--                    messages (Body), which carry both and a delivery mode.
--   Replication      crates/runen-net/src/replication: keys, limits and snapshots
--                    (model.rs, Replication/Model.antt), and the client (client.rs). One lineage is
--                    Replication/Client/Lineage.antt; the set with its aggregate limits is
--                    Replication/Client/Sets.antt, and what applies a snapshot to it is
--                    Replication/Client/Apply.antt. The authority (authority.rs) is
--                    Replication/Authority: its data in Types.antt, the tests and eviction loops in
--                    Guards.antt, `AuthorityLineage`'s methods in Lineage.antt, and
--                    `AuthorityReplicationSession`, which reserves room for what is pending, in
--                    Sessions.antt. Session-wide methods name a lineage by its participant and ask
--                    the `Session` who may acknowledge.
--   Input            crates/runen-net/src/input: windows and limits (model.rs, Input/Model.antt), and
--                    what an authority retains of its participants' inputs (authority.rs,
--                    Input/Authority.antt, Input/Membership.antt); it asks the `Session` who is
--                    authorized.
--                    Predictions (prediction.rs) are Input/Prediction: State.antt, the admissions and
--                    invalidations in Lineage.antt, and in Observation.antt what a prediction takes
--                    from the client's replication lineage; the host's replay closure is a function
--                    on a world.
--
-- Prelude and Collections hold what the parts share: Boolean tests, lists, machine words, results,
-- and `HashMap`, `HashSet`, `BTreeMap` and sorting of the Rust standard library as lists.
--
-- How the code is written down:
--   * `u64`, `u128` and `usize` are native numbers; `usize` is that of a 64-bit target. Checked
--     arithmetic is `checked_add` and `checked_sub`, with the bound 2^64; a shift keeps its `% 2^64`.
--   * An `Option` around the whole answer of a function is a possible panic (`expect`,
--     an index out of range, a count that leaves its type); `none` is the panic.
--   * A plain sum or difference of the source is such a panic where it leaves its type in the
--     replication client and in the endpoint of flows; in the replication authority it is a sum or
--     difference of numbers, and the theorems there claim no absence of panics.
--   * A hash map is an association list, whose order stands for the iteration order that Rust leaves
--     open; insertion replaces a present key in place.
--   * `NonZero` types are numbers; where a proof needs them positive, it says so as `IsTyped`.
--   * `EstablishedNegotiation` enters by the connection that it proves established. A host's commit
--     and a reconstruction of a delta are arbitrary functions.
--   * All recursion is on lists and numbers that the code also walks; there is no fuel.
--
-- Not modelled: the QUIC side other than wire.rs, which is asynchronous input and output on quinn
-- around state machines of its own (control.rs, negotiation.rs, flow_control.rs and the drivers);
-- delivery/adapter.rs; protocol.rs; tools and examples. `Debug` output, error texts and
-- `debug_assert!` have no model.
pub mod Prelude
pub mod Collections
pub mod Identity
pub mod Session
pub mod Delivery
pub mod Wire
pub mod Replication
pub mod Input
