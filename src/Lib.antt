-- ===== src/Lib.antt =====
-- A model of the core of the ADN DMR peer server (src/adn_server), and what holds of it.
--
-- The server relays digital voice between repeaters and, over the mesh, between servers. A datagram
-- of another server is decoded by a codec (infrastructure/mesh), handled by the mesh engine
-- (domain/mesh_engine.py), which asks the admission rules (domain/mesh_admission.py) whether the
-- frame may pass and keeps a session per link (domain/mesh_session.py), and answers with effects
-- that an adapter carries out, the delivery to routing among them.
--
-- Prelude holds what the parts share: Boolean tests, lists and slices of bytes, equality, options,
-- dictionaries in order of insertion (Dict) and decimal texts (Decimal).
-- Wire is src/adn_server/domain/value_objects.py: ids as bytes.
-- Mesh/Admission is src/adn_server/domain/mesh_admission.py: Rules and Filters have one function per
-- rule, Bits call_attributes, Chains the gauntlets admit_dmrd_v1 and admit_dmre_v5 and the
-- acl_check of src/adn_server/infrastructure/acl_router.py.
-- Mesh/Session is ObpBridgeSession and Mesh/Sessions is MeshSessionStore of
-- src/adn_server/domain/mesh_session.py, one function per method; Mesh/Config is what they read of
-- the configuration.
-- Mesh/Engine is src/adn_server/domain/mesh_engine.py; its child Ingest has the handlers
-- ingest_dmrd_v1 and ingest_dmre_v5. A handler returns its answer and the new session.
-- Mesh/Wire is src/adn_server/infrastructure/mesh: ObpV1 and DmreV5 build, verify and parse the
-- datagrams, and encode and decode them as the transports do; Registry is the choice of a codec.
-- Proxy is the fan-in of hotspots: Slots has the stores of src/adn_server/infrastructure/proxy,
-- Packets src/adn_server/application/proxy/packet_helpers.py, and UseCases the class ProxyUseCases of
-- src/adn_server/application/proxy/use_cases.py, one function per method, with its state as a record.
-- Report is the queue of src/adn_server/application/report/queue.py between the server and the
-- connection to the monitor.
-- LoopGuard is src/adn_server/application/routing/loop_guard.py (Check has check and trim, the file
-- itself the evaluation of a stream), which drops group voice that comes back through a transcoding
-- bridge; Activity states when a stream last had a frame, and History has sequences of checks and trims.
-- PushThrottle is src/adn_server/infrastructure/config_push_throttle.py, which widens the debounce of
-- configuration pushes while many peers connect.
-- Subscription is src/adn_server/domain/subscription.py, what a system listens to: Store is
-- src/adn_server/infrastructure/subscription_store.py with its indexes (History has sequences of
-- writes, Reads the queries, Sound and Exact what the indexes are to say of the legs), and Router, Timers, ObpSource, Inband and Reset are
-- src/adn_server/application/subscription/{router,ingress,subscription_queries}.py,
-- {rule_timer_ops,stat_trimmer_ops}.py, obp_source_ops.py, {in_band_signalling_ops,trigger_bytes}.py
-- and subscription_reset_ops.py, which act on the store; of Inband, Signal has the loop over the legs
-- and what is left where it raises, and StaticTexts reads the texts of static talkgroups for it, whose
-- digits and spaces are those of ASCII. Operations puts all of them in any order (Kept is
-- about any predicate of the store), and
-- Legacy is routing_table_export.py, routing_table_import.py and store_sync.py. The legs are values: a
-- reference to one is its id, and one that is changed in place and upserted is the new value. Table
-- keys are lists of code points.
--
-- Bytes are lists of natural numbers. Times are natural numbers of nanoseconds, where the source has
-- floats of seconds, and a difference of times is compared as a sum. Loops are structural recursion
-- on the list they run over; the decimal digits of n are taken with fuel n, which is enough since
-- each round divides by ten. The keyed hashes and the test whether a text is an address are
-- parameters; that a digest has 16 or 20 bytes is a hypothesis. Log lines are data.
--
-- Not modelled: sockets, Twisted, MySQL, MQTT and start-up, which are input and output; the voice
-- codecs of domain/dmr, which are a port of another library; the building of subscription tables, the
-- routing of streams to repeaters and the plugins.
pub mod Prelude
pub mod Wire
pub mod Mesh
pub mod Proxy
pub mod Report
pub mod Subscription
pub mod PushThrottle
pub mod LoopGuard
