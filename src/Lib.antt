-- ===== src/Lib.antt =====
-- ThingsFlow: the control plane of an IoT middleware. The modelled parts are Go packages below
-- flow-core/internal, which a request or a message passes one after the other.
--
-- The parts and their files:
-- - Throttle models flow-core/internal/throttle/throttle.go, the limiter of login attempts. `Table`
--   is the map from client addresses to counters; `allow`, `record_fail`, `record_success` and
--   `prune` are Allow, RecordFail, RecordSuccess and one pass of the janitor, `client_ip` is
--   ClientIP and `config` the settings of the environment.
-- - Policy models flow-core/internal/policy. Path is ResourcePath and matchResource, Authorize the
--   decision of authorize.go, Lexical and Normalize the normal form of a policy in model.go, Store
--   the rows of the catalog in store.go, and Enforce the checks of middleware.go in front of the
--   routes of a twin. Enforce decides by Authorize over the document that Store resolves, whose
--   maps Normalize made. Policy/Enforce/Handler.antt is what these routes do behind the check:
--   loadEntity, loadIdentity and PolicyContext of flow-core/internal/twin/twin.go and the decoding
--   of a body in flow-core/internal/twin/write.go.
-- - TwinModel models flow-core/internal/twinmodel. Value and Validate are the checks of
--   validate.go, Enforcement is ValidateAttributes of enforce.go. The write of attributes, which
--   Policy.Enforce lets through, goes through this check. Conforms says what it is for values to
--   conform to a schema, without the loops.
-- - TwinStore models flow-core/internal/twinstore. Its own file has the documents of store.go with
--   the keys and the merges in which the last write wins, Memory the in-memory store with its
--   watches, and Nats the optimistic merge of nats.go in a bucket that other writers share.
-- - Rpc models flow-core/internal/rpc/rpc.go, the calls of devices. `response_topic` and
--   `parse_response_topic` are ResponseTopic and ParseResponseTopic, `handle_response` is
--   handleResponse, `send_twoway` is SendTwoway; Calls follows a call through what the listener and
--   other calls do while it waits.
-- - Alarm models flow-core/internal/alarmmaterializer and the subscription of
--   flow-core/cmd/alarm-materializer/main.go. Intent is ParseIntent, Apply is ApplyIntent over the
--   interface of the repository, Postgres the statements of the repository on the rows, and Replies
--   what becomes of a message. A message is handled to its end before the next one: the source runs
--   its statements without a transaction, so that handlers of the same queue group can interleave,
--   and such runs are outside the theorems.
-- - Topology models flow-core/internal/topology/topology.go, the graph of a tenant's entities, and
--   flow-core/internal/twin/expand.go. Store has SaveEdge and DeleteEdge (`save_edge`,
--   `delete_edge`) on the rows of `topology_edge` and of its older mirror `relation`, Model the
--   check of an edge against the models of its ends, which TwinModel derives; Traverse has
--   NeighborsTenant and the union of neighborUnionSQL, Traverse/Query the recursive query of
--   ExpandWithCTE; Expand has parseExpandSpec and expandDepths, Expand/Annotate the answer of
--   expandRelations, whose rows Policy.Enforce.Handler loads.
-- - Base has what they share: texts as lists of code points with the functions of `strings` and
--   `strconv` that the code calls, Go maps as association lists, sorting, results, signed integers
--   and JSON values.
--
-- State is a record that the operations take and return. A map is the list of its entries, and an
-- iteration goes over them in the order of the list; where the order could matter, a theorem says
-- that it does not. A time, a token's claims, the environment, the answer of the database and what
-- other writers do between two steps are arguments. A nanosecond duration is the bit pattern of an
-- int64, with its wrap-around; a float64 is an integer count of 2^-1074. The regular expressions of
-- a schema, the digest of a login and the server of the bucket are parameters, and so is the
-- collation of the database.
--
-- Loops go over lists. The optimistic merge has the eight attempts of the code and ends with an
-- error when all are used. The decimal digits of a number n are taken with a bound of n + 1 steps,
-- more than it has digits. The recursive query makes one round more than the depth, after which a
-- round finds no row. The channel of a call has a buffer of one, that of a watch its buffer of 32
-- changes; a change that finds it full is dropped, as in the code.
--
-- Not modelled: the interleaving of two handlers of alarm intents, the HTTP server and its router,
-- the SQL server beyond the rows that a statement reads and writes, the logs and counters, the
-- reads of the NATS bucket that fall back to single keys, the list of the policy catalog, the
-- normalization of a twin model, the advisory lock of a bidirectional edge, ListEdges, Neighbors,
-- the backfill and the seeds of the topology, and the attributes that an expanded relation embeds.
-- The other packages of flow-core/internal, such as the subscriptions of ws, telemetry and the user
-- interface's resources, have no module here.
pub mod Base
pub mod Rpc
pub mod Throttle
pub mod Policy
pub mod Alarm
pub mod Topology
pub mod TwinModel
pub mod TwinStore
