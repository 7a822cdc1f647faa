-- ===== src/Lib.antt =====
-- The C++ driver's own logic: how a monitor keeps its view of a replica set, which addresses and numbers
-- it accepts in text, how it draws random numbers, how untrusted BSON is validated and BSON values are
-- ordered and hashed, how bytes become text, how JSON is parsed, how bulk writes are cut into batches and
-- their results merged, how connection strings are read, how fail points are switched, and in which order
-- the initializers of a program run.
--
-- Parts, and the files that model them (paths from the repository's root):
--   Monitor: src/mongo/client/replica_set_monitor.cpp and replica_set_monitor_internal.h.
--     Monitor/Hosts: the containers of addresses. Monitor/Reply: `IsMasterReply::parse`.
--     Monitor/Nodes: `Node` and the sorted vector of nodes. Monitor/Scan: `SetState`, `ScanState` and
--     `Refresher`; Scan/Refresher has the operations that draw a random order, Scan/Check is
--     `SetState::checkInvariants`, Scan/Runs the interleavings of all operations. Scan/Invariant states
--     what every operation keeps; Members, Enqueue, Queue, Start, Master and Received prove it.
--     Monitor/Select: `getMatchingHost`, the choice of a host by read preference, tags and latency.
--   Net: src/mongo/util/net/hostandport.cpp (HostAndPort/Print: its text), with `find` and `rfind` of
--     src/mongo/base/string_data-inl.h.
--   Number: src/mongo/base/parse_number.cpp, for the integer types; Parse/Numeral says what a text
--     denotes without it, and Number/Decimal is what it reads back.
--   Random: src/mongo/platform/random.cpp and random.h, the 32-bit generator.
--   Bson: src/mongo/bson. Bson/Validate: bson_validate.cpp, but for the text of an
--     `_id` in an error. Bson/Numbers: compare_numbers.h of
--     src/mongo/base. Bson/Compare: the order of values of bsonelement.cpp and bsonobj.cpp; Compare/Hash: their
--     hashes.
--   Encoding: src/mongo/util/base64.cpp and base64.h.
--   Json: src/mongo/db/json.cpp, the parser. Json/Token, Text and Scalar are its leaves, Scalar/Special the
--     objects with a reserved first name, Start the tables of its tests, Parser what calls itself, and
--     `fromjson`. Json/Ends and its children prove where it stops. Text/Escape is `escape` of
--     src/mongo/bson/bsonelement.cpp, which writes texts, and Scalar/ObjectId is `OID::toString` of
--     src/mongo/bson/oid.cpp.
--   Bulk: src/mongo/client. Bulk/Operation: the three write operations. Bulk/Concern: write_concern.cpp.
--     Bulk/Result: write_result.cpp. Bulk/Batch: the loop that the two writers share, on what they do
--     differently; Bulk/Writers: command_writer.cpp and wire_protocol_writer.cpp.
--   Util: src/mongo/util/fail_point.cpp and fail_point.h. FailPoint/Threads: its threads, of which
--     each access to a field that others see is a step, FailPoint/Runs their
--     runs, and FailPoint/Wait the end of the wait in `setMode`.
--     src/mongo/util/stringutils.cpp: Util/StringUtils.
--   Client: src/mongo/client. Client/ConnectionString: the constructors of `ConnectionString`, in
--     dbclientinterface.h, with `parseDeprecated` and `sameLogicalEndpoint` of dbclient.cpp.
--   Init: src/mongo/base. Init/Graph: initializer_dependency_graph.cpp; Init/Graph/Search and Visit are
--     about one call of its search, Sorted about the whole, Added about `addInitializer`. Init/Execute:
--     initializer.cpp and global_initializer_registerer.cpp.
--   Base: what the others share, the native numbers, lists and integers.
-- A reply is parsed with Net's addresses, whose ports Number parses; the monitor keeps Random's state.
-- JSON's special objects use Number and Encoding.
--
-- State is passed explicitly. A refresher's own pointer to its scan is the scan's number, so that a
-- refresher can outlive its scan, as in the code; an operation runs under the set's mutex and is one
-- step, and a run is a sequence of steps in any order. A set of addresses is the sorted list of its
-- elements, a text the list of its bytes, a 32-bit word its bit pattern. Exceptions and error statuses
-- are values. A load outside a buffer is the value `fault`, and
-- a step of the JSON parser behind its input the value `outside`. A reply whose `ok` is false is `none`.
--
-- The validator's loop runs on fuel, `2 * max_length + 2` turns. It is enough since of two turns one
-- reads a byte at least.
--
-- The JSON parser's nested values and loops run on fuel, as much as the input has bytes. It is enough since
-- each nested value and each turn of a loop is behind a byte that was read. The batches of a bulk write run
-- on as much fuel as there are operations, of which each batch takes one at least.
--
-- `LexNumCmp::cmp` runs on as much fuel as its texts have bytes, of which each turn of its loop takes one.
--
-- The search of the initializers' graph runs on one more fuel than there are nodes. It is enough since each
-- nested call has one node more in progress. The graph is the list of its nodes in any order of iteration.
--
-- A double is a NaN, an infinity or an integer, in units of the smallest positive double; the two zeros
-- are one. How large the unit is, which numbers are doubles and how a long is converted to one are
-- parameters, with what IEEE 754 says of them as their laws. The result of a comparison is its sign.
--
-- Parameters: the initializers are any functions of a state, and an exception has a code that is not 0.
-- `strtoll` and its kin, `strtod`, the conversion of a number to a double and `dateFromISOString` are any
-- functions, and where a result has to stay inside of the input, those of the C library read no further
-- than their text; so are `boost::hash_combine` and the hashes of texts and object ids; the connection of
-- a writer is any function of its state, and so is the `_id` that an update's documents have.
-- `std::random_shuffle` is any function that permutes, `std::sort` any that permutes and sorts by latency.
-- The fields of an isMaster reply are those that BSONObj's accessors return.
--
-- Not modelled: threads, locks and condition variables other than as interleavings, the network, the log,
-- the configuration change hook, and the components that the library has no file for: the access to the
-- bytes of BSON elements and their builder, with the text of an element that the validator puts into its
-- errors, connections and the URLs that name them, which `boost::regex` matches, authentication, geometry
-- and GridFS. A failure of the JSON parser has the part of the input that was left, for the offset in its
-- message; the result of a parse is the elements that were appended, not their bytes.
pub mod Base
pub mod Bson
pub mod Bulk
pub mod Client
pub mod Encoding
pub mod Init
pub mod Json
pub mod Monitor
pub mod Net
pub mod Number
pub mod Random
pub mod Util
