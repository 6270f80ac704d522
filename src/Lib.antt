-- ===== src/Lib.antt =====
-- xPipeline, a pipeline for log messages: consumers read messages, streams filter, format and
-- route them, producers write them. This library models the parts that decide what happens to the
-- bytes and the messages, and proves what makes them correct.
--
-- The files, each with its child modules for the proofs and a module Tests of concrete runs:
--   Prelude     shared names: tests on numbers, lists over the native numbers, bytes.
--   Trie        shared/trie.go. NewTrie, addNewChild, addPath (`add_path`, `add_to_child`,
--               `descend`), Add, Match (`match_path`) and MatchStart. A node is a value; a panic is
--               `none`. `found` is what a caller reads of a match.
--   Parser      shared/parser.go. State names, AddTransition and its callers, and Parse: `parse_round`
--               is one round of its loop, on the record `Cursor` of its variables, and uses MatchStart
--               of the trie. Callbacks are names; the calls are part of the result. Parser.Directive has
--               ParseTransitionDirective.
--   Numbers     shared/utilities.go: MaxI to Min3I, Btoi, Itobe. Numbers.Decimal has strconv.Itoa.
--   Texts       shared/utilities.go: IndexN, LastIndexN, addresses, FilesByDate; shared/typeregistry.go:
--               the names of a type.
--   Methods     shared/utilities.go: GetMissingMethods; multiplexer.go: the choice of dumpFaultyPlugin.
--   Reader      shared/bufferedreader.go. The record BufferedReader has the fields of the struct;
--               `check_complete` chooses the framing method that NewBufferedReader installs (Reader.Framing); `read_one`
--               is ReadOne with what `reader.Read` returns as an argument (`Chunk`), and `read_all`
--               of Reader.All is ReadAll, with a chunk for each call.
--   ByteStream  shared/bytestream.go.
--   Batch       core/messagebatch.go: the double buffer in front of a writer, its operations one after
--               the other.
--   Interleaved core/messagebatch.go again: calls of Append and Flush as steps that interleave, a ticket,
--               a write and its count for each message, a swap and a wait for each flush.
--   Message     core/message.go: the record. Its Enqueue stands in Producer.
--   Streams     core/stream.go, the wildcard producers of core/streamregistry.go, stream/broadcast.go,
--               stream/random.go, stream/roundrobin.go. What a stream does with a message is a list of
--               deliveries.
--   Registry    core/streamregistry.go: ids and names, streams by id with their fallback, and
--               LinkDependencies with AddDependency and DependsOn of core/producer.go. Registry.Linking has
--               any number of turns of its loop.
--   RouteStream stream/route.go: the loop over the routes, which removes those without a stream.
--   Filters     filter/all.go, none.go, any.go, stream.go, sample.go, rate.go. Filters.Patterns has
--               filter/json.go and filter/regexp.go.
--   Formats     format/forward.go, clear.go, runlength.go, sequence.go, timestamp.go, envelope.go,
--               splitpick.go, streamrevert.go, streamroute.go, streamname.go.
--   WaitGroup   shared/waitgroup.go: the counter, and the loops that wait for it.
--   Fuse        shared/fuse.go: Burn, Activate and Wait as steps that interleave.
--   Producer    core/producer.go with the states of core/plugin.go and Enqueue of core/message.go:
--               `enqueue` and what becomes of a message; Producer.Closing has CloseMessageChannel,
--               Producer.Control the loop of control commands and the check of the fuse.
--   Consumer    core/consumer.go: EnqueueMessage over streams, and the control loops.
--   Json        format/json.go: the callbacks of the parser, which write pieces of text and keep a stack
--               of states, and Format; Json.Configure has the parser that Configure builds.
--   MarshalMap  shared/marshalmap.go: values as encoding/json decodes them, lookups by key and by path.
--   ProcessJson format/processjson.go: the directives that change the fields of such a map.
--   ProcessTsv  format/processtsv.go: the split of a line, with quotes or without (`parse_line`), the
--               directives on its values, and the join (`write_line`).
--   Settings    shared/marshalmap.go: the accessors by type, over each type of value that they look for.
--   PluginConfig  core/pluginconfig.go: Read, the getters with their defaults, and Validate.
--               PluginConfig.Requests has a list of calls of the getters.
--   Metrics     shared/metric.go, the counters of core/streamregistry.go, and the tick of the main loop in
--               multiplexer.go that adds them to metrics.
--   Multiplexer multiplexer.go: newMultiplexer sorts configurations (`sort_plugins`), makes streams,
--               producers and consumers, and links them. Multiplexer.Life has run and shutdown, as the list
--               of what they do; Multiplexer.Protocol has the order that this list follows.
--               Multiplexer.Stopping has the wait for dependencies of core/producer.go.
--
-- The parts interact as in the program: the parser's states are tries, the reader's text method uses
-- Btoi, the run-length formatter writes what the reader frames, streams call filters and formatters,
-- consumers enqueue to streams, the JSON formatter runs the parser, closing a producer waits on a
-- waiting group, and the multiplexer registers streams and producers in the registry and links them.
--
-- Numbers are natural numbers; unsigned fields wrap at 2 ^ 32 or 2 ^ 64 where the code lets them, and
-- the lengths that the reader computes are ints modulo 2 ^ 64. Theorems about the reader take buffers
-- below 2 ^ 60 bytes, far from any wrap. The loop of Parse takes fuel: without transitions that
-- continue, one round per byte and one more are enough; with them it may run for ever. DependsOn takes
-- the depth of its search as fuel; a producer's number in an order without circles is enough. The
-- digits of a number take the number as fuel, `bytes.Split` the length of its data; the loops of the
-- JSON formatter over its stack take the size of the stack and one more; the loop over a line with quotes
-- takes one round for each byte and one more, and the loop of a route stream one for each route. The other
-- loops are structural. Loops that wait for others take a list of what they find in each turn. Batch and
-- Producer run their operations one after the other; Interleaved and Fuse have the steps of concurrent
-- calls.
--
-- Not modelled: input and output (files, consoles, sockets, signals, logging), the creation of plugins,
-- which works by reflection and is a parameter of the multiplexer, generated and vendored code, the
-- collectd formatters, decoding and templates of JSON, which are encoding/json and text/template,
-- floating-point numbers (rates and logarithms), timers and ticker loops, and the command line.
pub mod Batch
pub mod ByteStream
pub mod Consumer
pub mod Filters
pub mod Formats
pub mod Fuse
pub mod Interleaved
pub mod Json
pub mod MarshalMap
pub mod Message
pub mod Methods
pub mod Metrics
pub mod Multiplexer
pub mod Numbers
pub mod Parser
pub mod PluginConfig
pub mod Prelude
pub mod ProcessJson
pub mod ProcessTsv
pub mod Producer
pub mod Reader
pub mod Registry
pub mod RouteStream
pub mod Settings
pub mod Streams
pub mod Texts
pub mod Trie
pub mod WaitGroup
