-- ===== src/Lib.antt =====
-- Tyk Pump: the analytics of an API gateway, taken from a store and passed on to many back ends.
--
-- The gateway writes records of requests into a temporal store. The purge loop (main.go) takes what
-- the store holds under each of its keys, decodes it with the serializer of the key, and gives the
-- batch to every pump, filtered and shortened by the pump's options. Pumps that aggregate turn a
-- batch into one document for each organisation or API (analytics/aggregate.go, aggregate_mcp.go).
-- Reports of uptime tests travel the same way (analytics/uptime_data.go).
--
-- Base.antt          what the modules share: texts as lists of bytes, 64-bit words, integers, Go maps, runs
--                    that may panic, lists, sums kept by key
-- Time.antt          the package `time`, as far as it is used; Floats.antt: floating point as a
--                    parameter; Base64.antt: the standard encoding
-- Analytics.antt     analytics/analytics.go, analytics_filters.go, graph_record.go, mcp_record.go
--   Record           the structs, as records with the fields of the source
--   Filters          `ShouldFilter` and `HasFilter`; Filters/Decide says when a record is kept
--   Fields           `RemoveIgnoredFields` over the JSON tags; Fields/Mask: what it clears
--   Trim             `TrimRawData`; Lines: the header and the lines of a CSV file
--   Graph, Mcp       `ToGraphRecord`, `ToMCPRecord`
-- Aggregate.antt     analytics/aggregate.go, aggregate_mcp.go
--   Counter          `Counter`, `incrementOrSetUnit`; Keys: the keys of the maps of counters
--   State            `AnalyticsRecordAggregate`, `DiscardAggregations`
--   Timestamp        `setAggregateTimestamp`, on the map `lastDocumentTimestamp`
--   Increment        `incrementAggregate`: one record into one aggregate; Cases: its switch over the fields
--   Data             `AggregateData`; Graph: `AggregateGraphData`; Mcp: `AggregateMCPData`
--   Codes            `ProcessStatusCodes`; Dimensions: the three methods of that name
--   Conflict         `OnConflictAssignments`, as expressions, and what they make of two rows
--   Change           `AsChange` and `AsTimeUpdate`, the updates of a document; Change/Places: the paths
--                    of counters differ
--   Named, Grouped   counters of named dimensions, and numbers kept by the key of an aggregate
-- Uptime.antt        analytics/uptime_data.go: `AggregateUptimeData`
-- Serializer.antt    serializer/ and the messages of analytics/proto/analytics.pb.go
-- Storage.antt       storage/temporal_storage.go: `GetAndDeleteSet`
--   Connection       `Init`, `connect`, `resetConnection`, `ensureConnection`, `SetKey`, and
--                    storage/iam_auth.go; Started: the purge loop on a store after its `Init`
-- Pump.antt          pumps/common.go (the options) and main.go
--   Filter           `filterData`; Purge: the rounds over the keys, `PreprocessAnalyticsValues`,
--                    `writeToPumps` (Purge/Kept: from the store to the pumps)
--   Writing          `execPumpWriting` with its timeout, as a step relation
--   Life             `initialisePumps`, the ticks of `StartPurgeLoop`, `checkShutdown`
--   Env, Secrets     config.go: `LoadPumpsByEnv`; kv.go and pumps/pump.go: references to key-value stores
-- Mongo.antt         pumps/mongo.go and what its relatives share
--   Sets, Batch      `AccumulateSet`; Kinds: what the pumps of GraphQL and MCP records change;
--                    Selective: mongo_selective.go; Indexes: `ensureIndexes`, `capCollection`
--   Insertion        the goroutines of `WriteData` and its reading of their errors, as a step relation
--   Healing          mongo_aggregate.go: `WriteData`, which divides the aggregation time where a
--                    document becomes too large; Upserts: `DoAggregatedWriting` down to the driver
--   McpUpserts       mcp_mongo_aggregate.go: the documents of MCP aggregates (Mirrored: what they add)
-- Sql.antt           pumps/sql.go, graph_sql.go, mcp_sql.go
--   Shards           the slices of a batch by day and by size; Records: `WriteData`
--   Rows, Aggregates sql_aggregate.go, graph_sql_aggregate.go, mcp_sql_aggregate.go; Kinds: the three pumps
--   Uptime, Indexes  `WriteUptimeData`, `ensureTable` and `ensureIndex` of sql.go
--   Migration        pumps/common.go: the migration of tables
-- Splunk.antt        pumps/splunk.go: the event of a record, `FilterTags` (Tags), batches (Sent, Batches)
-- Prometheus.antt    pumps/prometheus.go: Metric, Exposition, and what a counter counts (Counts)
-- Tests.antt         runs on small inputs, and the theorems at inputs that meet their hypotheses
--
-- How code is rendered. A Go `int` or `int64` is the number below 2 ^ 64 with its bits; addition wraps,
-- and order tests compare signed values. A string is its bytes. A map is an association list without
-- repeated keys; where the order in which a range meets the fields of a struct could matter, it is an
-- argument. A pointer to a counter in a map is the counter itself: no two entries share one. Where a Go
-- statement can panic (a nil map, a nil pointer, a type assertion, a slice bound), the function
-- returns an option, and `none` is the panic. Floating point is a parameter (`FloatOps`), and nothing
-- is claimed of it. Most loops are structural recursion over the batch. Those that count have fuel: the
-- batches of a slice at most its length, since each takes at least one record; the rounds over days and
-- over tags the length of what they range over; `WriteData` of the Mongo aggregates six rounds, since
-- an aggregation time of at most 60 minutes can be halved no more than five times before it is 1. A
-- decimal number is written with at most twenty digits, which is enough for 64 bits.
--
-- Parameters. To the purge loop the store is a record of a state and `GetAndDeleteSet`; `TakesAll`
-- says of it that a call takes all values of its key and leaves the others, `TakesIfAnswered` that a
-- call without an error does so. Storage gives a record of the second kind, on the calls of the storage
-- package as parameters (`PopsAll`; `Package` with `HasLists` for a connector, its back-off and the
-- environment). The arithmetic of reals in SQL is one too (`Reals`). The decoders of the
-- purge loop, the time stamps of protobuf (`TimeLaws`) and floating point stand for packages. So do
-- the driver of MongoDB (`Driver`, `Upserter`, `McpUpserter`), gorm (`Database`, with `Appends`:
-- rows that are created are behind the others of their table; `AggregateDatabase`, with `Takes`: a
-- statement is taken without an error), the collector of Splunk (`Client`, with `Receives`), the
-- vectors of Prometheus (`Registry`), the key-value stores of secrets (`Stores`), and what a pump
-- does in `Init`, `WriteData` and `Shutdown`.
--
-- Not modelled: the connections of the pumps and their retries, the reading of the configuration,
-- the instrumentation, the health check server and logging; the dialects of SQL; the pumps that no
-- file above names. The goroutines that write one batch to several pumps run one after the other,
-- since each reads the batch and is taken to change nothing of it (`FilterTags` of the Splunk pump
-- moves tags that it shares with the others); those of one pump run in any order (Pump/Writing,
-- Mongo/Insertion).
pub mod Base
pub mod Time
pub mod Analytics
pub mod Base64
pub mod Floats
pub mod Pump
pub mod Mongo
pub mod Sql
pub mod Splunk
pub mod Prometheus
pub mod Storage
pub mod Aggregate
pub mod Uptime
pub mod Serializer
mod Tests
