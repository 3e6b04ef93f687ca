-- ===== src/Lib.antt =====
-- Urban Goggles: real-time delays of a transit network, from the agency's feed to predictions.
--
-- An ingestor polls a GTFS realtime feed, turns it into delay events and publishes to Kafka those
-- that changed. A processor consumes the events, derives delays from the static schedule where the
-- feed gives only times, reconciles them into states in Redis, detects transfers that break, and
-- predicts how the delays spread. A server answers queries and streams alerts.
--
-- The parts and their files (Go paths from the repository's root):
--   Transit             the messages of proto/transit that the parts exchange
--   Ingest.Normalizer   internal/ingest/normalizer.go: NormalizeTripUpdate, extractDelay,
--                       ParseRouteFromTripID
--   Ingest.Differ       internal/ingest/differ.go: Diff, Commit and Prune on the remembered states
--   Ingest.Poller       internal/ingest/poller.go: pollOnce, composed of the two above, and Start
--   Ingest.Config       internal/ingest/config.go: LoadConfig with its defaults
--   Ingest.Ingestor     cmd/ingestor/main.go: a poller for each feed, and the throughput report
--   Graph               internal/graph/types.go and graph.go: the schedule and its queries
--   Graph.Parser        internal/graph/parser.go: the readers of the tables; in its Calendar,
--                       activeServices and parseAgencyTZ
--   Graph.Build         internal/graph/graph.go: BuildGraph after the files are parsed; in
--                       Graph.Load, BuildGraph as a whole, over the parser, and Stats
--   Graph.Headway       internal/graph/headway.go: BuildHeadwayIndex and GetScheduledHeadway
--   Processor.Enrich    cmd/processor/enrich.go: enrichEvent, over the graph's queries
--   Processor.Lag       cmd/processor/main.go: the lag of each partition, sumLags and monitorLag
--   Processor.Retry     cmd/processor/main.go: withRetry
--   Processor.Claim     cmd/processor/main.go: ConsumeClaim, over the parts below; in
--                       Processor.Forecast, runPropagation
--   Processor.Stats     cmd/processor/main.go: one report of reportStats, over State.Listing
--   State               internal/state/manager.go: ProcessEvent and GetDelay, over Redis; in
--                       State.Listing, GetRouteDelays and GetAllActiveDelays
--   Transfers           internal/transfer/detector.go: EvaluateDelay and tripDelayAt, over the graph's
--                       queries and GetDelay
--   Propagation         internal/propagation: the configuration (config.go), the stores of observed
--                       outcomes (history.go, stopimpact.go) and, in Propagation.Engine, the walk of
--                       engine.go: its queue and seeds, Loop with the transfers and the loop itself,
--                       Predict with the first estimate and Propagate
--   Evaluation          internal/evaluation: in Evaluation.Pending, the store of pending.go; in
--                       Tracking, Matching and Sweep, TrackPrediction, OnDelayEvent and sweepOnce of
--                       evaluator.go, over that store and those of Propagation
--   Alerts              internal/server/alerts.go: Subscribe, its end, and Publish;
--                       in Alerts.Reconnect and Alerts.Sessions, RunKafkaConsumer and consumeOnce
--   Server              internal/server/handlers.go: GetNetworkState, GetRouteDelays, StreamAlerts,
--                       PredictImpact and GetBlastRadius, over State, Graph and Propagation;
--                       in Server.Reliability, GetTransferReliability
--   External            what stands outside of the repository: Redis with its sorted sets and
--                       pipelines, JSON, float64, container/heap
-- Each part's theorems stand in modules below it, named for what they show. Base holds what all
-- share, Tests the runs and the theorems at concrete inputs.
--
-- State is passed explicitly: an operation takes the state and returns the new one with its
-- result. What the clock, the network and other libraries answer is an argument. A mutex makes an
-- operation one step, but a read lock does not: a Publish of the alert broker is its sends to single
-- channels, and a session with Kafka is told as one subscriber meets it. Go's int32, int64, int and
-- uint64 are integers with the wrap-around of each operation written out; int has 64 bits. Strings
-- are lists of bytes, maps association lists, and a missing key reads as the zero value where the Go
-- code reads it so.
--
-- Redis, JSON encoding, float64 and container/heap are interfaces (External.Redis,
-- External.SortedSets, External.Float, External.Heap): records of operations, with records of laws
-- that say what their documentation promises. Tests gives instances that satisfy the laws. Scores of
-- sorted sets are integers, as the program only uses whole seconds. No time to live runs out in the
-- model, and no other client writes between two calls of an operation. sort.Slice and sort.Ints are
-- arguments of what sorts, with the laws of sorting where a theorem needs them.
--
-- The loops of the program go over lists and end with them. The binary search of sort.Search runs
-- on fuel; the length of the range is enough, since every round shrinks it. withRetry runs on the
-- number of attempts. The walk of Propagate runs on the number of impacts that it may still report,
-- and the skipping of visited places between two impacts on the size of the queue, which each skip
-- lowers by one; Propagation.Engine.Walks shows that this is enough.
--
-- Not modelled: opening the schedule's files and encoding/csv, HTTP and Kafka, logging and metrics,
-- the wiring and printing of the other commands, and generated code: what Kafka and a fetch answer is
-- an argument, and which messages a failed or repeated send leaves on a topic is up to Kafka. A
-- propagation that ConsumeClaim starts runs beside it: which of them finds a permit is an argument.
pub mod Base
pub mod Transit
pub mod Ingest
pub mod External
pub mod Graph
pub mod State
pub mod Transfers
pub mod Propagation
pub mod Evaluation
pub mod Alerts
pub mod Processor
pub mod Server
pub mod Tests
