-- ===== src/Lib.antt =====
-- StreamPulse: a verification library of its Go services.
--
-- The event generator (services/event-generator) makes synthetic requests to a content network and
-- writes them to Kafka; stream jobs turn them into windows of metrics for each node, which
-- ClickHouse keeps. The recommendation API (services/recommendation-api) reads the windows of a
-- scope, looks for anomalies, proposes new weights for the nodes, and publishes the proposal to
-- Kafka in shadow mode. What is modelled is the Go code of the two services' own logic:
--
-- - Domain: services/recommendation-api/internal/domain/types.go, the records that the parts of
--   the API exchange.
-- - Scoring: services/recommendation-api/internal/scoring/scorer.go. `Scorer.Propose` is
--   `propose`. Scoring.Screening has the latest window of each node and the choice of
--   candidates, Scoring.Weights the current and the target weights and the bounded move,
--   Scoring.Report the benefit and the result. The other modules below Scoring prove: Newest,
--   Distinct and Sorted are about the latest windows, Candidates about the loop that rejects nodes,
--   Evidence about the result's evidence and window, Outcome and Errors about what `Propose`
--   returns, Benefit about what a proposal improves, Factors, CurrentWeights, Uniform, Targets, Movement and Conservation about the
--   weights.
-- - Detection: services/recommendation-api/internal/detection/detector.go. `Detector.Evaluate`
--   is `evaluate`; Detection.Statistics has the median, the robust z-score and the frozen
--   average, and Detection.Signals and Detection.Coverage the theorems.
-- - App: services/recommendation-api/internal/app/service.go. Each method of `Service` is a
--   function. A call takes the state (`lastGenerated`, what was published, and what was written
--   to the audit store) and the world outside as it answers during the call (`Outside`: the
--   clock, ClickHouse, Kafka, the audit store), and gives its result and the next state.
--   `Evaluate` is split where an answer comes in. App.Scopes has `validateScope`, App.Build the
--   recommendation, App.Effects what one call can do, App.Dwell the dwell time over all states
--   that calls one after the other can reach, App.Keys the keys of scopes, App.Audit the writes
--   to the audit store, App.Interleaving calls at the same time, where each decides by a state
--   that it saw and notes its result in a later one.
--   App.Failures has the errors that `Evaluate` can return, App.Metrics the answer of `Metrics`.
-- - System: services/recommendation-api/cmd/server/main.go, the service with this detector and
--   this scorer.
-- - Http: services/recommendation-api/internal/httpapi/handler.go. A request is a method, a clean
--   path split at its slashes, and a body; `serve` picks the handler by the routes that `New`
--   registers (Http.Routes) and gives the response and the next state of the service. Http.Safety
--   and Http.Answers are about one request, Http.Runs about many, one after the other.
-- - Server: services/recommendation-api/cmd/server/main.go, the settings that `main` reads from the
--   environment (`start`; an error is what it logs before it ends), and the health check.
--   Server.Safety puts the settings, the HTTP interface, the service, the detector and the scorer
--   together.
-- - Repository: services/recommendation-api/internal/repository. Repository.Requests has the
--   requests to ClickHouse, Repository.Rows the rows and what is made of them, Repository itself
--   the methods of `ClickHouse` with the texts of their queries, and Repository.Memory the audit
--   store of audit.go. Repository.Answers, Histories and Newest prove.
-- - Publisher: services/recommendation-api/internal/publisher/kafka.go.
-- - Wired: the world outside of the service (`App.Outside`) as `main` puts it together of the
--   repository, the publisher and the clock; Wired.Effects says what the service's calls then mean
--   for ClickHouse and Kafka.
-- - Generator: services/event-generator/internal. Generator.Config is config/config.go.
--   scenario/generator.go is Generator.Scenario (the effects of the scenarios), Requests (the
--   choices of a request), Records (its events and records) and Run (the run and its manifest); a
--   call that draws random numbers takes and gives the state of the random source (Draws).
--   Generator.Events is events/events.go. Of sink/sink.go, Generator.Sink is the state of the Kafka
--   sink and Targets the sinks as a run sees them: since a run keeps the records that it emitted,
--   a sink is given by its answers to the records, after those before them. Generator.Command is
--   services/event-generator/cmd/generator/main.go with `Load` of config/config.go. Rates, Delivery,
--   Kept, Counts, Shape, Totals, Complete, Success, Finish, Written and Delivered prove, with the
--   promises of calls in Promises.
-- - Common, Float, Time and Samples: what these share, and the inputs of the tests.
--
-- Numbers. A `float64` is an element of an abstract type with the operations that the code uses
-- (Float); where a theorem needs laws, it assumes exact arithmetic (`IsExact`, an ordered field),
-- which the rational numbers satisfy (Float.Rational) and in which the tests run. Rounding,
-- overflow and NaN are outside the model; an infinity is a value of `Extended`. An instant is its
-- number of nanoseconds, an integer; `Time.sub` is held within 64 bits as Go's is, a sum of two
-- durations wraps around, and so does the count of samples in `confidence`. A map is an association
-- list in the order of first insertion, one of the orders in which Go may visit it; sorting is
-- insertion sort, one of the orders that `sort.Slice` may give. All loops are over lists,
-- and that of a run is recursion on the number of its requests, so no fuel is needed. The manifest's
-- counters are natural numbers.
--
-- Parameters. What the code takes from its language's library and from other programs is a record of
-- functions of each part: SHA-256, the forms of instants and numbers, and rounding
-- (`App.Build.Library`, `Generator.Draws.Tools`), JSON (`Http.Json`, `Repository.Rows.Codec`,
-- `Generator.Draws.Tools`), the environment and the parsers of its values (`Server.Environment`),
-- ClickHouse behind the HTTP client and URLs (`Repository.Requests.Wire`), the Kafka writer
-- (`Publisher.Kafka`, `Generator.Targets.Writer`), files, YAML and the process
-- (`Generator.Command.Host`, `Generator.Targets.Output`), and the random source
-- (`Generator.Draws.Random`). What a theorem assumes of them is among its hypotheses: that the parser
-- of durations gives values in the range of `Duration`, and for the generator that random numbers are
-- in their range and that events have JSON (`Generator.Success.Works`).
--
-- Not modelled: the listening and the shutdown of the server, headers and deadlines, the JSON texts,
-- the options of the Kafka writer, the form of the scenario's YAML, signals, and the parsing of the
-- command line. The stream jobs are Java.
pub mod Common
pub mod Float
pub mod Time
pub mod Domain
pub mod Scoring
pub mod Detection
pub mod App
pub mod System
pub mod Http
pub mod Server
pub mod Repository
pub mod Publisher
pub mod Wired
pub mod Generator
pub mod Samples
