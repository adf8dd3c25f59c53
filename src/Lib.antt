-- ===== src/Lib.antt =====
-- The route search server TravelMCP, modelled and proved about.
--
-- The program answers a query from a place to a place with a journey of rides and walks. Data of
-- several providers are loaded into one network (internal/model), the planner searches it
-- (internal/planner), the journey is priced (internal/pricing), and the result leaves through the MCP
-- and HTTP servers.
--
-- Files, and the code that they model:
--   Prelude     lists, options, tests and maps that the other files share
--   Model       internal/model/model.go: stops, trips, connections, transfers, legs, journeys; Indexes is
--               BuildIndexes, Walks is BuildWalkTransfers, Modes is ParseTransitModes
--   Float       the float64 operations that the code uses, as an interface
--   Geo         internal/geo/geo.go: Haversine, WalkTimeMinutes, WalkRadiusKm
--   Texts       what the code uses of package strings, as an interface
--   Strings     functions of packages strings and strconv, on the characters
--   Planner     internal/planner: Scan is the loop of csa with relax, Route is reconstruct, Legs is
--               buildLegs, Speed is the filter on implausible speeds, Csa is csa as a whole, Raptor is
--               raptor, Choose is the choice of stops (findStopByPlace, pickBest, chooseBestStop and
--               internal/geo's NearestStops and SpatialIndex.Nearest); of Plan, Arrival is planArrival,
--               Alternatives is paretoAlternatives, Journeys is planWithStops, and Prefer its end
--   Pricing     internal/pricing: Currency is currency.go; Fares is CostForLeg, Totals is EnrichJourney
--               and the totals
--   Jobs        Store is the tables of jobs, quotas and recorded calls of internal/store/memory/store.go,
--               Worker and Message are internal/jobs/worker.go
--   Sync        Election is internal/sync/elect.go, Replay is internal/sync/replay.go, Overrides is
--               internal/sync/overrides.go
--   Cache       internal/cache/cache.go
--   Accounts    the users and API keys of internal/store/memory/store.go
--   Mintrans    internal/adapters/mintrans: Days is days.go, Register the records and small functions of
--               importer.go, Routes and Trips are FlattenTrips, Contract is contract.go
--   Limiter     internal/middleware/ratelimit.go
--   Queue       internal/queue/queue.go
--   Tests       small inputs, runs of the definitions on them, and the theorems at them
--
-- The planner reads a network and the parameters of a query, chooses a stop near each end, searches
-- between them with csa or raptor, prices the journey and its later alternatives with Pricing, and
-- prefers among them. The worker claims a job of the store, runs its handler under the quotas, and marks
-- the job by the outcome.
--
-- Times are whole numbers of seconds since a fixed instant and durations are numbers of seconds; a
-- transfer's minutes are not negative, which the termination of relax needs. The times of a register
-- are minutes, and the limiter's are nanoseconds. Texts are native strings and modes and states are the
-- texts that the source compares. Floating point numbers are any type with an instance of Float; no law
-- of them is assumed, but for the limiter, where floats are exact on whole numbers up to the burst. The
-- functions of package strings are an instance of Texts, or are defined on the characters in Strings;
-- two results on currencies assume that normalizing twice is normalizing once. Package encoding/json is
-- an interface. Maps that the code reads and writes by key are functions, maps that it ranges over are
-- association lists, in the order of some iteration. Logging and metrics are left out.
--
-- Loops without a structural bound take fuel. The result out_of_fuel stands for a run that has not
-- ended, and the theorems say which fuel is enough. The result nil_stop stands for a panic on a stop
-- that the network does not have. Neither is an error that the code can answer to: where the code goes
-- on after an error, the definitions pass these two on.
--
-- The handlers of jobs have their effects outside the model. What a call of a handler answers is a
-- function of the provider whose quota the call takes, and of the job with its attempts.
--
-- The loop that puts a stop of a trip on a later day runs on as much fuel as the time before it has
-- days.
--
-- Not modelled: the PostgreSQL store, the HTTP server and its pages, the telemetry exporters, the
-- importers of foreign formats, but for the trips of the register, and the geocoders, which are input and
-- output or calls of libraries.
pub mod Prelude
pub mod Model
pub mod Float
pub mod Geo
pub mod Planner
pub mod Texts
pub mod Strings
pub mod Pricing
pub mod Jobs
pub mod Sync
pub mod Cache
pub mod Accounts
pub mod Mintrans
pub mod Limiter
pub mod Queue
pub mod Tests
