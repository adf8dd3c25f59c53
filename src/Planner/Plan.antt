-- ===== src/Planner/Plan.antt =====
-- internal/planner/planner.go, `planWithStops`, `planArrival` and `paretoAlternatives`: the choice of
-- the two stops, the search, the walks at both ends, the alternatives and the preference among them.
-- Times are seconds, late enough that a day can be taken off. Logging, metrics and the semaphore
-- around a search are left out.
pub mod Arrival
pub mod Alternatives
pub mod Prefer
pub mod Journeys
