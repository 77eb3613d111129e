-- ===== src/Browser.antt =====
-- internal/browser: the errors of errors.go, the observers of observer.go, and the interception of
-- requests in network_routes.go.
pub mod Errors
pub mod Observer
pub mod Wildcard
pub mod Routes
pub mod RouteState
pub mod RouteRuns
pub mod Listening
mod Tests
