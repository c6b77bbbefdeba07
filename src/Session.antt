-- ===== src/Session.antt =====
-- A session of the dashboard (go/dashboard/app.js): the shared `state`, the page loads that run
-- as async functions over it, and the timer that refreshes the page.
pub mod State
pub mod Refresh
pub mod Loading
pub mod Events
pub mod Invariant
pub mod Reachable
pub mod Timer
pub mod Stale
pub mod Progress
mod Tests
