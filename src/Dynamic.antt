-- ===== src/Dynamic.antt =====
-- internal/runtime: the targets of dynamic Links, in dynamic.go, dynamic_policy.go,
-- dynamic_discovery.go, dynamic_negotiation.go and dynamic_engine.go. All of it runs under one lock, so a call is one step on the state. A time is a
-- number of nanoseconds, and 0 is the zero Time.
pub mod Targets
pub mod Binding
pub mod Table
pub mod Kept
pub mod Spared
pub mod Dialing
pub mod Sending
pub mod Steps
pub mod Attempts
pub mod Outcomes
pub mod Guards
pub mod Backoff
pub mod Dialed
pub mod Sessions
pub mod System
pub mod Visits
pub mod Reach
pub mod Runs
