-- ===== src/Engine.antt =====
-- internal/vfp/engine/engine.go: one VFP session.
pub mod State
pub mod Link
pub mod Session
pub mod Run
pub mod Negotiation
pub mod Handled
pub mod Rounds
pub mod Safety
pub mod Exchange
pub mod Agreement
pub mod Offer
pub mod Runs
