-- ===== src/Generator.antt =====
-- services/event-generator: the synthetic event generator.
pub mod Config
pub mod Scenario
pub mod Sink
pub mod Events
pub mod Draws
mod Promises
pub mod Requests
pub mod Records
pub mod Run
mod Targets
pub mod Command
mod Kept
mod Counts
mod Shape
mod Totals
mod Complete
mod Success
mod Finish
mod Written
mod Delivered
mod RunTests
mod CommandTests
pub mod Rates
pub mod Delivery
mod Tests
