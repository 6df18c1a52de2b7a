-- ===== src/Sandbox.antt =====
-- The package pkg/sandbox.
pub mod Client
pub mod Provision
pub mod Warmpool
pub mod FilePath
pub mod Machine
pub mod Runner
pub mod Hiding
pub mod Working
pub mod Reporting
pub mod Delivery
pub mod Exiting
pub mod Publishing
pub mod Waiting
pub mod Handler
pub mod Accepting
pub mod Racing
pub mod AcceptExamples
pub mod RunnerExamples
pub mod ExitExamples
pub mod RacingExamples
pub mod Settling
pub mod Calls
pub mod Examples
