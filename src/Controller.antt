-- ===== src/Controller.antt =====
-- The controller, mycelium/internal/controller/krt: the client that it writes with, the loop that
-- its two sinks share, and the two pipelines.
pub mod WellKnown
pub mod Client
pub mod Keys
pub mod Run
pub mod Register
pub mod Start
pub mod Collection
pub mod Sink
pub mod Ecosystem
pub mod Agent
