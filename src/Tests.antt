-- ===== src/Tests.antt =====
-- Concrete machinery, a concrete server, and theorems and functions at concrete inputs.
mod Samples
mod Copying
mod Admitting
mod Writing
mod Starting
mod Building
mod Sending
mod Parsing
mod Running
