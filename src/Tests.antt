-- ===== src/Tests.antt =====
-- Runs of the theorems at concrete inputs, with the test data they use: Server_Core in Channel, Indexes,
-- Threads and Wire, TimeMachineAR in the others.
mod Channel
mod Indexes
mod Threads
mod Wire
mod Client
mod Stream
mod Docent
mod Resolver
mod Route
mod Relocation
mod Destinations
