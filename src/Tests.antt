-- ===== src/Tests.antt =====
-- The theorems at concrete policies, exceptions and worlds.
mod Samples
mod Executions
mod Policies
mod Advice
mod Http
mod Asynchronous
mod Serialized
