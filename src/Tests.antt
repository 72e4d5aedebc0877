-- ===== src/Tests.antt =====
-- Runs of the theorems at concrete inputs.
mod Exports
mod Screens
mod Tools
mod Histories
mod Failures
mod Discoveries
mod Samples
mod Readers
mod Devices
mod Detectors
mod Pipelines
mod Packets
mod Tables
mod Persistence
mod Interface
mod Backends
