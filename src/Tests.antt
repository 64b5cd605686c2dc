-- ===== src/Tests.antt =====
-- The theorems at concrete inputs, and small runs of the models.
mod Gates
mod Caches
mod Databases
mod Networks
mod Settings
mod Blobs
mod Monitors
mod Managers
mod Lifecycles
mod Recoveries
mod Executors
mod Commands
mod Frames
mod Diagnoses
