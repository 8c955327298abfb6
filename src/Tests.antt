-- ===== src/Tests.antt =====
-- Runs of the models on concrete data, and the theorems at concrete inputs that meet their conditions.
mod Samples
mod Clock
mod Heap
mod Queue
mod State
mod Base
mod Locks
mod DroneRuns
mod Web
mod Systems
mod Nets
mod Runs
mod Brokers
mod Sensors
