-- ===== src/Samples.antt =====
-- Runs of the code on concrete inputs, and each theorem at one of them.
mod Data
mod Naming
mod Caching
mod Connecting
mod Publishing
mod Consuming
mod Tracking
mod Replicas
mod Closing
mod Running
mod Crossing
mod Pooling
mod Recovering
