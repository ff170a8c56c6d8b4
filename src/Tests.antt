-- ===== src/Tests.antt =====
-- Concrete runs of the models, and each property at a concrete input.
mod Data
mod Models
mod Assertions
mod Collector
mod Batch
mod JobStore
mod Worker
mod Usage
mod NewApi
mod NewApiTurn
mod Client
mod Proxy
mod Catalog
