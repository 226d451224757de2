-- ===== src/Tests.antt =====
-- The model run on concrete data, and the theorems applied to it.
mod OfNode
mod OfArena
mod OfCollector
mod OfSetCache
mod OfCheckCache
mod OfEmbedder
mod OfQueue
mod OfCache
mod OfProcess
