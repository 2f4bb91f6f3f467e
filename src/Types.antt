-- ===== src/Types.antt =====
-- The data of ui/src/types/pipeline.ts: the Pipeline resource, its status, and the graph that the
-- views draw. Optional fields are `Option`, and `Record<string, string>` is a list of entries in
-- insertion order. Counts, seconds, modes, ids and coordinates are natural numbers.
pub mod Pod
pub mod Affinity
pub mod Pipeline
pub mod Status
pub mod Graph
