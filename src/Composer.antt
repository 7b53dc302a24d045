-- ===== src/Composer.antt =====
-- internal/composer: verdicts of composite runs, and the shape of their execute graph.
pub mod Aggregate
pub mod Verdicts
pub mod Parent
pub mod Chain
pub mod Graph
pub mod Samples
