-- ===== src/Orgchart.antt =====
-- internal/orgchart: the tree of workers and what is computed from it.
pub mod ChartFile
pub mod Graph
pub mod Rollup
mod Tests
