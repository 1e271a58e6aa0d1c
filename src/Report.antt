-- ===== src/Report.antt =====
-- pkg/reporting: what a report is, and how the reports of many scopes become one.
pub mod Floats
pub mod Sets
pub mod Model
pub mod Policy
pub mod Scope
pub mod Status
pub mod Kpis
pub mod Headline
pub mod Contributors
pub mod Aggregate
pub mod Events
pub mod Plan
pub mod Words
pub mod Checks
pub mod Core
pub mod Refs
pub mod Instances
pub mod Extends
mod Tests
