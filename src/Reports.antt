-- ===== src/Reports.antt =====
-- reports/: the periods that a report covers.
pub mod Periods
mod Tests
