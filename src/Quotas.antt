-- ===== src/Quotas.antt =====
-- quotas/service.py: the periods of the quotas, the quota that applies, and why a job is held.
pub mod Periods
pub mod Midnights
pub mod DayWindows
pub mod Windows
pub mod Effective
pub mod Hold
pub mod Decision
pub mod Answers
pub mod Budget
pub mod Modes
mod Tests
