-- ===== src/Models.antt =====
-- stonefold_core/enums.py, models.py, gating.py and the value types of obligation.py and policy.py.
pub mod Enums
pub mod Records
