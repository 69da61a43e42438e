-- ===== src/Diagnostics.antt =====
-- src/relinker/internal/policy_diagnostics.py and the reports of diagnostics.py: advice on a policy.
pub mod Stops
pub mod Delays
pub mod Conditions
pub mod Warnings
pub mod Health
