-- ===== src/Alerter.antt =====
-- The alert engine (alerter/): the rules and incidents it stores, the queries over the metrics,
-- the notifiers, and the evaluation of the rules.
pub mod Config
pub mod Store
pub mod Metrics
pub mod Notifier
pub mod Evaluator
pub mod Process
mod Tests
