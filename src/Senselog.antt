-- ===== src/Senselog.antt =====
-- internal/senselog: named drops, suppression episodes, and the grammar of a log line.
pub mod Streak
pub mod Line
