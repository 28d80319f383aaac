-- ===== src/Adaptor.antt =====
-- internal/adaptor: the vocabulary of one robot.
pub mod Trajectory
pub mod Vocabulary
