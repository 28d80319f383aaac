-- ===== src/Rules.antt =====
-- internal/rules: the rules of a robot, the documents that declare them, and their layers.
pub mod Model
pub mod Document
pub mod Validate
pub mod Names
pub mod Load
