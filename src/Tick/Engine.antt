-- ===== src/Tick/Engine.antt =====
-- internal/tick/engine.go: the state, the commands, the loop, and what is proved of them.
pub mod State
pub mod Commands
pub mod Loop
pub mod Minting
pub mod Validity
pub mod Preservation
pub mod Draining
pub mod Outcomes
pub mod Runs
pub mod Names
pub mod Total
pub mod Whole
