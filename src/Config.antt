-- ===== src/Config.antt =====
-- watchpost/config.py: the monitoring estate and its validation.
pub mod Credentials
pub mod Kinds
pub mod Modes
pub mod Types
pub mod Slug
pub mod Graph
pub mod Colouring
pub mod Parents
pub mod Sound
pub mod Rounds
pub mod References
pub mod Resolve
pub mod Valid
