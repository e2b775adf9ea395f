-- ===== src/Cli.antt =====
-- __main__.py: the commands.
pub mod Loader
pub mod Atomic
pub mod Commands
pub mod Seed
pub mod Skillscan
