-- ===== src/Cli.antt =====
-- internal/cli: the command line of outage.
pub mod Result
pub mod Number
pub mod Options
pub mod Groups
pub mod Datetime
pub mod Conditions
pub mod Plans
