-- ===== src/Startup.antt =====
-- src/chargepoint/main.cpp and src/launcher/main.cpp: the arguments of the programs, and what they start
-- with.
pub mod Decimal
pub mod Arguments
pub mod Parsing
pub mod Launch
pub mod Settings
pub mod Main
pub mod LauncherMain
pub mod LauncherRuns
