-- ===== src/Cli.antt =====
-- app/main.cpp: the command line.
pub mod Hex
pub mod Command
