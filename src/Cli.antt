-- ===== src/Cli.antt =====
-- crates/openlink-cli: the arguments of a message on the command line.
pub mod Argument
