-- ===== src/Toolkit.antt =====
-- parsers.go: the version and the build of the toolkit on the server, against those of the program.
pub mod Version
pub mod Probe
pub mod Policy
