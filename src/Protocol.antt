-- ===== src/Protocol.antt =====
-- parsers.go: the line-oriented protocol between the program and the scripts on the server.
pub mod Ansi
pub mod Marker
pub mod Panel
pub mod KeyValue
pub mod Readiness
pub mod Diagnostic
