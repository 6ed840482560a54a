-- ===== src/CdnRoute.antt =====
-- cdn_reset.go: the only change of the CDN route. Checks judges what the network and the server
-- answer, Command builds the commands, Reconcile is the handler.
pub mod Checks
pub mod Command
pub mod Reconcile
