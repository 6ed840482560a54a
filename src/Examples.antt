-- ===== src/Examples.antt =====
-- The theorems on concrete inputs.
pub mod Deployments
pub mod Handoffs
pub mod Identities
pub mod InstallFlows
pub mod Lists
pub mod Plans
pub mod Protocols
pub mod Rebindings
pub mod Route
pub mod Toolkits
pub mod Transactions
pub mod Topologies
pub mod Traffics
