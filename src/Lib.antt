-- ===== src/Lib.antt =====
-- ProxyNodeAssistant: a program that installs and maintains proxy nodes on servers over SSH. It sends
-- commands to the scripts of its toolkit on the server, reads their marked answers, and decides by
-- them what may be done next. This library models the decisions of the Go program, file by file.
--
-- How the parts meet. A handler (install_transaction.go, cdn_reset.go) does events, which are commands
-- on the server, questions to the operator and requests to the network, and judges the answers. The
-- answers are read by the parsers of parsers.go and security.go; an installation plan (install_plan.go)
-- says which route a handler sets up; deployment.go says which states the route switch may pass. The
-- questions of install_flow.go make the plan that an installation follows. The topology plan of
-- topology.go is asked of the operator, stored on the server and read back. A node whose server gets a
-- new address is rebound by ip_rebind.go: its identity and its preflight are read by the parsers, and
-- only then the server and the local key are changed.
--
-- The files:
-- - Prelude: the names of the libraries, Boolean tests, lists measured by native numbers, and the
--   result of a function that returns a value and an error.
-- - Text: Go's strings as lists of code points, and what the program uses of strings, strconv,
--   unicode, sort and maps. Invalid UTF-8 is not modelled. bufio.Scanner's bound on a line is not
--   modelled either.
-- - Effects: process.go's ProcessResult, and handlers. A handler takes the log of the events so far
--   and returns its result and the longer log. What the outside answers is a function of the whole
--   log, so a theorem on a handler holds for every behaviour of the outside.
-- - Transaction: install_transaction.go. Each `App` method is the function of its name. Printed lines
--   are left out.
-- - CdnRoute: cdn_reset.go. Checks is validateCDNEdgeResponse, firstVLESSLink and validateCDNShareLink,
--   Command the paths and command texts, Reconcile prepareCDNPrerequisites and reconcileCDNRoute with
--   its closure `rollback` and its deferred removal of the input. cdnRequestClientProof is one event.
-- - Plan: install_plan.go, with the validators of operations.go in Plan.Identity.
-- - Protocol: parsers.go: stripANSI, extractMarkedBlock and its variant with the former markers,
--   parseKV, parseCredentialReadiness, parseDiagnosticProtocol, parsePanelMetadata, parseRunStatus.
-- - Toolkit: parsers.go: compareToolkitVersions, parseToolkitProbe, classifyToolkit and the rules for
--   a toolkit of the same version.
-- - Deployment: the modes and states of deployment.go and canTransitionDeploymentState.
-- - Recent: recent_targets.go, with its two files as texts that may be missing.
-- - Security: parseSecurityReport of security.go.
-- - Dns: dns_probe.go, where the goroutines' observations arrive as a list in any order.
-- - Handoff: handoff_normalize.go; Fallbacks is mergeHandoffProtocolFallbacks of deployment.go.
-- - Console: prompt, required and yes of main.go. The input is its lines; it is closed after the last.
-- - Topology: topology.go: the plan, topologyPlanBody and loadExistingTopologyPlan; Choose is
--   chooseTopologyPlan, Server persistTopologyPlan and reconcileTopologyPlan.
-- - Traffic: traffic.go: the store of profiles and the cache of snapshots; Period is trafficPeriod with
--   its dates, and parseVnStatTraffic on the days that encoding/json has read.
-- - Identity: canonicalPublicIPv4 of ip_rebind.go; Node is parseNodeIdentity of node_identity.go, and
--   parseIPRebindPreflight and verifyStableIdentity of ip_rebind.go.
-- - InstallFlow: install_flow.go: the loops of the questions; Credentials is promptMatchingSecret,
--   chooseCredentialPlan and main.go's secretPromptExact, Collect collectInstallPlan and
--   confirmInstallPlan, Detect parseExistingSS2022Port and the marker of existingNodeInstalled.
-- - Rebind: ip_rebind.go: Handler is rebindPublicIP from the chosen key on, with fetchNodeIdentity of
--   node_identity.go and runtimePublicEnv of operations.go. stageReboundConnection, installPublicKey,
--   ensureToolkit and commitLocalReboundKey are one event each.
-- - Examples: every theorem of the list below on a concrete input.
--
-- Bounds and termination. Most loops run over a list and end with it. The loop of dns_probe.go counts
-- down from the three goroutines. The loop of chooseTopologyPlan has the number of the input's lines
-- and one more as its fuel, since each round reads a line or finds the input closed; the theorem on it
-- says that the fuel is enough. The loop that waits for the DNS in rebindPublicIP reads a line in each
-- round. A day beyond its month is carried at most as often as it has days. Go's int and the numbers
-- of strconv are 64 bits wide; every number that is read is bounded far below that before it is used,
-- and the sums of vnStat's counters wrap as Go's uint64 does. The dates are those from year 1 on, with
-- months from 1 to 12.
--
-- Parameters, for code that is not in this repository: net/mail's ParseAddress, net's ParseIP in
-- security.go and deployment.go, net/url's Parse, the instants of time's Parse and Format. The
-- theorems hold for every such function.
--
-- Not modelled: SSH and process execution, menus and printed text, the file system's failures, HTTP
-- clients, credentials and the clipboard of the platforms, the providers' JSON of traffic.go, the
-- waiting loops of topology.go, the links of cdn_xhttp_compat.go, migration, dismantling receipts, the
-- remote steps of install_flow.go, the clients in C#, Kotlin and Swift, and the shell scripts.
pub mod Prelude
pub mod Text
pub mod Protocol
pub mod Toolkit
pub mod Deployment
pub mod Plan
pub mod Effects
pub mod Transaction
pub mod Console
pub mod Topology
pub mod Traffic
pub mod Identity
pub mod InstallFlow
pub mod Rebind
pub mod Recent
pub mod CdnRoute
pub mod Security
pub mod Dns
pub mod Handoff
pub mod Examples
