-- ===== src/Lib.antt =====
-- The control plane of a liberator node: a VPN node that joins a mesh of nodes, forwards packets
-- between their clients, and lets through what firewall rules and open conversations permit.
--
-- Each file names the code that it is about by its path from the repository's root.
-- Prelude holds numbers, lists, byte strings, bit operations and maps as association lists; a
-- range over a Go map visits the list in order, and the theorems hold for every such list.
-- Dgmessage models internal/utils/dgmessage: NewMessageCopyFrom is new_message_copy_from. A slice
-- out of range is the outcome panic.
-- Firewall models pkg/firewall: firewallEngineImpl is the record Firewall, and AddRule, RemoveRule,
-- ExistsRule, DumpRules, RuleCheck and Holepunch are add_rule, remove_rule, exists_rule, dump_rules,
-- rule_check and holepunch; Keys has makeGlobalKey and makeFlowKey. Each method is one step, also
-- where it takes a lock twice; the clock is an argument. The 16-bit counter of short ids wraps, so
-- what needs distinct ids is stated for fewer than 2 ^ 16 calls.
-- Topology models pkg/mesh/topology/memory.go: inMemoryState is State, InsertMerge is insert_merge.
-- Session models pkg/mesh/session/registry.go: sessionRegistry is Registry; a connection is a
-- number, and the closed ones are part of the state.
-- Discovery models pkg/mesh/discovery over Topology and Session: refreshPeers is refresh_peers, the
-- body of streamDiscoveryData is handle_peer_event. A dial that is started is an address in the
-- result.
-- RoutingTable models pkg/routingtable: table.go, and in RoutingTable/Shaped the ShapedRoute of
-- shaped.go. Netutils models the networks of internal/utils/netutils.
-- Router models pkg/router over RoutingTable and Firewall: the events of local changes, the egress
-- filter (Egress), the choice of a worker (Sharding), and in Router/Packets the handlers of packets:
-- handleTransportPacketInternal is handle_transport_packet. A subscriber is a channel of 200 places,
-- and what does not fit is dropped.
-- PeersSync models pkg/mesh/peerssync over Router: syncClients is sync_clients, syncRules in
-- PeersSync/Rules is sync_rules, and the server's dumps are build_routing_sync_event and
-- build_firewall_sync_event.
-- IpAlloc models internal/utils/ipalloc: Get is get_ip. Its loop over new addresses has one turn of
-- fuel for each address that is left, which is enough for it to end by itself.
--
-- Database models internal/infra/repos: each query is what its SQL does to the tables peers and
-- peers_rules, with the constraints of sqlc/migrations/001_database.sql.
-- FirewallManager models pkg/services/firewallmanager over Database and over any firewall that keeps
-- the laws of FirewallManager/Laws, which the router does (FirewallManager/Engine). PeersManager
-- models pkg/services/peersmanager over FirewallManager and over any transport that keeps the laws of
-- PeersManager/Laws, which the AmneziaWG transport does (Awg/Interface). Which queries fail is an
-- argument of each method.
-- Awg models pkg/transport/awg: AWGTransport is Awg, CreatePeer is create_peer, watchPeers is
-- watch_peers; peers are objects with handles, which the maps and the routing table point to.
-- Auth models the authentication of pkg/api/controllers, Topology/Disk the file of
-- pkg/mesh/topology/disk.go.
--
-- Integers are natural numbers with the wrap-around of their width written out. Times are natural
-- numbers of nanoseconds. Not modelled: sockets, QUIC, gRPC streams and their handlers, the device of
-- WireGuard, the network interface, system calls, generated code of gRPC, logging, start-up, and
-- goroutine scheduling inside a method. Parameters of the model are the rate limiter, what sending to
-- an object answers, the parser of tokens, the encoder of JSON, the answers of the file system, the
-- device of the transport, and the conversions from floating point.
pub mod Prelude
pub mod Dgmessage
pub mod Firewall
pub mod Topology
pub mod Session
pub mod Discovery
pub mod Netutils
pub mod RoutingTable
pub mod Router
pub mod PeersSync
pub mod IpAlloc
pub mod Database
pub mod FirewallManager
pub mod PeersManager
pub mod Awg
pub mod Auth
