-- ===== src/PeersSync/Tests.antt =====
-- A node that takes the clients and the rules of a peer.
use liberator_node_go.Prelude.{
  ◌≡◌, refl, ◌≢◌, ◌↔◌, ◌⊎◌, none, some, List, [], ◌∷◌, arith, Bytes, codes, length, nat_eq,
  bytes_eq,
}
use liberator_node_go.Prelude.Map.{get}
use liberator_node_go.Firewall
use liberator_node_go.Firewall.Types.{PortRuleIndex, PortRule}
use liberator_node_go.Firewall.Registry.{IsNumbered, Stored, Holds}
use liberator_node_go.Firewall.History.{run-new-IsGood, run}
use liberator_node_go.RoutingTable.{Table}
use liberator_node_go.Router.{Router}
use liberator_node_go.Router.Mirror.{node_at}
use liberator_node_go.PeersSync.{
  ClientInfo, sync_clients, handle_client_event, build_routing_sync_event,
}
use liberator_node_go.PeersSync.Merge.{IsRouted, listed, IsDistinct}
use liberator_node_go.PeersSync.Agreement.{expected, sync_clients_lem, sync-build}
use liberator_node_go.PeersSync.Rules.{ClientRule, sync_rules}
use liberator_node_go.PeersSync.Rules.Owner.{HasRoomFor, Offered}
use liberator_node_go.PeersSync.Rules.Contents.{Copied, sync_rules-others}

abbrev local : Bytes
local = codes "node-a"

abbrev peer : Bytes
peer = codes "node-b"

abbrev third : Bytes
third = codes "node-c"

peer-local : peer ≢ local
peer-local e = ground arith

-- Node A has a client of its own at address 1 and an old entry of node B at address 2.
abbrev table_a : Table
table_a =
    (1, record { handle = 1; node_id = local; virtual_ip = 1 })
    ∷ (2, record { handle = 2; node_id = peer; virtual_ip = 2 })
    ∷ []

-- Node B has clients at the addresses 1 and 3.
abbrev table_b : Table
table_b =
    (1, record { handle = 3; node_id = peer; virtual_ip = 1 })
    ∷ (3, record { handle = 4; node_id = peer; virtual_ip = 3 })
    ∷ []

abbrev node_a : Router
node_a = record { table = table_a; firewall = Firewall.new; routing_subs = []; firewall_subs = [] }

abbrev node_b : Router
node_b = record { table = table_b; firewall = Firewall.new; routing_subs = []; firewall_subs = [] }

table_a-IsRouted : IsRouted node_a.table
unfolding get
table_a-IsRouted = ((refl, (refl, tt)), λ ip obj h. ground arith)

table_b-IsRouted : IsRouted node_b.table
unfolding get
table_b-IsRouted = ((refl, (refl, tt)), λ ip obj h. ground arith)

sync-build_example :
    (node_at 3 (handle_client_event local 9 peer (build_routing_sync_event node_b) node_a).table
      ≡ some peer)
    ↔ ((node_at 3 node_b.table ≡ some peer) × (node_at 3 node_a.table ≢ some local))
sync-build_example =
    sync-build local 9 peer node_b node_a 3 peer-local table_b-IsRouted table_a-IsRouted

abbrev clients : List ClientInfo
clients =
    record { node_id = peer; virtual_ip = 1 }
    ∷ record { node_id = local; virtual_ip = 4 }
    ∷ record { node_id = third; virtual_ip = 5 }
    ∷ []

clients-IsDistinct : IsDistinct clients
clients-IsDistinct = (refl, (refl, (refl, tt)))

sync_clients_lem_example :
    node_at 2 (sync_clients local 9 peer clients node_a).table
    ≡ expected local peer (listed 2 clients) (node_at 2 node_a.table)
sync_clients_lem_example =
    sync_clients_lem local 9 peer clients node_a 2 peer-local table_a-IsRouted clients-IsDistinct

abbrev rules : List ClientRule
rules =
    record {
      node_id = third;
      id = 5;
      addr = 1;
      target_addr = none;
      protocol = codes "tcp";
      port_range_start = 80;
      port_range_end = none;
    }
    ∷ []

abbrev started : Router
started = record node_a { firewall = run Firewall.new [] }

started-IsNumbered : IsNumbered started.firewall
started-IsNumbered = (run-new-IsGood [] (omega arith)).numbered

started_room : HasRoomFor (length rules) started.firewall
unfolding run Firewall.new
started_room = omega arith

sync_rules-others_example :
    let fw' = (sync_rules local peer rules started).firewall in
    ((j : PortRuleIndex)
      → j.node_id ≢ peer
      → Stored j fw' ↔ (Stored j started.firewall ⊎ Offered local rules j))
    × ((q : PortRule)
        → q.index.node_id ≢ peer
        → (Holds q started.firewall → Holds q fw')
          × (Holds q fw' → Holds q started.firewall ⊎ Copied local rules q))
sync_rules-others_example =
    sync_rules-others local peer rules started started-IsNumbered started_room
