-- ===== src/PeersManager/Tests.antt =====
-- The peers manager of a node, over the router and a small AmneziaWG transport.
use liberator_node_go.Prelude.{
  ◌+◌, ◌*◌, ◌%◌, ◌^◌, ◌≡◌, refl, subst, ◌⊎◌, true, false, Option, some, [], ◌∷◌, arith, Bytes,
  codes, nat_eq, bytes_eq,
}
use liberator_node_go.Prelude.Map.{get, put, erase}
use liberator_node_go.Router.{Router}
use liberator_node_go.FirewallManager.Engine.{router_operations}
use liberator_node_go.FirewallManager.Tests.{
  node, peer_row, manager, laws, empty-IsDatabase, empty-IsManager, empty-Backed, empty-Published,
}
use liberator_node_go.PeersManager.{
  Peer, PeersManager, Transport, peer_from_row, is_expired, sync_rows, sync_peers,
  create_peer_auto_id, delete_peer,
}
use liberator_node_go.PeersManager.Laws.{Laws, Has}
use liberator_node_go.PeersManager.Attached.{IsWelcome, sync_peers-Attached}
use liberator_node_go.PeersManager.Created.{CreateOutcome, create_peer_auto_id-CreateOutcome}
use liberator_node_go.PeersManager.Deleted.{IsSynced, IsGone, delete_peer-IsGone}
use liberator_node_go.RoutingTable.{add, delete, get_by_ip}
use liberator_node_go.Router.{add_routing_object, delete_routing_object, notify_routing_event}
use liberator_node_go.Awg.{
  Awg, create_peer, kick_peer, remove_peer_internal, attach, ipc_set, new_object,
}
use liberator_node_go.Awg.Interface.{ValidAwg, awg_operations, awg_laws}
use liberator_node_go.Awg.Tests.{transport, transport-IsAwg, new_peer}

abbrev link : Peer → Bytes → Bytes → Awg → Option Bytes
link p addr name t = some addr

abbrev keys : Peer → Awg → Option Peer
keys p t = some (record p { awg_private_key = codes "a"; awg_public_key = codes "b" })

abbrev ops : Transport ValidAwg
ops = awg_operations (λ c. true) (λ f. 1048576) (λ f. 1073741824) 50 link keys

ops-Laws : Laws ops
ops-Laws = awg_laws (λ c. true) (λ f. 1048576) (λ f. 1073741824) 50 link keys

abbrev peers_manager : PeersManager Router ValidAwg
peers_manager = record {
  starting_ip = 10 * 2 ^ 24 + 1;
  rules = manager [] 1;
  transports = (codes "awg", (transport, transport-IsAwg)) ∷ [];
}

-- The transport has the peer of the database already, and would take it again.
accepts :
    (create_peer
      (λ c. true)
      (λ f. 1048576)
      (λ f. 1073741824)
      50
      (peer_from_row peer_row)
      transport).0
    ≡ true
unfolding peer_from_row get put erase create_peer kick_peer remove_peer_internal attach ipc_set
    new_object add_routing_object delete_routing_object notify_routing_event add delete get_by_ip
accepts = refl

welcome :
    IsWelcome ops ops-Laws 60
      (peer_from_row peer_row)
      (sync_rows ops 60 [] peers_manager.transports)
unfolding peer_from_row is_expired get awg_operations sync_rows
welcome = (
  refl,
  λ e. ground arith,
  λ t g.
      let e : (transport, transport-IsAwg) ≡ t = cc g in
      subst (λ u. (ops.create_peer (peer_from_row peer_row) u).0 ≡ true) e accepts,
)

sync_peers-Attached_example :
    Has ops peer_row.kind
      (peer_row.virtual_ip % 2 ^ 32)
      (sync_peers router_operations ops true 60 peers_manager).1.transports
sync_peers-Attached_example =
    sync_peers-Attached router_operations ops ops-Laws 60 peers_manager [] [] peer_row refl welcome

create_peer_auto_id-CreateOutcome_example :
    CreateOutcome router_operations ops ops-Laws peers_manager new_peer.kind
      (create_peer_auto_id router_operations ops true true true 60 new_peer peers_manager)
create_peer_auto_id-CreateOutcome_example =
    create_peer_auto_id-CreateOutcome router_operations ops ops-Laws true true true 60 new_peer
      peers_manager empty-IsDatabase (omega arith, λ q i. ground arith)

delete_peer-IsGone_example :
    let (ok, m') = delete_peer router_operations ops true true true true 1 peers_manager in
    IsSynced router_operations node laws ops ops-Laws m'.rules
    × ((ok ≡ false) ⊎ IsGone router_operations node laws ops ops-Laws 1 peers_manager m')
delete_peer-IsGone_example =
    delete_peer-IsGone router_operations node laws ops ops-Laws true true true 1 peers_manager
      empty-IsManager (empty-Backed, empty-Published)
