-- ===== src/PeersSync.antt =====
-- pkg/mesh/peerssync: the clients and the rules of the other nodes. server.go sends dumps and
-- events, syncer.go applies what a peer sends. The node's own id is `local`; `handle` tells the
-- RemoteClient objects of this syncer from the other routing objects.
pub mod Rules
pub mod Merge
pub mod Agreement
pub mod Tests
use liberator_node_go.Prelude.{
  ℕ, zero, suc, ◌+◌, ◌-◌, ◌*◌, ◌/◌, ◌%◌, ◌^◌, ◌≤◌, ◌<◌, bit_and, bit_or, bit_xor, ◌≡◌, refl, sym,
  ap, subst, ◌∙◌, ◌≢◌, ◌↔◌, ◌⊎◌, inl, inr, Bool, true, false, not, ◌&&◌, ◌||◌, Option, none, some,
  List, [], ◌∷◌, ◌++◌, map, arith, if◌then◌else◌, ltb, leb, ◌==◌, bool_beq, bytes_ltb,
  bytes_ltb_flip, bytes_ltb_irrefl, Bytes, codes, bytes_beq, bytes_beq_iff, keep, length, nat_eq,
  bytes_eq, ==_iff, Bool-cases, Option-cases, In, All,
}
use liberator_node_go.Prelude.Map.{get, put, erase}
use liberator_node_go.RoutingTable.{Route, RecordDump}
use liberator_node_go.Router
use liberator_node_go.Router.{Router, RouterEvent, RouterEventType, client_added, client_removed}

-- proto.ClientInfo
pub record ClientInfo : Type 0 where
  pub node_id : Bytes
  pub virtual_ip : ℕ

-- proto.ClientEventType and proto.ClientEvent
pub data ClientEventType : Type 0 where
  sync_event added_event removed_event : ClientEventType

pub record ClientEvent : Type 0 where
  pub kind : ClientEventType
  pub update : Option ClientInfo
  pub dump : List ClientInfo

-- newRemoteClient
unfoldable pub new_remote_client : ℕ → ℕ → Bytes → Route
new_remote_client handle ip node = record { handle = handle; node_id = node; virtual_ip = ip }

-- addRemoteRoutingObject: an address that is taken is logged only.
unfoldable pub add_remote_object : Bytes → ℕ → ClientInfo → Router → Router
add_remote_object local handle ev r =
    if bytes_beq ev.node_id local
    then r
    else (Router.add_remote_routing_object (new_remote_client handle ev.virtual_ip ev.node_id) r).1

-- deleteRemoteRoutingObject
unfoldable pub delete_remote_object : ClientInfo → Router → Router
delete_remote_object ev r = Router.delete_remote_routing_object ev.virtual_ip r

-- syncPeerObject
unfoldable pub sync_peer_object : Bytes → ℕ → ClientInfo → Router → Router
sync_peer_object local handle ev r = elim (Router.get_remote_routing_object ev.virtual_ip r) [
  | none ↦ add_remote_object local handle ev r
  | some obj ↦
      if bytes_beq obj.node_id local
      then r
      else if bytes_beq obj.node_id ev.node_id
      then r
      else add_remote_object local handle ev (delete_remote_object ev r)
]

-- The first loop of syncClients: the map `alive` and the router.
unfoldable pub merge_clients :
    Bytes → ℕ → Bytes → List ClientInfo → List (ℕ × Bool) × Router → List (ℕ × Bool) × Router
merge_clients local handle peer [] s = s
merge_clients local handle peer (ev ∷ evs) (alive, r) = merge_clients local handle peer evs (
  (if bytes_beq ev.node_id peer then put ev.virtual_ip true alive else alive),
  sync_peer_object local handle ev r,
)

-- The second loop of syncClients, over the dump of the routing table.
unfoldable pub sweep_clients : Bytes → List (ℕ × Bool) → List RecordDump → Router → Router
sweep_clients peer alive [] r = r
sweep_clients peer alive (d ∷ ds) r = sweep_clients peer alive ds (
    if not (bytes_beq d.node_id peer) then r else elim (get d.virtual_ip alive) [
      | some found ↦ r
      | none ↦ Router.delete_remote_routing_object d.virtual_ip r
    ])

-- syncClients
unfoldable pub sync_clients : Bytes → ℕ → Bytes → List ClientInfo → Router → Router
sync_clients local handle peer dump r =
    let (alive, r') = merge_clients local handle peer dump ([], r) in
    sweep_clients peer alive (Router.dump_routing_table r') r'

-- The body of the receive loop of streamPeerData.
unfoldable pub handle_client_event : Bytes → ℕ → Bytes → ClientEvent → Router → Router
handle_client_event local handle peer ev r = elim ev.kind [
  | sync_event ↦ sync_clients local handle peer ev.dump r
  | added_event ↦ elim ev.update [ none ↦ r | some c ↦ add_remote_object local handle c r ]
  | removed_event ↦ elim ev.update [ none ↦ r | some c ↦ delete_remote_object c r ]
]

-- generateRoutingeEvent
unfoldable pub generate_routing_event : RouterEvent → ClientEvent
generate_routing_event update = record {
  kind = elim update.kind [ client_added ↦ added_event | client_removed ↦ removed_event ];
  update = some (record { node_id = update.node_id; virtual_ip = update.virtual_ip });
  dump = [];
}

-- The loop of buildRoutingSyncEvent.
unfoldable pub dump_clients : List RecordDump → List ClientInfo
dump_clients [] = []
dump_clients (p ∷ ps) = record { node_id = p.node_id; virtual_ip = p.virtual_ip } ∷ dump_clients ps

-- buildRoutingSyncEvent
unfoldable pub build_routing_sync_event : Router → ClientEvent
build_routing_sync_event r = record {
  kind = sync_event;
  update = none;
  dump = dump_clients (Router.dump_routing_table r);
}
