-- ===== src/PeersSync/Merge.antt =====
-- What syncClients of pkg/mesh/peerssync/syncer.go leaves at each address.
use liberator_node_go.Prelude.{
  ℕ, ◌≡◌, refl, inl, inr, Bool, true, false, ◌||◌, Option, none, some, List, [], ◌∷◌, arith,
  if◌then◌else◌, ◌==◌, Bytes, bytes_beq, nat_eq, bytes_eq, Bool-cases, Option-cases, In,
}
use liberator_node_go.Prelude.Map.{
  get, put, erase, get-put, get-erase, Keys, put-Keys, erase-Keys, In-put, In-erase,
}
use liberator_node_go.RoutingTable
use liberator_node_go.RoutingTable.{Route, RecordDump, Table}
use liberator_node_go.Router.{
  Router, add_remote_routing_object, delete_remote_routing_object, get_remote_routing_object,
}
use liberator_node_go.Router.Mirror.{node_at}
use liberator_node_go.PeersSync.{
  ClientInfo, new_remote_client, add_remote_object, delete_remote_object, sync_peer_object,
  merge_clients,
}

-- A routing table as the node keeps it: a map, in which each object stands at its own address.
abbrev pub IsRouted : Table → Type 0
IsRouted t = Keys t × ((ip : ℕ) (obj : Route) → In (ip, obj) t → ip ≡ obj.virtual_ip)

put-IsRouted : (obj : Route) (t : Table) → IsRouted t → IsRouted (put obj.virtual_ip obj t)
put-IsRouted obj t (k, o) = (
  put-Keys obj.virtual_ip obj t k,
  λ ip x h. ground (arith, In-put obj.virtual_ip ip obj x t h, o ip x),
)

erase-IsRouted : (ip : ℕ) (t : Table) → IsRouted t → IsRouted (erase ip t)
erase-IsRouted ip t (k, o) = (erase-Keys ip t k, λ j x h. o j x (In-erase ip j x t h))

add-IsRouted : (obj : Route) (t : Table) → IsRouted t → IsRouted (RoutingTable.add obj t).1
unfolding RoutingTable.add
add-IsRouted obj t w = elim (Option-cases (get obj.virtual_ip t)) [
  | inl e ↦ rw (e, RoutingTable.add) (put-IsRouted obj t w)
  | inr (x, e) ↦ rw (e, RoutingTable.add) w
]

delete-IsRouted : (ip : ℕ) (t : Table) → IsRouted t → IsRouted (RoutingTable.delete ip t)
unfolding RoutingTable.delete
delete-IsRouted ip t w = elim (Option-cases (get ip t)) [
  | inl e ↦ rw (e, RoutingTable.delete) w
  | inr (x, e) ↦ rw (e, RoutingTable.delete) (erase-IsRouted ip t w)
]

node_at-add :
    (obj : Route) (t : Table) (ip : ℕ)
    → node_at ip (RoutingTable.add obj t).1 ≡ (
        if obj.virtual_ip == ip
        then elim (node_at ip t) [ none ↦ some obj.node_id | some n ↦ some n ]
        else node_at ip t)
unfolding RoutingTable.add
node_at-add obj t ip = elim (Option-cases (get obj.virtual_ip t)) [
  | inl e ↦ ground (arith, get-put obj.virtual_ip ip obj t)
  | inr (x, e) ↦ ground arith
]

pub node_at-delete :
    (j ip : ℕ) (t : Table)
    → node_at ip (RoutingTable.delete j t) ≡ (if j == ip then none else node_at ip t)
unfolding RoutingTable.delete
node_at-delete j ip t = elim (Option-cases (get j t)) [
  | inl e ↦ ground arith
  | inr (x, e) ↦ ground (arith, get-erase j ip t)
]

-- What an entry of a dump makes of the node at its address.
abbrev pub merged : Bytes → Bytes → Option Bytes → Option Bytes
merged local node none = if bytes_beq node local then none else some node
merged local node (some x) =
    if bytes_beq x local
    then some x
    else if bytes_beq x node
    then some x
    else if bytes_beq node local
    then none
    else some node

add_remote-at :
    (local : Bytes) (handle : ℕ) (ev : ClientInfo) (r : Router) (ip : ℕ)
    → node_at ip (add_remote_object local handle ev r).table ≡ (
        if bytes_beq ev.node_id local
        then node_at ip r.table
        else if ev.virtual_ip == ip
        then elim (node_at ip r.table) [ none ↦ some ev.node_id | some n ↦ some n ]
        else node_at ip r.table)
unfolding add_remote_object add_remote_routing_object new_remote_client
add_remote-at local handle ev r ip =
    ground (arith, node_at-add (new_remote_client handle ev.virtual_ip ev.node_id) r.table ip)

add_remote-IsRouted :
    (local : Bytes) (handle : ℕ) (ev : ClientInfo) (r : Router)
    → IsRouted r.table
    → IsRouted (add_remote_object local handle ev r).table
unfolding add_remote_object add_remote_routing_object
add_remote-IsRouted local handle ev r w = elim (Bool-cases (bytes_beq ev.node_id local)) [
  | inl e ↦ rw (e, add_remote_object) w
  | inr e ↦
      rw (e, add_remote_object)
        (add-IsRouted (new_remote_client handle ev.virtual_ip ev.node_id) r.table w)
]

sync_peer-at :
    (local : Bytes) (handle : ℕ) (ev : ClientInfo) (r : Router) (ip : ℕ)
    → node_at ip (sync_peer_object local handle ev r).table ≡ (
        if ev.virtual_ip == ip
        then merged local ev.node_id (node_at ip r.table)
        else node_at ip r.table)
unfolding sync_peer_object get_remote_routing_object RoutingTable.get_by_ip delete_remote_object
    delete_remote_routing_object
sync_peer-at local handle ev r ip = elim (Option-cases (get ev.virtual_ip r.table)) [
  | inl e ↦ ground (arith, add_remote-at local handle ev r ip)
  | inr (x, e) ↦ ground (
    arith,
    add_remote-at local handle ev (delete_remote_object ev r) ip,
    node_at-delete ev.virtual_ip ip r.table,
  )
]

sync_peer-IsRouted :
    (local : Bytes) (handle : ℕ) (ev : ClientInfo) (r : Router)
    → IsRouted r.table
    → IsRouted (sync_peer_object local handle ev r).table
unfolding sync_peer_object get_remote_routing_object RoutingTable.get_by_ip delete_remote_object
    delete_remote_routing_object
sync_peer-IsRouted local handle ev r w = ground (
  arith,
  add_remote-IsRouted local handle ev r w,
  add_remote-IsRouted local handle ev (delete_remote_object ev r)
      (delete-IsRouted ev.virtual_ip r.table w),
)

-- The node that a dump lists at an address.
abbrev pub listed : ℕ → List ClientInfo → Option Bytes
listed ip [] = none
listed ip (ev ∷ evs) = if ev.virtual_ip == ip then some ev.node_id else listed ip evs

-- No address twice.
abbrev pub IsDistinct : List ClientInfo → Type 0
IsDistinct [] = Unit
IsDistinct (ev ∷ evs) = (listed ev.virtual_ip evs ≡ none) × IsDistinct evs

pub merge-at :
    (local : Bytes) (handle : ℕ) (peer : Bytes) (dump : List ClientInfo) (alive : List (ℕ × Bool))
    (r : Router) (ip : ℕ)
    → IsDistinct dump
    → node_at ip (merge_clients local handle peer dump (alive, r)).1.table ≡ elim (listed ip dump) [
      | none ↦ node_at ip r.table
      | some n ↦ merged local n (node_at ip r.table)
    ]
unfolding merge_clients
merge-at local handle peer [] alive r ip d = refl
merge-at local handle peer (ev ∷ evs) alive r ip d = ground (
  arith,
  merge-at local handle peer evs
      (if bytes_beq ev.node_id peer then put ev.virtual_ip true alive else alive)
      (sync_peer_object local handle ev r) ip d.1,
  sync_peer-at local handle ev r ip,
)

pub merge-IsRouted :
    (local : Bytes) (handle : ℕ) (peer : Bytes) (dump : List ClientInfo) (alive : List (ℕ × Bool))
    (r : Router)
    → IsRouted r.table
    → IsRouted (merge_clients local handle peer dump (alive, r)).1.table
unfolding merge_clients
merge-IsRouted local handle peer [] alive r w = w
merge-IsRouted local handle peer (ev ∷ evs) alive r w =
    merge-IsRouted local handle peer evs
      (if bytes_beq ev.node_id peer then put ev.virtual_ip true alive else alive)
      (sync_peer_object local handle ev r) (sync_peer-IsRouted local handle ev r w)

abbrev pub is_alive : ℕ → List (ℕ × Bool) → Bool
is_alive ip alive = elim (get ip alive) [ none ↦ false | some found ↦ true ]

abbrev pub lists : ℕ → Bytes → List ClientInfo → Bool
lists ip node dump = elim (listed ip dump) [ none ↦ false | some n ↦ bytes_beq n node ]

-- The addresses that the merge finds alive are those that the dump lists for the peer.
pub merge-alive :
    (local : Bytes) (handle : ℕ) (peer : Bytes) (dump : List ClientInfo) (alive : List (ℕ × Bool))
    (r : Router) (ip : ℕ)
    → IsDistinct dump
    → is_alive ip (merge_clients local handle peer dump (alive, r)).0
      ≡ (lists ip peer dump || is_alive ip alive)
unfolding merge_clients
merge-alive local handle peer [] alive r ip d = refl
merge-alive local handle peer (ev ∷ evs) alive r ip d = ground (
  arith,
  merge-alive local handle peer evs
      (if bytes_beq ev.node_id peer then put ev.virtual_ip true alive else alive)
      (sync_peer_object local handle ev r) ip d.1,
  get-put ev.virtual_ip ip true alive,
)
