-- ===== src/PeersSync/Agreement.antt =====
-- Two nodes of pkg/mesh/peerssync agree on the clients of the one after the other takes its dump.
use liberator_node_go.Prelude.{
  ℕ, ◌≡◌, refl, ◌≢◌, ◌↔◌, inl, inr, Bool, false, not, ◌&&◌, ◌||◌, Option, none, some, List, [], ◌∷◌,
  arith, if◌then◌else◌, ◌==◌, Bytes, bytes_beq, bytes_beq_iff, nat_eq, bytes_eq, In,
}
use liberator_node_go.Prelude.Map.{get}
use liberator_node_go.RoutingTable
use liberator_node_go.RoutingTable.{Route, RecordDump, Table, dump, dump_record}
use liberator_node_go.Router
use liberator_node_go.Router.{
  Router, add_remote_routing_object, delete_remote_routing_object, get_remote_routing_object,
}
use liberator_node_go.Router.Mirror.{node_at}
use liberator_node_go.PeersSync.{
  ClientInfo, merge_clients, sweep_clients, sync_clients, handle_client_event, dump_clients,
  build_routing_sync_event,
}
use liberator_node_go.PeersSync.Merge.{
  IsRouted, node_at-delete, merged, listed, IsDistinct, merge-at, merge-IsRouted, is_alive,
  merge-alive,
}

-- Some record of a dump of the table is swept at this address.
abbrev swept : ℕ → Bytes → List (ℕ × Bool) → List RecordDump → Bool
swept ip peer alive [] = false
swept ip peer alive (d ∷ ds) =
    (d.virtual_ip == ip && bytes_beq d.node_id peer && not (is_alive ip alive))
    || swept ip peer alive ds

sweep-at :
    (peer : Bytes) (alive : List (ℕ × Bool)) (ds : List RecordDump) (r : Router) (ip : ℕ)
    → node_at ip (sweep_clients peer alive ds r).table
      ≡ (if swept ip peer alive ds then none else node_at ip r.table)
unfolding sweep_clients delete_remote_routing_object
sweep-at peer alive [] r ip = refl
sweep-at peer alive (d ∷ ds) r ip = ground (
  arith,
  sweep-at peer alive ds
      (if not (bytes_beq d.node_id peer) then r else elim (get d.virtual_ip alive) [
        | some found ↦ r
        | none ↦ Router.delete_remote_routing_object d.virtual_ip r
      ])
      ip,
  node_at-delete d.virtual_ip ip r.table,
)

abbrev is_node : Bytes → Option Bytes → Bool
is_node peer none = false
is_node peer (some n) = bytes_beq n peer

abbrev OwnPlaces : Table → Type 0
OwnPlaces t = (ip : ℕ) (obj : Route) → In (ip, obj) t → ip ≡ obj.virtual_ip

swept-none :
    (ip : ℕ) (peer : Bytes) (alive : List (ℕ × Bool)) (t : Table)
    → OwnPlaces t
    → get ip t ≡ none
    → swept ip peer alive (dump t) ≡ false
unfolding dump dump_record get
swept-none ip peer alive [] o e = refl
swept-none ip peer alive ((j, obj) ∷ t) o e =
    ground (arith, o j obj (inl refl), swept-none ip peer alive t (λ i x h. o i x (inr h)))

swept-dump :
    (ip : ℕ) (peer : Bytes) (alive : List (ℕ × Bool)) (t : Table)
    → IsRouted t
    → swept ip peer alive (dump t) ≡ (is_node peer (node_at ip t) && not (is_alive ip alive))
unfolding dump dump_record get
swept-dump ip peer alive [] w = refl
swept-dump ip peer alive ((j, obj) ∷ t) ((k, ks), o) =
    let rest : OwnPlaces t = λ i x h. o i x (inr h) in
    ground (
      arith,
      o j obj (inl refl),
      swept-none ip peer alive t rest,
      swept-dump ip peer alive t (ks, rest),
    )

-- What a dump of the peer leaves at an address, from the node the dump lists there and the node
-- that was there.
abbrev pub expected : Bytes → Bytes → Option Bytes → Option Bytes → Option Bytes
expected local peer none none = none
expected local peer none (some x) = if bytes_beq x peer then none else some x
expected local peer (some n) none = if bytes_beq n local then none else some n
expected local peer (some n) (some x) =
    if bytes_beq x local then some x else if bytes_beq n local then none else some n

none_alive : (ip : ℕ) → is_alive ip [] ≡ false
unfolding get
none_alive ip = refl

abbrev merge_listed : Bytes → Option Bytes → Option Bytes → Option Bytes
merge_listed local none x = x
merge_listed local (some n) x = merged local n x

expected_lem :
    (local peer : Bytes) (d x : Option Bytes)
    → peer ≢ local
    → (if is_node peer (merge_listed local d x) && not (is_node peer d)
        then none
        else merge_listed local d x)
      ≡ expected local peer d x
expected_lem local peer none none ne = refl
expected_lem local peer none (some x) ne = ground arith
expected_lem local peer (some n) none ne = ground (arith, bytes_beq_iff n local)
expected_lem local peer (some n) (some x) ne = ground (
  arith,
  bytes_beq_iff x local,
  bytes_beq_iff n local,
  bytes_beq_iff x n,
  bytes_beq_iff x peer,
  bytes_beq_iff n peer,
)

-- After a dump of `peer`, which lists no address twice, every address of a routing table that is
-- a map by address holds the expected node: the clients of this node itself stay and no dump
-- adds one, a client of the peer that the dump does not list goes, the clients of third nodes
-- that the dump does not list stay, and a listed node replaces any other; `peer` is not this node.
pub sync_clients_lem :
    (local : Bytes) (handle : ℕ) (peer : Bytes) (clients : List ClientInfo) (r : Router) (ip : ℕ)
    → peer ≢ local
    → IsRouted r.table
    → IsDistinct clients
    → node_at ip (sync_clients local handle peer clients r).table
      ≡ expected local peer (listed ip clients) (node_at ip r.table)
unfolding sync_clients Router.dump_routing_table
sync_clients_lem local handle peer clients r ip ne w d =
    let s : List (ℕ × Bool) × Router = merge_clients local handle peer clients ([], r) in
    ground (
      arith,
      sweep-at peer s.0 (RoutingTable.dump s.1.table) s.1 ip,
      swept-dump ip peer s.0 s.1.table (merge-IsRouted local handle peer clients [] r w),
      merge-alive local handle peer clients [] r ip d,
      merge-at local handle peer clients [] r ip d,
      none_alive ip,
      expected_lem local peer (listed ip clients) (node_at ip r.table) ne,
    )

listed-dump : (ip : ℕ) (t : Table) → IsRouted t → listed ip (dump_clients (dump t)) ≡ node_at ip t
unfolding dump dump_record dump_clients get
listed-dump ip [] w = refl
listed-dump ip ((j, obj) ∷ t) ((k, ks), o) =
    let rest : OwnPlaces t = λ i x h. o i x (inr h) in
    ground (arith, o j obj (inl refl), listed-dump ip t (ks, rest))

dump-IsDistinct : (t : Table) → IsRouted t → IsDistinct (dump_clients (dump t))
unfolding dump dump_record dump_clients
dump-IsDistinct [] w = tt
dump-IsDistinct ((j, obj) ∷ t) ((k, ks), o) =
    let rest : OwnPlaces t = λ i x h. o i x (inr h) in
    let own : j ≡ obj.virtual_ip = o j obj (inl refl) in
    (ground (arith, listed-dump obj.virtual_ip t (ks, rest)), dump-IsDistinct t (ks, rest))

expected_own :
    (local peer : Bytes) (d x : Option Bytes)
    → peer ≢ local
    → (expected local peer d x ≡ some peer) ↔ ((d ≡ some peer) × (x ≢ some local))
expected_own local peer none none ne = ground arith
expected_own local peer none (some x) ne = ground (arith, bytes_beq_iff x peer)
expected_own local peer (some n) none ne = ground (arith, bytes_beq_iff n local)
expected_own local peer (some n) (some x) ne =
    ground (arith, bytes_beq_iff x local, bytes_beq_iff n local)

-- After node `local` takes the sync event that node `peer` built, its table has a client of
-- `peer` at an address exactly if the table of `peer` has one of its own there and `local` had
-- no client of its own there; both tables are maps by address and the nodes are two.
pub sync-build :
    (local : Bytes) (handle : ℕ) (peer : Bytes) (a b : Router) (ip : ℕ)
    → peer ≢ local
    → IsRouted a.table
    → IsRouted b.table
    → (node_at ip (handle_client_event local handle peer (build_routing_sync_event a) b).table
        ≡ some peer)
      ↔ ((node_at ip a.table ≡ some peer) × (node_at ip b.table ≢ some local))
unfolding handle_client_event build_routing_sync_event Router.dump_routing_table
sync-build local handle peer a b ip ne wa wb =
    let clients = dump_clients (dump a.table) in
    let e = sync_clients_lem local handle peer clients b ip ne wb (dump-IsDistinct a.table wa) in
    rw (e, listed-dump ip a.table wa)
      (expected_own local peer (node_at ip a.table) (node_at ip b.table) ne)
