-- ===== src/Router/Packets.antt =====
-- The packet handlers of pkg/router/router.go. What other code answers is part of `Env`: whether
-- SendDatagram of an object returns no error, what its rate limiter allows, and whether its
-- context is taken as done. The channel to the interface takes every packet.
pub mod Outcome
pub mod Buffers
pub mod Traffic
pub mod Conversation
pub mod Tests
use liberator_node_go.Prelude.{
  ℕ, zero, suc, ◌+◌, ◌-◌, ◌*◌, ◌/◌, ◌%◌, ◌^◌, ◌≤◌, ◌<◌, bit_and, bit_or, bit_xor, ◌≡◌, refl, sym,
  ap, subst, ◌∙◌, ◌≢◌, ◌↔◌, ◌⊎◌, inl, inr, Bool, true, false, not, ◌&&◌, ◌||◌, Option, none, some,
  List, [], ◌∷◌, ◌++◌, map, arith, if◌then◌else◌, ltb, leb, ◌==◌, bool_beq, bytes_ltb,
  bytes_ltb_flip, bytes_ltb_irrefl, Bytes, codes, bytes_beq, bytes_beq_iff, keep, length, nat_eq,
  bytes_eq, ==_iff, Bool-cases, Option-cases, In, All,
}
use liberator_node_go.Prelude.Map.{get, put}
use liberator_node_go.Dgmessage.{HoleInfo}
use liberator_node_go.Netutils.{NativeIpNet, contains}
use liberator_node_go.Firewall
use liberator_node_go.Firewall.Types.{Firewall}
use liberator_node_go.RoutingTable
use liberator_node_go.RoutingTable.{Route}
use liberator_node_go.RoutingTable.Shaped.{Packet, Shape, is_allowed, push_limited}
use liberator_node_go.Router.{Router}
use liberator_node_go.Router.Egress.{is_forbidden_egress}

-- The answers for the object with this handle.
pub record Env : Type 0 where
  pub send_ok : ℕ → Bool
  pub allow : ℕ → Bool
  pub done : ℕ → Bool

-- The data plane of Router: its control plane, the shaped routes by handle, what was sent to
-- which object, the buffers that were given back to the pool, what went to the interface, the
-- counters, which are uint64, and whether a handler panicked, which ends the process.
pub record Plane : Type 0 where
  pub router : Router
  pub shapes : List (ℕ × Shape)
  pub gateway : ℕ
  pub global_network : NativeIpNet
  pub sent : List (ℕ × Bytes)
  pub freed : List ℕ
  pub to_iface : List Packet
  pub total_from_peers : ℕ
  pub total_from_iface : ℕ
  pub total_from_mesh : ℕ
  pub panicked : Bool

-- packet.Free()
unfoldable pub free_packet : Packet → Plane → Plane
free_packet pk p = record p { freed = p.freed ++ pk.buffer ∷ [] }

-- r.toIface <- packet
unfoldable pub send_to_iface : Packet → Plane → Plane
send_to_iface pk p = record p { to_iface = p.to_iface ++ pk ∷ [] }

-- peer.SendDatagram(packet.Data), with an error that is only logged, and packet.Free()
unfoldable pub send_and_free : Route → Packet → Plane → Plane
send_and_free obj pk p =
    free_packet pk (record p { sent = p.sent ++ (obj.handle, pk.payload) ∷ [] })

-- What PushLimited did to the buffer, as often as it did.
unfoldable pub free_times : ℕ → Packet → Plane → Plane
free_times zero pk p = p
free_times (suc n) pk p = free_times n pk (free_packet pk p)

-- shaped.PushLimited(packet), and packet.Free() on an error
unfoldable pub push_and_check : Env → Route → Shape → Packet → Plane → Plane
push_and_check env obj shape pk p =
    let push = push_limited (env.send_ok obj.handle) (env.done obj.handle) pk shape in
    let p' = record p {
      shapes = put obj.handle push.shape p.shapes;
      sent = (if push.sent then p.sent ++ (obj.handle, pk.payload) ∷ [] else p.sent);
      panicked = p.panicked || push.panicked;
    } in
    let p'' = free_times push.frees pk p' in if push.failed then free_packet pk p'' else p''

-- The common end of handleTunPacketInternal and handleMeshPacketInternal.
unfoldable pub deliver : Env → Packet → HoleInfo → Plane → Plane
deliver env pk info p = elim (RoutingTable.get_by_ip info.dst_ip p.router.table) [
  | none ↦ free_packet pk p
  | some obj ↦ elim (get obj.handle p.shapes) [
    | none ↦ send_and_free obj pk p
    | some shape ↦ push_and_check env obj shape pk p
  ]
]

-- handleTunPacketInternal
unfoldable pub handle_tun_packet : Env → Packet → HoleInfo → Plane → Plane
handle_tun_packet env pk info p =
    deliver env pk info
      (record p { total_from_iface = (p.total_from_iface + length pk.payload) % 2 ^ 64 })

-- time.Minute, in nanoseconds
abbrev pub minute : ℕ
minute = 60 * 1000000000

-- r.firewall = fw
unfoldable pub set_firewall : Firewall → Plane → Plane
set_firewall fw p = record p { router = record p.router { firewall = fw } }

-- handleMeshPacketInternal at the time `now`
unfoldable pub handle_mesh_packet : ℕ → Env → Packet → HoleInfo → Plane → Plane
handle_mesh_packet now env pk info p =
    let p' = record p { total_from_mesh = (p.total_from_mesh + length pk.payload) % 2 ^ 64 } in
    deliver env pk info (
      if bytes_beq info.protocol []
      then p'
      else set_firewall (Firewall.holepunch now info minute p'.router.firewall) p')

-- The limits of the sender in handleTransportPacketInternal: whether the packet may go on.
unfoldable pub check_sender : Env → Packet → HoleInfo → Plane → Bool × Plane
check_sender env pk info p = elim (RoutingTable.get_by_ip info.src_ip p.router.table) [
  | none ↦ (true, p)
  | some obj ↦ elim (get obj.handle p.shapes) [
    | none ↦ (true, p)
    | some shape ↦
        let (ok, shape') = is_allowed (env.allow obj.handle) (length pk.payload) shape in
        (ok, record p { shapes = put obj.handle shape' p.shapes })
  ]
]

-- The part of handleTransportPacketInternal that asks the firewall.
unfoldable pub forward_to_mesh : ℕ → Packet → HoleInfo → Plane → Plane
forward_to_mesh now pk info p =
    let (ok, fw) = Firewall.rule_check now info p.router.firewall in
    if not ok
    then free_packet pk (set_firewall fw p)
    else let p' = set_firewall (Firewall.holepunch now info minute fw) p in
      elim (RoutingTable.get_by_ip info.dst_ip p'.router.table) [
        | none ↦ free_packet pk p'
        | some obj ↦ send_and_free obj pk p'
      ]

-- handleTransportPacketInternal after the limits of the sender.
unfoldable pub route_out : ℕ → Packet → HoleInfo → Plane → Plane
route_out now pk info p =
    if info.dst_ip == p.gateway
    then send_to_iface pk p
    else if not (contains p.global_network info.dst_ip)
    then (if is_forbidden_egress info.dst_ip then free_packet pk p else send_to_iface pk p)
    else forward_to_mesh now pk info p

-- handleTransportPacketInternal at the time `now`
unfoldable pub handle_transport_packet : ℕ → Env → Packet → HoleInfo → Plane → Plane
handle_transport_packet now env pk info p =
    let p1 = record p { total_from_peers = (p.total_from_peers + length pk.payload) % 2 ^ 64 } in
    let (ok, p2) = check_sender env pk info p1 in
    if ok then route_out now pk info p2 else free_packet pk p2
