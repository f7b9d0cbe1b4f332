-- ===== src/Router/Packets/Outcome.antt =====
-- Where handleTransportPacketInternal of pkg/router/router.go lets a packet of a client go.
use liberator_node_go.Prelude.{
  ℕ, ◌+◌, ◌-◌, ◌%◌, ◌^◌, ◌≤◌, ◌<◌, ◌≡◌, refl, ◌≢◌, ◌↔◌, ◌⊎◌, inl, inr, Bool, true, false, none,
  some, List, [], ◌∷◌, ◌++◌, arith, ◌==◌, length, nat_eq, bytes_eq, Bool-cases, Option-cases,
}
use liberator_node_go.Prelude.Map.{get, put}
use liberator_node_go.Dgmessage.{HoleInfo}
use liberator_node_go.Netutils.{contains}
use liberator_node_go.Firewall
use liberator_node_go.Firewall.Index.{IsIndexed}
use liberator_node_go.Firewall.Rules.{Permitted}
use liberator_node_go.Firewall.Holes.{OpenHole, rule_check_iff}
use liberator_node_go.RoutingTable
use liberator_node_go.RoutingTable.{Route}
use liberator_node_go.RoutingTable.Shaped.{Packet, Shape, spend, is_spent, is_negative, is_allowed}
use liberator_node_go.Router.Egress.{
  is_forbidden_egress, blocks, any_contains, is_forbidden_egress_lem,
}
use liberator_node_go.Router.Packets.{
  Env, Plane, free_packet, send_to_iface, send_and_free, set_firewall, check_sender,
  forward_to_mesh, route_out, handle_transport_packet,
}

-- The limit on the traffic of the route does not cover `size` more bytes.
abbrev pub Exhausted : Shape → ℕ → Type 0
Exhausted s size =
    (s.traffic_limited ≡ true) × (2 ^ 63 ≤ (s.total_limit + (2 ^ 64 - size % 2 ^ 64)) % 2 ^ 64)

-- The sender has a route with a limit that refuses the packet.
abbrev pub Throttled : Env → Packet → HoleInfo → Plane → Type 0
Throttled env pk info p =
    (obj : Route) × (s : Shape) × (get info.src_ip p.router.table ≡ some obj)
    × (get obj.handle p.shapes ≡ some s)
    × (Exhausted s (length pk.payload)
        ⊎ ((s.speed_limited ≡ true) × (env.allow obj.handle ≡ false)))

-- The gateway, or an address outside of the mesh that is in none of the blocks.
abbrev pub ToInterface : HoleInfo → Plane → Type 0
ToInterface info p =
    (info.dst_ip ≡ p.gateway)
    ⊎ ((contains p.global_network info.dst_ip ≡ false) × (any_contains blocks info.dst_ip ≡ false))

-- Another address of the mesh, that the firewall lets the packet reach.
abbrev pub ToMesh : ℕ → HoleInfo → Plane → Type 0
ToMesh now info p =
    (info.dst_ip ≢ p.gateway)
    × (contains p.global_network info.dst_ip ≡ true)
    × (OpenHole now info p.router.firewall ⊎ Permitted p.router.firewall info)

-- What became of the packet: it went to the interface, it was sent to the object at its
-- destination and given back, or it was only given back.
abbrev pub Outcome : ℕ → Env → Packet → HoleInfo → Plane → Plane → Type 0
Outcome now env pk info p p' =
    ((¬ Throttled env pk info p)
      × ToInterface info p
      × (p'.to_iface ≡ p.to_iface ++ pk ∷ [])
      × (p'.sent ≡ p.sent)
      × (p'.freed ≡ p.freed))
    ⊎ ((obj : Route) × (¬ Throttled env pk info p)
        × ToMesh now info p
        × (get info.dst_ip p.router.table ≡ some obj)
        × (p'.to_iface ≡ p.to_iface)
        × (p'.sent ≡ p.sent ++ (obj.handle, pk.payload) ∷ [])
        × (p'.freed ≡ p.freed ++ pk.buffer ∷ []))
    ⊎ ((Throttled env pk info p
          ⊎ ((¬ ToInterface info p)
              × ((¬ ToMesh now info p) ⊎ (get info.dst_ip p.router.table ≡ none))))
        × (p'.to_iface ≡ p.to_iface)
        × (p'.sent ≡ p.sent)
        × (p'.freed ≡ p.freed ++ pk.buffer ∷ []))

is_allowed_iff :
    (allow : Bool) (size : ℕ) (s : Shape)
    → ((is_allowed allow size s).0 ≡ false)
      ↔ (Exhausted s size ⊎ ((s.speed_limited ≡ true) × (allow ≡ false)))
unfolding is_allowed spend is_spent is_negative
is_allowed_iff allow size s = (λ h. ground arith, λ h. ground arith)

pub check_sender_frame :
    (env : Env) (pk : Packet) (info : HoleInfo) (p : Plane)
    → (x : List (ℕ × Shape)) × ((check_sender env pk info p).1 ≡ record p { shapes = x })
unfolding check_sender RoutingTable.get_by_ip
check_sender_frame env pk info p = elim (Option-cases (get info.src_ip p.router.table)) [
  | inl e ↦ (p.shapes, rw (e, check_sender, RoutingTable.get_by_ip) refl)
  | inr (obj, e) ↦ elim (Option-cases (get obj.handle p.shapes)) [
    | inl g ↦ (p.shapes, rw (e, g, check_sender, RoutingTable.get_by_ip) refl)
    | inr (s, g) ↦ (
      put obj.handle (is_allowed (env.allow obj.handle) (length pk.payload) s).1 p.shapes,
      rw (e, g, check_sender, RoutingTable.get_by_ip) refl,
    )
  ]
]

pub check_sender_iff :
    (env : Env) (pk : Packet) (info : HoleInfo) (p : Plane)
    → ((check_sender env pk info p).0 ≡ false) ↔ Throttled env pk info p
unfolding check_sender RoutingTable.get_by_ip
check_sender_iff env pk info p = elim (Option-cases (get info.src_ip p.router.table)) [
  | inl e ↦ (λ h. absurd (ground arith), λ (o, s, g, k, rest). absurd (ground arith))
  | inr (obj, e) ↦ elim (Option-cases (get obj.handle p.shapes)) [
    | inl g ↦ (λ h. absurd (ground arith), λ (o, s, g', k, rest). absurd (ground arith))
    | inr (s, g) ↦
        let i = is_allowed_iff (env.allow obj.handle) (length pk.payload) s in
        (λ h. (obj, s, e, g, ground arith), λ (o, t, g', k, rest). ground arith)
  ]
]

-- The same for the part after the limits: `quiet` stands for what the limits found.
route_out-Outcome :
    (now : ℕ) (env : Env) (pk : Packet) (info : HoleInfo) (p : Plane) (x : List (ℕ × Shape))
    (total : ℕ)
    → info.dst_ip < 2 ^ 32
    → IsIndexed p.router.firewall
    → (¬ Throttled env pk info p)
    → Outcome now env pk info p
        (route_out now pk info (record p { shapes = x; total_from_peers = total }))
unfolding route_out forward_to_mesh free_packet send_to_iface send_and_free set_firewall
    RoutingTable.get_by_ip
route_out-Outcome now env pk info p x total small v quiet =
    let forbidden = is_forbidden_egress_lem info.dst_ip small in
    let allowed = rule_check_iff now info p.router.firewall v in
    elim (Bool-cases (info.dst_ip == p.gateway)) [
      | inl e ↦ rw (e, route_out) (inl (quiet, inl (ground arith), refl, refl, refl))
      | inr e ↦ elim (Bool-cases (contains p.global_network info.dst_ip)) [
        | inr g ↦ elim (Bool-cases (is_forbidden_egress info.dst_ip)) [
          | inl f ↦
              rw (e, g, f, route_out)
                (inr (inr (inr (λ t. ground arith, inl (λ t. ground arith)), refl, refl, refl)))
          | inr f ↦
              rw (e, g, f, route_out) (inl (quiet, inr (refl, ground arith), refl, refl, refl))
        ]
        | inl g ↦ elim (Bool-cases (Firewall.rule_check now info p.router.firewall).0) [
          | inr f ↦
              rw (e, g, f, route_out, forward_to_mesh)
                (inr (inr (inr (λ t. ground arith, inl (λ t. ground arith)), refl, refl, refl)))
          | inl f ↦ elim (Option-cases (get info.dst_ip p.router.table)) [
            | inl o ↦
                rw (e, g, f, o, route_out, forward_to_mesh, RoutingTable.get_by_ip)
                  (inr (inr (inr (λ t. ground arith, inr refl), refl, refl, refl)))
            | inr (obj, o) ↦
                rw (e, g, f, o, route_out, forward_to_mesh, RoutingTable.get_by_ip)
                  (inr
                    (inl (obj, quiet, (ground arith, refl, allowed.0 f), refl, refl, refl, refl)))
          ]
        ]
      ]
    ]

-- At any time, in a node whose rule maps agree, the handler of a packet from a client does one of
-- three things. It sends it to the interface, exactly if the sender keeps its limits and the
-- packet goes to the gateway, or out of the mesh to none of the refused blocks. It sends it to the
-- object at its destination and gives the buffer back, exactly if the sender keeps its limits,
-- the destination is another address of the mesh with an object, and an open hole or a rule lets
-- the packet through. Else it only gives the buffer back. The destination is a 32-bit address.
pub handle_transport_packet-Outcome :
    (now : ℕ) (env : Env) (pk : Packet) (info : HoleInfo) (p : Plane)
    → info.dst_ip < 2 ^ 32
    → IsIndexed p.router.firewall
    → Outcome now env pk info p (handle_transport_packet now env pk info p)
unfolding handle_transport_packet free_packet
handle_transport_packet-Outcome now env pk info p small v =
    let total = (p.total_from_peers + length pk.payload) % 2 ^ 64 in
    let p1 = record p { total_from_peers = total } in
    let limits = check_sender_iff env pk info p1 in
    let (x, frame) = check_sender_frame env pk info p1 in
    elim (Bool-cases (check_sender env pk info p1).0) [
      | inr e ↦
          rw (e, frame, handle_transport_packet) (inr (inr (inl (limits.0 e), refl, refl, refl)))
      | inl e ↦
          rw (e, frame, handle_transport_packet)
            (route_out-Outcome now env pk info p x total small v (λ t. ground (arith, limits.1 t)))
    ]
