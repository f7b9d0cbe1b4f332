-- ===== src/Router/Packets/Traffic/Steps.antt =====
-- What each handler of pkg/router/router.go leaves as it is, and any sequence of them.
use liberator_node_go.Prelude.{
  ℕ, ◌+◌, ◌%◌, ◌^◌, ◌≤◌, ◌<◌, ◌≡◌, refl, ◌∙◌, ap, inl, inr, List, [], ◌∷◌, arith, ◌==◌, length,
  bytes_beq, nat_eq, bytes_eq, Bool-cases, Option-cases, All,
}
use liberator_node_go.Prelude.Map.{get}
use liberator_node_go.Dgmessage.{HoleInfo}
use liberator_node_go.Netutils.{contains}
use liberator_node_go.Firewall
use liberator_node_go.Firewall.Types.{Firewall}
use liberator_node_go.RoutingTable
use liberator_node_go.RoutingTable.{Route}
use liberator_node_go.RoutingTable.Shaped.{Packet, Shape}
use liberator_node_go.Router.{Router}
use liberator_node_go.Router.Egress.{is_forbidden_egress}
use liberator_node_go.Router.Packets.{
  Env, Plane, minute, free_packet, send_to_iface, send_and_free, handle_tun_packet, set_firewall,
  handle_mesh_packet, check_sender, forward_to_mesh, route_out, handle_transport_packet,
}
use liberator_node_go.Router.Packets.Outcome.{check_sender_frame}
use liberator_node_go.Router.Packets.Traffic.{
  Arrival, from_client, from_mesh, from_iface, arrive, arrive_all, Between, HoleKept, Kept,
  rule_check-HoleKept, holepunch-HoleKept, deliver-frame,
}

HoleKept-trans :
    (later : ℕ) (flow : HoleInfo) (f g h : Firewall)
    → HoleKept later flow f g
    → HoleKept later flow g h
    → HoleKept later flow f h
HoleKept-trans later flow f g h (a, b, c) (a', b', c') = (a' ∙ a, b' ∙ b, λ o. c' (c o))

HoleKept-opened :
    (t later : ℕ) (info flow : HoleInfo) (fw : Firewall)
    → t ≤ later
    → later < t + minute
    → HoleKept later flow fw (Firewall.holepunch t info minute (Firewall.rule_check t info fw).1)
HoleKept-opened t later info flow fw le soon =
    let checked = (Firewall.rule_check t info fw).1 in
    HoleKept-trans later flow fw checked (Firewall.holepunch t info minute checked)
      (rule_check-HoleKept t later info flow fw le)
      (holepunch-HoleKept t later info flow checked soon)

tun-Kept :
    (later : ℕ) (flow : HoleInfo) (env : Env) (pk : Packet) (info : HoleInfo) (p : Plane)
    → Kept later flow p (handle_tun_packet env pk info p)
unfolding handle_tun_packet
tun-Kept later flow env pk info p =
    let total = (p.total_from_iface + length pk.payload) % 2 ^ 64 in
    let (r, g, n) = deliver-frame env pk info (record p { total_from_iface = total }) in
    (p.router.firewall, r, g, n, (refl, refl, λ o. o))

mesh-Kept :
    (t later : ℕ) (flow : HoleInfo) (env : Env) (pk : Packet) (info : HoleInfo) (p : Plane)
    → later < t + minute
    → Kept later flow p (handle_mesh_packet t env pk info p)
unfolding handle_mesh_packet set_firewall
mesh-Kept t later flow env pk info p soon =
    let total = (p.total_from_mesh + length pk.payload) % 2 ^ 64 in
    let p' : Plane = record p { total_from_mesh = total } in
    let opened = Firewall.holepunch t info minute p.router.firewall in
    elim (Bool-cases (bytes_beq info.protocol [])) [
      | inl e ↦
          let (r, g, n) = deliver-frame env pk info p' in
          rw (e, handle_mesh_packet) (p.router.firewall, r, g, n, (refl, refl, λ o. o))
      | inr e ↦
          let (r, g, n) = deliver-frame env pk info (set_firewall opened p') in
          rw (e, handle_mesh_packet)
            (opened, r, g, n, holepunch-HoleKept t later info flow p.router.firewall soon)
    ]

route_out-Kept :
    (t later : ℕ) (flow : HoleInfo) (pk : Packet) (info : HoleInfo) (p : Plane)
    (x : List (ℕ × Shape)) (total : ℕ)
    → t ≤ later
    → later < t + minute
    → Kept later flow p (route_out t pk info (record p { shapes = x; total_from_peers = total }))
unfolding route_out forward_to_mesh free_packet send_to_iface send_and_free set_firewall
    RoutingTable.get_by_ip
route_out-Kept t later flow pk info p x total le soon =
    let fw = p.router.firewall in
    let checked = (Firewall.rule_check t info fw).1 in
    let opened = Firewall.holepunch t info minute checked in
    let same : HoleKept later flow fw fw = (refl, refl, λ o. o) in
    let punched = HoleKept-opened t later info flow fw le soon in
    elim (Bool-cases (info.dst_ip == p.gateway)) [
      | inl e ↦ rw (e, route_out) (fw, refl, refl, refl, same)
      | inr e ↦ elim (Bool-cases (contains p.global_network info.dst_ip)) [
        | inr g ↦ elim (Bool-cases (is_forbidden_egress info.dst_ip)) [
          | inl f ↦ rw (e, g, f, route_out) (fw, refl, refl, refl, same)
          | inr f ↦ rw (e, g, f, route_out) (fw, refl, refl, refl, same)
        ]
        | inl g ↦ elim (Bool-cases (Firewall.rule_check t info fw).0) [
          | inr f ↦
              rw (e, g, f, route_out, forward_to_mesh)
                (checked, refl, refl, refl, rule_check-HoleKept t later info flow fw le)
          | inl f ↦ elim (Option-cases (get info.dst_ip p.router.table)) [
            | inl o ↦
                rw (e, g, f, o, route_out, forward_to_mesh, RoutingTable.get_by_ip)
                  (opened, refl, refl, refl, punched)
            | inr (obj, o) ↦
                rw (e, g, f, o, route_out, forward_to_mesh, RoutingTable.get_by_ip)
                  (opened, refl, refl, refl, punched)
          ]
        ]
      ]
    ]

client-Kept :
    (t later : ℕ) (flow : HoleInfo) (env : Env) (pk : Packet) (info : HoleInfo) (p : Plane)
    → t ≤ later
    → later < t + minute
    → Kept later flow p (handle_transport_packet t env pk info p)
unfolding handle_transport_packet free_packet
client-Kept t later flow env pk info p le soon =
    let total = (p.total_from_peers + length pk.payload) % 2 ^ 64 in
    let p1 = record p { total_from_peers = total } in
    let (x, frame) = check_sender_frame env pk info p1 in
    elim (Bool-cases (check_sender env pk info p1).0) [
      | inr e ↦
          rw (e, frame, handle_transport_packet)
            (p.router.firewall, refl, refl, refl, (refl, refl, λ o. o))
      | inl e ↦
          rw (e, frame, handle_transport_packet)
            (route_out-Kept t later flow pk info p x total le soon)
    ]

arrive-Kept :
    (now later : ℕ) (flow : HoleInfo) (a : Arrival) (p : Plane)
    → later < now + minute
    → Between now later a
    → Kept later flow p (arrive a p)
arrive-Kept now later flow (from_client t env pk info) p soon (after, before) =
    client-Kept t later flow env pk info p before (omega arith)
arrive-Kept now later flow (from_mesh t env pk info) p soon (after, before) =
    mesh-Kept t later flow env pk info p (omega arith)
arrive-Kept now later flow (from_iface env pk info) p soon b = tun-Kept later flow env pk info p

Kept-trans :
    (later : ℕ) (flow : HoleInfo) (p q r : Plane)
    → Kept later flow p q
    → Kept later flow q r
    → Kept later flow p r
Kept-trans later flow p q r (g, e, gw, net, k) (h, e', gw', net', k') =
    let fw : q.router.firewall ≡ g = ap (λ (x : Router). x.firewall) e in
    (
      h,
      e' ∙ ap (λ (x : Router). record x { firewall = h }) e,
      gw' ∙ gw,
      net' ∙ net,
      HoleKept-trans later flow p.router.firewall g h k (rw fw at k'),
    )

-- Packets that are handled before a hole runs out leave it open.
pub arrive_all-Kept :
    (now later : ℕ) (flow : HoleInfo) (arrivals : List Arrival) (p : Plane)
    → later < now + minute
    → All (Between now later) arrivals
    → Kept later flow p (arrive_all arrivals p)
arrive_all-Kept now later flow [] p soon b =
    (p.router.firewall, refl, refl, refl, (refl, refl, λ o. o))
arrive_all-Kept now later flow (a ∷ arrivals) p soon (b, bs) =
    Kept-trans later flow p (arrive a p) (arrive_all arrivals (arrive a p))
      (arrive-Kept now later flow a p soon b)
      (arrive_all-Kept now later flow arrivals (arrive a p) soon bs)
