-- ===== src/Router/Packets/Conversation.antt =====
-- A conversation through pkg/router/router.go: a request that one client sends to another opens
-- the way for the replies.
use liberator_node_go.Prelude.{
  ℕ, ◌+◌, ◌%◌, ◌^◌, ◌<◌, ◌≡◌, refl, sym, ap, subst, ◌∙◌, ◌≢◌, inl, inr, true, false, some, List, [],
  ◌∷◌, ◌++◌, arith, ◌==◌, length, nat_eq, bytes_eq, Bool-cases, All,
}
use liberator_node_go.Prelude.Map.{get, get-put_self}
use liberator_node_go.Dgmessage.{HoleInfo}
use liberator_node_go.Netutils.{contains}
use liberator_node_go.Firewall
use liberator_node_go.Firewall.Types.{Hole, Firewall}
use liberator_node_go.Firewall.Keys.{flow_key}
use liberator_node_go.Firewall.Index.{IsIndexed, IsIndexed-same}
use liberator_node_go.Firewall.FlowKey.{SameFlow, flow_key_iff}
use liberator_node_go.Firewall.Holes.{OpenHole, rule_check_iff}
use liberator_node_go.RoutingTable
use liberator_node_go.RoutingTable.{Route}
use liberator_node_go.RoutingTable.Shaped.{Packet, Shape}
use liberator_node_go.Router.{Router}
use liberator_node_go.Router.Packets.{
  Env, Plane, minute, free_packet, send_and_free, set_firewall, check_sender, forward_to_mesh,
  route_out, handle_transport_packet,
}
use liberator_node_go.Router.Packets.Outcome.{
  Throttled, ToMesh, handle_transport_packet-Outcome, check_sender_frame, check_sender_iff,
}
use liberator_node_go.Router.Packets.Traffic.{Arrival, from_client, arrive_all, Between, Kept}
use liberator_node_go.Router.Packets.Traffic.Steps.{arrive_all-Kept}

-- The firewall after a packet was let through.
abbrev opened : ℕ → HoleInfo → Firewall → Firewall
opened now info fw = Firewall.holepunch now info minute (Firewall.rule_check now info fw).1

opened-IsIndexed :
    (now : ℕ) (info : HoleInfo) (fw : Firewall) → IsIndexed fw → IsIndexed (opened now info fw)
unfolding Firewall.holepunch Firewall.rule_check
opened-IsIndexed now info fw v =
    IsIndexed-same fw (opened now info fw) (ground arith) (ground arith) v

-- The node after it forwarded a packet to a client.
abbrev Forwarded : ℕ → HoleInfo → Plane → Plane → Type 0
Forwarded now info p p' =
    (p'.router ≡ record p.router { firewall = opened now info p.router.firewall })
    × (p'.gateway ≡ p.gateway)
    × (p'.global_network ≡ p.global_network)

route_out-Forwarded :
    (now : ℕ) (pk : Packet) (info : HoleInfo) (p : Plane) (obj : Route) (x : List (ℕ × Shape))
    (total : ℕ)
    → IsIndexed p.router.firewall
    → ToMesh now info p
    → get info.dst_ip p.router.table ≡ some obj
    → Forwarded now info p
        (route_out now pk info (record p { shapes = x; total_from_peers = total }))
unfolding route_out forward_to_mesh free_packet send_and_free set_firewall RoutingTable.get_by_ip
route_out-Forwarded now pk info p obj x total v (ne, inside, why) o =
    let f = (rule_check_iff now info p.router.firewall v).1 why in
    let e : (info.dst_ip == p.gateway) ≡ false = ground arith in
    rw (e, inside, f, o, route_out, forward_to_mesh, RoutingTable.get_by_ip) (refl, refl, refl)

handle_transport_packet-Forwarded :
    (now : ℕ) (env : Env) (pk : Packet) (info : HoleInfo) (p : Plane) (obj : Route)
    → IsIndexed p.router.firewall
    → (¬ Throttled env pk info p)
    → ToMesh now info p
    → get info.dst_ip p.router.table ≡ some obj
    → Forwarded now info p (handle_transport_packet now env pk info p)
unfolding handle_transport_packet
handle_transport_packet-Forwarded now env pk info p obj v quiet to_mesh o =
    let total = (p.total_from_peers + length pk.payload) % 2 ^ 64 in
    let p1 = record p { total_from_peers = total } in
    let (x, frame) = check_sender_frame env pk info p1 in
    let limits = check_sender_iff env pk info p1 in
    elim (Bool-cases (check_sender env pk info p1).0) [
      | inr e ↦ absurd (quiet (limits.0 e))
      | inl e ↦
          rw (e, frame, handle_transport_packet)
            (route_out-Forwarded now pk info p obj x total v to_mesh o)
    ]

-- The hole of the request is open for the reply.
opened-OpenHole :
    (now later : ℕ) (request reply : HoleInfo) (fw : Firewall)
    → SameFlow request reply
    → later < now + minute
    → OpenHole later reply (opened now request fw)
unfolding Firewall.holepunch
opened-OpenHole now later request reply fw same soon =
    let checked = (Firewall.rule_check now request fw).1 in
    let h : Hole = record { expire = now + minute; info = request } in
    (
      h,
      rw (sym ((flow_key_iff request reply).1 same))
          (get-put_self (flow_key request) h checked.holes),
      soon,
    )

-- A node with an open hole for a packet sends it on.
reply_passes :
    (later : ℕ) (env : Env) (pk : Packet) (reply : HoleInfo) (p : Plane) (client : Route)
    → IsIndexed p.router.firewall
    → OpenHole later reply p.router.firewall
    → reply.dst_ip < 2 ^ 32
    → reply.dst_ip ≢ p.gateway
    → contains p.global_network reply.dst_ip ≡ true
    → get reply.dst_ip p.router.table ≡ some client
    → (¬ Throttled env pk reply p)
    → (handle_transport_packet later env pk reply p).sent
      ≡ p.sent ++ (client.handle, pk.payload) ∷ []
reply_passes later env pk reply p client v hole small ne inside o quiet =
    elim (handle_transport_packet-Outcome later env pk reply p small v) [
      | inl (q, inl at_gateway, i, s, f) ↦ absurd (ne at_gateway)
      | inl (q, inr (outside, b), i, s, f) ↦ absurd (ground arith)
      | inr (inl (obj, q, mesh, o2, i, s, f)) ↦ ground arith
      | inr (inr (inl t, i, s, f)) ↦ absurd (quiet t)
      | inr (inr (inr (a, inl b), i, s, f)) ↦ absurd (b (ne, inside, inl hole))
      | inr (inr (inr (a, inr b), i, s, f)) ↦ absurd (ground arith)
    ]

-- The same after a request and other packets.
after_traffic :
    (now later : ℕ) (env : Env) (pk : Packet) (request reply : HoleInfo) (p p1 p2 : Plane)
    (client : Route)
    → IsIndexed p.router.firewall
    → Forwarded now request p p1
    → Kept later reply p1 p2
    → SameFlow request reply
    → later < now + minute
    → reply.dst_ip < 2 ^ 32
    → reply.dst_ip ≢ p.gateway
    → contains p.global_network reply.dst_ip ≡ true
    → get reply.dst_ip p.router.table ≡ some client
    → (¬ Throttled env pk reply p2)
    → (handle_transport_packet later env pk reply p2).sent
      ≡ p2.sent ++ (client.handle, pk.payload) ∷ []
after_traffic now later env pk request reply p p1 p2 client v (r, gw, net)
      (g, r2, gw2, net2, (ids, addrs, hole)) same soon small ne inside o quiet =
    let fw = opened now request p.router.firewall in
    let fw1 : p1.router.firewall ≡ fw = ap (λ (q : Router). q.firewall) r in
    let fw2 : p2.router.firewall ≡ g = ap (λ (q : Router). q.firewall) r2 in
    let table : p2.router.table ≡ p.router.table =
      ap (λ (q : Router). q.table) r2 ∙ ap (λ (q : Router). q.table) r in
    let v1 : IsIndexed p1.router.firewall =
      subst IsIndexed (sym fw1) (opened-IsIndexed now request p.router.firewall v) in
    let h1 : OpenHole later reply p1.router.firewall =
      subst (OpenHole later reply) (sym fw1)
        (opened-OpenHole now later request reply p.router.firewall same soon) in
    reply_passes later env pk reply p2 client
      (subst IsIndexed (sym fw2) (IsIndexed-same p1.router.firewall g ids addrs v1))
      (subst (OpenHole later reply) (sym fw2) (hole h1)) small (λ e. ne (e ∙ gw2 ∙ gw))
      (rw (net2, net) inside) (rw table o) quiet

-- In a node whose rule maps agree, let a client's packet be sent on to another client: its sender
-- keeps its limits, and its destination is another address of the mesh that has an object and that
-- an open hole or a rule lets it reach. After it the node handles any packets from clients, the
-- mesh and the interface, at times between that packet's and the last one's, and no handler panics;
-- no rule or object is added or removed. Then a packet of the same flow, in either direction, that a client sends before a
-- minute is over is sent to the object at its destination, whatever the rules are: it is enough
-- that its sender keeps its limits and that its destination is a 32-bit address of the mesh other
-- than the gateway, with an object.
pub handle_transport_packet-reply :
    (now later : ℕ) (env env' : Env) (pk pk' : Packet) (request reply : HoleInfo) (p : Plane)
    (server client : Route) (arrivals : List Arrival)
    → IsIndexed p.router.firewall
    → (¬ Throttled env pk request p)
    → ToMesh now request p
    → get request.dst_ip p.router.table ≡ some server
    → SameFlow request reply
    → later < now + minute
    → reply.dst_ip < 2 ^ 32
    → reply.dst_ip ≢ p.gateway
    → contains p.global_network reply.dst_ip ≡ true
    → get reply.dst_ip p.router.table ≡ some client
    → All (Between now later) arrivals
    → (arrive_all (from_client now env pk request ∷ arrivals) p).panicked ≡ false
    → (¬ Throttled env' pk' reply (arrive_all (from_client now env pk request ∷ arrivals) p))
    → (handle_transport_packet later env' pk' reply
        (arrive_all (from_client now env pk request ∷ arrivals) p)).sent
      ≡ (arrive_all (from_client now env pk request ∷ arrivals) p).sent
        ++ (client.handle, pk'.payload) ∷ []
handle_transport_packet-reply now later env env' pk pk' request reply p server client arrivals v
      quiet mesh o same soon small ne inside o' between calm quiet' =
    let p1 = handle_transport_packet now env pk request p in
    after_traffic now later env' pk' request reply p p1 (arrive_all arrivals p1) client v
      (handle_transport_packet-Forwarded now env pk request p server v quiet mesh o)
      (arrive_all-Kept now later reply arrivals p1 soon between) same soon small ne inside o' quiet'
