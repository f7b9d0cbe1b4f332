-- ===== src/Router/Packets/Traffic.antt =====
-- Packets that the handlers of pkg/router/router.go take one after another, and what they leave as
-- it is: the objects, the rules and an open hole.
pub mod Steps
use liberator_node_go.Prelude.{
  ℕ, zero, suc, ◌+◌, ◌%◌, ◌^◌, ◌≤◌, ◌<◌, ◌≡◌, refl, ◌∙◌, ap, inl, inr, List, [], ◌∷◌, ◌++◌, ◌||◌,
  arith, if◌then◌else◌, ltb, ◌==◌, length, bytes_beq, bytes_beq_iff, nat_eq, bytes_eq, Bool-cases,
  Option-cases, All,
}
use liberator_node_go.Prelude.Map.{get, put, get-put, get-erase}
use liberator_node_go.Dgmessage.{HoleInfo}
use liberator_node_go.Netutils.{contains}
use liberator_node_go.Firewall
use liberator_node_go.Firewall.Types.{Hole, Firewall}
use liberator_node_go.Firewall.Keys.{flow_key}
use liberator_node_go.Firewall.Holes.{OpenHole}
use liberator_node_go.RoutingTable
use liberator_node_go.RoutingTable.{Route}
use liberator_node_go.RoutingTable.Shaped.{Packet, Shape, push_limited}
use liberator_node_go.Router.{Router}
use liberator_node_go.Router.Egress.{is_forbidden_egress}
use liberator_node_go.Router.Packets.{
  Env, Plane, minute, free_packet, send_to_iface, send_and_free, free_times, push_and_check,
  deliver, handle_tun_packet, set_firewall, handle_mesh_packet, check_sender, forward_to_mesh,
  route_out, handle_transport_packet,
}
use liberator_node_go.Router.Packets.Outcome.{check_sender_frame}

-- A packet that a handler takes: from a client, from the mesh or from the interface.
pub data Arrival : Type 0 where
  from_client from_mesh : ℕ → Env → Packet → HoleInfo → Arrival
  from_iface : Env → Packet → HoleInfo → Arrival

abbrev pub arrive : Arrival → Plane → Plane
arrive (from_client t env pk info) p = handle_transport_packet t env pk info p
arrive (from_mesh t env pk info) p = handle_mesh_packet t env pk info p
arrive (from_iface env pk info) p = handle_tun_packet env pk info p

abbrev pub arrive_all : List Arrival → Plane → Plane
arrive_all [] p = p
arrive_all (a ∷ arrivals) p = arrive_all arrivals (arrive a p)

-- The packet is handled between the two times.
abbrev pub Between : ℕ → ℕ → Arrival → Type 0
Between now later (from_client t env pk info) = (now ≤ t) × (t ≤ later)
Between now later (from_mesh t env pk info) = (now ≤ t) × (t ≤ later)
Between now later (from_iface env pk info) = Unit

-- The same rules, and a hole for `flow` that is open at `later` stays so.
abbrev pub HoleKept : ℕ → HoleInfo → Firewall → Firewall → Type 0
HoleKept later flow f g =
    (g.rules_by_id ≡ f.rules_by_id)
    × (g.rules_by_addr ≡ f.rules_by_addr)
    × (OpenHole later flow f → OpenHole later flow g)

-- The same node but for the firewall, which keeps the hole, and for counters and buffers.
abbrev pub Kept : ℕ → HoleInfo → Plane → Plane → Type 0
Kept later flow p q =
    (g : Firewall) × (q.router ≡ record p.router { firewall = g })
    × (q.gateway ≡ p.gateway)
    × (q.global_network ≡ p.global_network)
    × HoleKept later flow p.router.firewall g

pub rule_check-HoleKept :
    (t later : ℕ) (info flow : HoleInfo) (fw : Firewall)
    → t ≤ later
    → HoleKept later flow fw (Firewall.rule_check t info fw).1
unfolding Firewall.rule_check
rule_check-HoleKept t later info flow fw le = (
  ground arith,
  ground arith,
  λ (x, g, q). elim (Option-cases (get (flow_key info) fw.holes)) [
    | inl e ↦ (x, ground arith, q)
    | inr (h, e) ↦ elim (Bool-cases (ltb t h.expire)) [
      | inl b ↦ (x, ground arith, q)
      | inr b ↦ (
        x,
        ground (
          arith,
          get-erase (flow_key info) (flow_key flow) fw.holes,
          bytes_beq_iff (flow_key info) (flow_key flow),
        ),
        q,
      )
    ]
  ],
)

pub holepunch-HoleKept :
    (t later : ℕ) (info flow : HoleInfo) (fw : Firewall)
    → later < t + minute
    → HoleKept later flow fw (Firewall.holepunch t info minute fw)
unfolding Firewall.holepunch
holepunch-HoleKept t later info flow fw soon =
    let h : Hole = record { expire = t + minute; info = info } in
    let after = get-put (flow_key info) (flow_key flow) h fw.holes in
    (
      refl,
      refl,
      λ (x, g, q). elim (Bool-cases (bytes_beq (flow_key info) (flow_key flow))) [
        | inl e ↦ (h, ground arith, soon)
        | inr e ↦ (x, ground arith, q)
      ],
    )

free_times-frame :
    (n : ℕ) (pk : Packet) (p : Plane)
    → ((free_times n pk p).router ≡ p.router)
      × ((free_times n pk p).gateway ≡ p.gateway)
      × ((free_times n pk p).global_network ≡ p.global_network)
unfolding free_times free_packet
free_times-frame zero pk p = (refl, refl, refl)
free_times-frame (suc n) pk p = free_times-frame n pk (free_packet pk p)

push_and_check-frame :
    (env : Env) (obj : Route) (s : Shape) (pk : Packet) (p : Plane)
    → let q = push_and_check env obj s pk p in
      (q.router ≡ p.router) × (q.gateway ≡ p.gateway) × (q.global_network ≡ p.global_network)
unfolding push_and_check free_packet
push_and_check-frame env obj s pk p =
    let push = push_limited (env.send_ok obj.handle) (env.done obj.handle) pk s in
    let p' : Plane = record p {
      shapes = put obj.handle push.shape p.shapes;
      sent = (if push.sent then p.sent ++ (obj.handle, pk.payload) ∷ [] else p.sent);
      panicked = p.panicked || push.panicked;
    } in
    elim (Bool-cases push.failed) [
      | inl e ↦ rw (e, push_and_check) (free_times-frame push.frees pk p')
      | inr e ↦ rw (e, push_and_check) (free_times-frame push.frees pk p')
    ]

pub deliver-frame :
    (env : Env) (pk : Packet) (info : HoleInfo) (p : Plane)
    → let q = deliver env pk info p in
      (q.router ≡ p.router) × (q.gateway ≡ p.gateway) × (q.global_network ≡ p.global_network)
unfolding deliver RoutingTable.get_by_ip free_packet send_and_free
deliver-frame env pk info p = elim (Option-cases (get info.dst_ip p.router.table)) [
  | inl e ↦ rw (deliver, RoutingTable.get_by_ip, e) (refl, refl, refl)
  | inr (obj, e) ↦ elim (Option-cases (get obj.handle p.shapes)) [
    | inl g ↦ rw (deliver, RoutingTable.get_by_ip, e, g) (refl, refl, refl)
    | inr (s, g) ↦ rw (deliver, RoutingTable.get_by_ip, e, g) (push_and_check-frame env obj s pk p)
  ]
]
