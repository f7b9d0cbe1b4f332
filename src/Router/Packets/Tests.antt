-- ===== src/Router/Packets/Tests.antt =====
-- The packet handlers of the router on concrete packets.
use liberator_node_go.Prelude.{
  ℕ, ◌+◌, ◌*◌, ◌%◌, ◌^◌, ◌≡◌, refl, ◌∙◌, List, inl, inr, Bool, ◌||◌, true, false, none, some, [],
  ◌∷◌, ◌++◌, arith, codes, length, nat_eq, bytes_eq,
}
use liberator_node_go.Prelude.Map.{get}
use liberator_node_go.Dgmessage.{HoleInfo}
use liberator_node_go.Netutils.{contains, subnet}
use liberator_node_go.Firewall
use liberator_node_go.Firewall.Types.{Firewall}
use liberator_node_go.Firewall.Index.{IsIndexed, new-IsIndexed}
use liberator_node_go.Firewall.Holes.{rule_check_iff, rule_check-holepunch}
use liberator_node_go.RoutingTable.{Route}
use liberator_node_go.RoutingTable.Shaped.{Packet}
use liberator_node_go.Router.Packets.{
  Env, Plane, minute, deliver, handle_transport_packet, check_sender, route_out, forward_to_mesh,
  set_firewall, send_and_free, free_packet, send_to_iface,
}
use liberator_node_go.Router.Packets.Buffers.{Frees, copies, deliver-Frees}
use liberator_node_go.Router.Packets.Outcome.{
  Throttled, ToMesh, Outcome, handle_transport_packet-Outcome,
}
use liberator_node_go.Router.Packets.Traffic.{Arrival, from_client, arrive_all}
use liberator_node_go.Router.Packets.Conversation.{handle_transport_packet-reply}

abbrev request : HoleInfo
request = record {
  src_ip = 10 * 2 ^ 24 + 2;
  dst_ip = 10 * 2 ^ 24 + 1;
  src_port = 5555;
  dst_port = 80;
  protocol = codes "tcp";
}

abbrev reply : HoleInfo
reply = record {
  src_ip = 10 * 2 ^ 24 + 1;
  dst_ip = 10 * 2 ^ 24 + 2;
  src_port = 80;
  dst_port = 5555;
  protocol = codes "tcp";
}

abbrev server : Route
server = record { handle = 1; node_id = codes "node-a"; virtual_ip = 10 * 2 ^ 24 + 1 }

abbrev client : Route
client = record { handle = 2; node_id = codes "node-a"; virtual_ip = 10 * 2 ^ 24 + 2 }

-- A firewall that let a packet of the conversation through at time 1000.
abbrev firewall : Firewall
firewall = Firewall.holepunch 1000 request minute Firewall.new

firewall-IsIndexed : IsIndexed firewall
unfolding Firewall.holepunch
firewall-IsIndexed = record {
  ids_once = new-IsIndexed.ids_once;
  addrs_once = new-IsIndexed.addrs_once;
  listed = new-IsIndexed.listed;
  found = new-IsIndexed.found;
  distinct = new-IsIndexed.distinct;
}

abbrev plane : Plane
plane = record {
  router = record {
    table = (server.virtual_ip, server) ∷ (client.virtual_ip, client) ∷ [];
    firewall = firewall;
    routing_subs = [];
    firewall_subs = [];
  };
  shapes = [];
  gateway = 10 * 2 ^ 24 + 254;
  global_network = subnet (10 * 2 ^ 16) 24 8;
  sent = [];
  freed = [];
  to_iface = [];
  total_from_peers = 0;
  total_from_iface = 0;
  total_from_mesh = 0;
  panicked = false;
}

abbrev env : Env
env = record { send_ok = λ h. true; allow = λ h. true; done = λ h. false }

abbrev packet : Packet
packet = record { buffer = 7; payload = 1 ∷ 2 ∷ 3 ∷ [] }

handle_transport_packet-Outcome_example :
    Outcome 2000 env packet request plane (handle_transport_packet 2000 env packet request plane)
handle_transport_packet-Outcome_example =
    handle_transport_packet-Outcome 2000 env packet request plane (omega arith) firewall-IsIndexed

not-Throttled : (info : HoleInfo) (p : Plane) → p.shapes ≡ [] → ¬ Throttled env packet info p
unfolding get
not-Throttled info p e (obj, s, g, k, rest) =
    let none_ : get obj.handle p.shapes ≡ none = rw e refl in absurd (ground arith)

request-ToMesh : ToMesh 2000 request plane
unfolding contains
request-ToMesh = (
  λ e. absurd (omega (arith, e)),
  refl,
  (rule_check_iff 2000 request firewall firewall-IsIndexed).0 (
      rule_check-holepunch 1000 2000 minute request request Firewall.new
        (refl, inl (refl, refl, inr (refl, refl))) (omega arith)),
)

abbrev after_request : Plane
after_request = handle_transport_packet 2000 env packet request plane

-- Without limits there are none after a packet either.
route_out-shapes :
    (now : ℕ) (info : HoleInfo) (p : Plane) → (route_out now packet info p).shapes ≡ p.shapes
unfolding route_out forward_to_mesh set_firewall send_and_free free_packet send_to_iface
route_out-shapes now info p = ground arith

check_sender-shapes :
    (info : HoleInfo) (p : Plane) → p.shapes ≡ [] → (check_sender env packet info p).1.shapes ≡ []
unfolding check_sender get
check_sender-shapes info p e = ground arith

no_shapes :
    (now : ℕ) (info : HoleInfo) (p : Plane)
    → p.shapes ≡ []
    → (handle_transport_packet now env packet info p).shapes ≡ []
unfolding handle_transport_packet free_packet
no_shapes now info p e =
    let p1 = record p {
      total_from_peers = (p.total_from_peers + length packet.payload) % 2 ^ 64;
    } in
    ground (
      arith,
      check_sender-shapes info p1 e,
      route_out-shapes now info (check_sender env packet info p1).1,
    )

found_server : get request.dst_ip plane.router.table ≡ some server
unfolding get
found_server = refl

found_client : get reply.dst_ip plane.router.table ≡ some client
unfolding get
found_client = refl

inside : contains plane.global_network reply.dst_ip ≡ true
unfolding contains
inside = refl

-- Another request of the client comes in between.
abbrev other_request : HoleInfo
other_request = record request { src_port = 5556; dst_port = 443 }

abbrev arrivals : List Arrival
arrivals = from_client 2500 env packet other_request ∷ []

abbrev before_reply : Plane
before_reply = arrive_all arrivals after_request

route_out-panicked :
    (now : ℕ) (info : HoleInfo) (p : Plane) → (route_out now packet info p).panicked ≡ p.panicked
unfolding route_out forward_to_mesh set_firewall send_and_free free_packet send_to_iface
route_out-panicked now info p = ground arith

client-panicked :
    (now : ℕ) (info : HoleInfo) (p : Plane)
    → (handle_transport_packet now env packet info p).panicked ≡ p.panicked
unfolding handle_transport_packet check_sender free_packet
client-panicked now info p =
    let p1 = record p {
      total_from_peers = (p.total_from_peers + length packet.payload) % 2 ^ 64;
    } in
    ground (arith, route_out-panicked now info (check_sender env packet info p1).1)

handle_transport_packet-reply_example :
    (handle_transport_packet 3000 env packet reply before_reply).sent
    ≡ before_reply.sent ++ (client.handle, packet.payload) ∷ []
handle_transport_packet-reply_example =
    handle_transport_packet-reply 2000 3000 env env packet packet request reply plane server client
      arrivals firewall-IsIndexed (not-Throttled request plane refl) request-ToMesh found_server
      (refl, inr (refl, refl, inr (refl, refl))) (omega arith) (omega arith) (λ e. omega (arith, e))
      inside found_client ((omega arith, omega arith), tt)
      (client-panicked 2500 other_request after_request ∙ client-panicked 2000 request plane)
      (not-Throttled reply before_reply
        (no_shapes 2500 other_request after_request (no_shapes 2000 request plane refl)))

-- A shaped object with a limit on the traffic alone, and a context that is done.
abbrev shaped_plane : Plane
shaped_plane = record plane {
  shapes =
      (
        1,
        record {
          total_limit = 1000;
          traffic_limited = true;
          speed_limited = false;
          queue = [];
          closed = false;
        },
      )
      ∷ [];
}

abbrev done_env : Env
done_env = record { send_ok = λ h. true; allow = λ h. true; done = λ h. true }

deliver-Frees_example :
    (n : ℕ) × (b : Bool) × Frees done_env packet request shaped_plane n b
    × ((deliver done_env packet request shaped_plane).freed
        ≡ shaped_plane.freed ++ copies n packet.buffer)
    × ((deliver done_env packet request shaped_plane).panicked ≡ shaped_plane.panicked || b)
deliver-Frees_example = deliver-Frees done_env packet request shaped_plane
