-- ===== src/Awg/Tests.antt =====
-- A small AmneziaWG transport with one peer.
use liberator_node_go.Prelude.{
  ℕ, ◌+◌, ◌*◌, ◌^◌, ◌<◌, ◌≡◌, refl, ◌↔◌, ◌⊎◌, inl, Bool, true, false, none, some, [], ◌∷◌, arith,
  Bytes, codes, length, nat_eq, bytes_eq, In,
}
use liberator_node_go.Prelude.Map.{get}
use liberator_node_go.Firewall
use liberator_node_go.RoutingTable.{Route}
use liberator_node_go.PeersManager.{Peer}
use liberator_node_go.Awg.{Awg, AwgPeer, create_peer, exists_peer, is_over, stats_of, watch_peers}
use liberator_node_go.Awg.Invariant.{IsAwg}
use liberator_node_go.Awg.Created.{CreateOutcome, create_peer-CreateOutcome, create_peer-evicts}
use liberator_node_go.Awg.Traffic.{IsReset, watch_peers-reports}
use liberator_node_go.Awg.Watch.{watch_peers-IsAwg}

abbrev first_ip : ℕ
first_ip = 10 * 2 ^ 24 + 2

abbrev first_peer : AwgPeer
first_peer = record {
  node_id = codes "node-a";
  virtual_ip = first_ip;
  pub_key = codes "p";
  last_seen = 5;
  expiration = some 100;
  total_to_peer = 30;
  total_from_peer = 40;
}

abbrev first_route : Route
first_route = record { handle = 1; node_id = codes "node-a"; virtual_ip = first_ip }

-- A client of another node.
abbrev remote_route : Route
remote_route = record { handle = 77; node_id = codes "node-b"; virtual_ip = 10 * 2 ^ 24 + 3 }

abbrev pub transport : Awg
transport = record {
  node_id = codes "node-a";
  objects = (1, first_peer) ∷ [];
  shapes = [];
  next_handle = 2;
  peers_by_ip = (first_ip, 1) ∷ [];
  tun_peers = (first_ip, 1) ∷ [];
  router = record {
    table = (first_ip, first_route) ∷ (remote_route.virtual_ip, remote_route) ∷ [];
    firewall = Firewall.new;
    routing_subs = [];
    firewall_subs = [];
  };
  device = [];
  delta_chan = [];
  inbox = [];
  handed = [];
}

only_entry : (ip h : ℕ) → get ip transport.peers_by_ip ≡ some h → (first_ip ≡ ip) × (1 ≡ h)
unfolding get
only_entry ip h g = ground arith

pub transport-IsAwg : IsAwg transport
unfolding get
transport-IsAwg = record {
  once = (refl, tt);
  same_maps = refl;
  keyed = λ ip h g. let (e, k) = only_entry ip h g in (first_peer, rw (← k) refl, e);
  given = λ ip h g. let (e, k) = only_entry ip h g in omega arith;
  routed = λ ip h g. let (e, k) = only_entry ip h g in (first_route, rw (← e) refl, k);
}

-- A peer at the address of the client of another node, with a speed limit.
abbrev pub new_peer : Peer
new_peer = record {
  id = 9;
  kind = codes "awg";
  virtual_ip = 10 * 2 ^ 24 + 3;
  last_seen = 0;
  expiration_date = none;
  from_peer_total = 0;
  to_peer_total = 0;
  traffic_limit_gb = none;
  speed_limit_mbps = some 4607182418800017408;
  awg_private_key = codes "k";
  awg_public_key = codes "q";
}

abbrev ipc : Bytes → Bool
ipc command = true

abbrev speed_bytes : ℕ → ℕ
speed_bytes f = 1048576

abbrev traffic_bytes : ℕ → ℕ
traffic_bytes f = 1073741824

abbrev free_peer : Peer
free_peer = record new_peer { virtual_ip = 10 * 2 ^ 24 + 4 }

create_peer-CreateOutcome_example :
    CreateOutcome free_peer.virtual_ip transport
      (create_peer ipc speed_bytes traffic_bytes 50 free_peer transport)
create_peer-CreateOutcome_example =
    create_peer-CreateOutcome ipc speed_bytes traffic_bytes 50 free_peer transport transport-IsAwg

not_there : exists_peer new_peer.virtual_ip transport ≡ false
unfolding exists_peer get
not_there = refl

taken : get new_peer.virtual_ip transport.router.table ≡ some remote_route
unfolding get
taken = refl

create_peer-evicts_example :
    ((create_peer ipc speed_bytes traffic_bytes 50 new_peer transport).0 ≡ false)
    × (get new_peer.virtual_ip
          (create_peer ipc speed_bytes traffic_bytes 50 new_peer transport).1.router.table
        ≡ none)
create_peer-evicts_example =
    create_peer-evicts ipc speed_bytes traffic_bytes 50 new_peer transport remote_route
      transport-IsAwg not_there taken refl

watch_peers-IsAwg_example :
    IsAwg (watch_peers ipc 150 transport)
    × ((exists_peer first_ip (watch_peers ipc 150 transport) ≡ true) ↔ (
        (h : ℕ) × (p : AwgPeer) × (get first_ip transport.peers_by_ip ≡ some h)
        × (get h transport.objects ≡ some p)
        × (is_over 150 p ≡ false)))
watch_peers-IsAwg_example = watch_peers-IsAwg ipc 150 first_ip transport transport-IsAwg

first_object : get 1 transport.objects ≡ some first_peer
unfolding get
first_object = refl

watch_peers-reports_example :
    IsReset 1 (watch_peers ipc 150 transport)
    × ((100 < length transport.delta_chan + length transport.peers_by_ip)
        ⊎ In (stats_of first_peer) (watch_peers ipc 150 transport).delta_chan)
    × ((length transport.delta_chan < 100)
        ⊎ ((watch_peers ipc 150 transport).delta_chan ≡ transport.delta_chan))
watch_peers-reports_example =
    watch_peers-reports ipc 150 first_ip 1 transport first_peer (inl refl) first_object
