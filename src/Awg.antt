-- ===== src/Awg.antt =====
-- pkg/transport/awg: the peers of the AmneziaWG transport (transport.go, peer.go) and the packets
-- that its device reads and writes (virtualtun.go). The device is a parameter: whether it accepts
-- a command of IpcSet. So are the conversions of limits from float64. A peer is an object that
-- both maps of the transport and the routing table point to, by its handle.
pub mod Tests
pub mod Invariant
pub mod Traffic
pub mod Created
pub mod Interface
pub mod Watch
pub mod Creation
use liberator_node_go.Prelude.{
  ℕ, zero, suc, ◌+◌, ◌-◌, ◌*◌, ◌/◌, ◌%◌, ◌^◌, ◌≤◌, ◌<◌, bit_and, bit_or, bit_xor, ◌≡◌, refl, sym,
  ap, subst, ◌∙◌, ◌≢◌, ◌↔◌, ◌⊎◌, inl, inr, Bool, true, false, not, ◌&&◌, ◌||◌, Option, none, some,
  List, [], ◌∷◌, ◌++◌, map, arith, if◌then◌else◌, ltb, leb, ◌==◌, bool_beq, bytes_ltb,
  bytes_ltb_flip, bytes_ltb_irrefl, Bytes, codes, bytes_beq, bytes_beq_iff, keep, length, nat_eq,
  bytes_eq, ==_iff, Bool-cases, Option-cases, In, All,
}
use liberator_node_go.Prelude.Map.{get, put, erase}
use liberator_node_go.Dgmessage.{HoleInfo, Message, Outcome, ok, err, panic, new_message_copy_from}
use liberator_node_go.Firewall.Keys.Decimal.{decimal}
use liberator_node_go.RoutingTable.{Route}
use liberator_node_go.RoutingTable.Shaped.{Shape, new_shaped_route}
use liberator_node_go.Router
use liberator_node_go.Router.{Router}
use liberator_node_go.PeersManager.{Peer, TransportPeerStats}

-- Uint32ToIPString of internal/utils/netutils/ip.go
unfoldable pub uint32_to_ip_string : ℕ → Bytes
uint32_to_ip_string n =
    decimal (n / 2 ^ 24 % 2 ^ 8)
    ++ codes "."
    ++ decimal (n / 2 ^ 16 % 2 ^ 8)
    ++ codes "."
    ++ decimal (n / 2 ^ 8 % 2 ^ 8)
    ++ codes "."
    ++ decimal (n % 2 ^ 8)

-- AWGPeer
pub record AwgPeer : Type 0 where
  pub node_id : Bytes
  pub virtual_ip : ℕ
  pub pub_key : Bytes
  pub last_seen : ℕ
  pub expiration : Option ℕ
  pub total_to_peer : ℕ
  pub total_from_peer : ℕ

-- AWGTransport with its ChannelTun and the router: the objects by handle, the limits of those
-- that are shaped, the maps peersByIP and channelTun.peers, the commands that the device took,
-- the stats in deltaChan, the packets in `in`, and what was handed to HandleTransportPacket.
pub record Awg : Type 0 where
  pub node_id : Bytes
  pub objects : List (ℕ × AwgPeer)
  pub shapes : List (ℕ × Shape)
  pub next_handle : ℕ
  pub peers_by_ip : List (ℕ × ℕ)
  pub tun_peers : List (ℕ × ℕ)
  pub router : Router
  pub device : List Bytes
  pub delta_chan : List TransportPeerStats
  pub inbox : List Bytes
  pub handed : List Message

-- ExistsPeer
unfoldable pub exists_peer : ℕ → Awg → Bool
exists_peer ip t = elim (get ip t.peers_by_ip) [ none ↦ false | some h ↦ true ]

-- The commands of CreatePeer and removePeerInternal.
unfoldable pub add_command : Bytes → ℕ → Bytes
add_command key ip =
    codes "public_key=" ++ key ++ codes "\nallowed_ip=" ++ uint32_to_ip_string ip ++ codes "/32\n"

unfoldable pub remove_command : Bytes → Bytes
remove_command key = codes "public_key=" ++ key ++ codes "\nremove=true\n"

-- NewAWGPeer at the time `now`
unfoldable pub new_awg_peer : ℕ → Bytes → Peer → AwgPeer
new_awg_peer now node p = record {
  node_id = node;
  virtual_ip = p.virtual_ip;
  pub_key = p.awg_public_key;
  last_seen = now;
  expiration = p.expiration_date;
  total_to_peer = 0;
  total_from_peer = 0;
}

-- ig.deltaChan <- stats, in a select with a default: the channel has 100 places.
unfoldable pub offer_stats : TransportPeerStats → List TransportPeerStats → List TransportPeerStats
offer_stats stats queue = if ltb (length queue) 100 then queue ++ stats ∷ [] else queue

-- What watchPeers reports of a peer, and the peer with its counters swapped to 0.
unfoldable pub stats_of : AwgPeer → TransportPeerStats
stats_of p = record {
  virtual_ip = p.virtual_ip;
  delta_to_peer = p.total_to_peer;
  delta_from_peer = p.total_from_peer;
  last_seen = p.last_seen;
}

unfoldable pub reset_totals : AwgPeer → AwgPeer
reset_totals p = record p { total_to_peer = 0; total_from_peer = 0 }

unfoldable pub is_over : ℕ → AwgPeer → Bool
is_over now p = elim p.expiration [ none ↦ false | some date ↦ ltb date now ]

-- The callback of watchPeers: the counters are swapped before the select looks at the channel.
unfoldable pub report : ℕ → Awg → Awg
report h t = elim (get h t.objects) [
  | none ↦ t
  | some p ↦ record t {
    objects = put h (reset_totals p) t.objects;
    delta_chan = offer_stats (stats_of p) t.delta_chan;
  }
]

unfoldable pub report_all : List (ℕ × ℕ) → Awg → Awg
report_all [] t = t
report_all ((ip, h) ∷ rest) t = report_all rest (report h t)

-- The peers that watchPeers deletes.
unfoldable pub to_delete : ℕ → List (ℕ × ℕ) → Awg → List ℕ
to_delete now [] t = []
to_delete now ((ip, h) ∷ rest) t =
    let hs = to_delete now rest t in
    elim (get h t.objects) [ none ↦ hs | some p ↦ if is_over now p then h ∷ hs else hs ]

-- Whether CreatePeer wraps the object.
unfoldable pub shape_for : Option ℕ → Option ℕ → Option Shape
shape_for none none = none
shape_for (some speed) traffic = some (new_shaped_route (some speed) traffic)
shape_for none (some traffic) = some (new_shaped_route none (some traffic))

module _ (ipc : Bytes → Bool) where
  -- awgDevice.IpcSet
  unfoldable pub ipc_set : Bytes → Awg → Awg
  ipc_set command t = if ipc command then record t { device = t.device ++ command ∷ [] } else t

  -- removePeerInternal of the object with this handle
  unfoldable pub remove_peer_internal : ℕ → Awg → Awg
  remove_peer_internal h t = elim (get h t.objects) [
    | none ↦ t
    | some p ↦ ipc_set (remove_command p.pub_key) (record t {
      router = Router.delete_routing_object p.virtual_ip t.router;
      peers_by_ip = erase p.virtual_ip t.peers_by_ip;
      tun_peers = erase p.virtual_ip t.tun_peers;
    })
  ]

  -- KickPeer
  unfoldable pub kick_peer : ℕ → Awg → Bool × Awg
  kick_peer ip t = elim (get ip t.peers_by_ip) [
    | none ↦ (false, t)
    | some h ↦ (true, remove_peer_internal h t)
  ]

  -- The loop at the end of watchPeers.
  unfoldable pub remove_all : List ℕ → Awg → Awg
  remove_all [] t = t
  remove_all (h ∷ hs) t = remove_all hs (remove_peer_internal h t)

  -- watchPeers at the time `now`; a callback that reads one peer does not change another.
  unfoldable pub watch_peers : ℕ → Awg → Awg
  watch_peers now t = remove_all (to_delete now t.peers_by_ip t) (report_all t.peers_by_ip t)

  -- CreatePeer from the object on: the device took the command.
  unfoldable pub attach : ℕ → Peer → Awg → Bool × Awg
  attach h p t =
      let (added, router) =
        Router.add_routing_object
          (record { handle = h; node_id = t.node_id; virtual_ip = p.virtual_ip }) t.router in
      let t' = record t {
        peers_by_ip = put p.virtual_ip h t.peers_by_ip;
        tun_peers = put p.virtual_ip h t.tun_peers;
        router = router;
      } in
      if added then (true, t') else (false, remove_peer_internal h t')

  -- uint64 of the limits, in bytes: (*SpeedLimitMbps) * 1024 * 1024 and
  -- *TrafficLimitGb * 1024 * 1024 * 1024
  module _ (speed_bytes traffic_bytes : ℕ → ℕ) where
    unfoldable pub speed_limit : Peer → Option ℕ
    speed_limit p = elim p.speed_limit_mbps [ none ↦ none | some f ↦ some (speed_bytes f % 2 ^ 64) ]

    -- The traffic so far is subtracted in uint64.
    unfoldable pub traffic_limit : Peer → Option ℕ
    traffic_limit p = elim p.traffic_limit_gb [
      | none ↦ none
      | some f ↦
          let used = (p.from_peer_total + p.to_peer_total) % 2 ^ 64 in
          some ((traffic_bytes f % 2 ^ 64 + (2 ^ 64 - used)) % 2 ^ 64)
    ]

    -- The limits of a shaped object, if the peer has any.
    unfoldable pub shape_of : Peer → Option Shape
    shape_of p = shape_for (speed_limit p) (traffic_limit p)

    -- The object of CreatePeer, with a handle of its own.
    unfoldable pub new_object : ℕ → Peer → Awg → Awg
    new_object now p t = record t {
      objects = put t.next_handle (new_awg_peer now t.node_id p) t.objects;
      next_handle = t.next_handle + 1;
      shapes = elim (shape_of p) [ none ↦ t.shapes | some s ↦ put t.next_handle s t.shapes ];
    }

    -- CreatePeer at the time `now`
    unfoldable pub create_peer : ℕ → Peer → Awg → Bool × Awg
    create_peer now p t =
        let kicked = (kick_peer p.virtual_ip t).1 in
        let t' = new_object now p kicked in
        let command = add_command p.awg_public_key p.virtual_ip in
        if ipc command then attach kicked.next_handle p (ipc_set command t') else (false, t')

-- SendDatagram of a peer, by its handle: `takes` tells that the channel `in` takes the packet
-- before the transport is closed.
unfoldable pub send_datagram : Bool → ℕ → Bytes → Awg → Bool × Awg
send_datagram takes h payload t = elim (get h t.objects) [
  | none ↦ (false, t)
  | some p ↦
      let t' = record t {
        objects =
            put h (record p { total_to_peer = (p.total_to_peer + length payload) % 2 ^ 64 })
              t.objects;
      } in
      if takes then (true, record t' { inbox = t'.inbox ++ payload ∷ [] }) else (false, t')
]

-- time.Second, in nanoseconds
abbrev pub second : ℕ
second = 1000000000

-- The counters of the sender in Write, at the time `now`.
unfoldable pub count_from : ℕ → ℕ → AwgPeer → AwgPeer
count_from now size p = record p {
  last_seen = (if ltb (p.last_seen + second) now then now else p.last_seen);
  total_from_peer = (p.total_from_peer + size) % 2 ^ 64;
}

unfoldable pub count_sender : ℕ → ℕ → ℕ → Awg → Awg
count_sender now src size t = elim (get src t.tun_peers) [
  | none ↦ t
  | some h ↦ elim (get h t.objects) [
    | none ↦ t
    | some p ↦ record t { objects = put h (count_from now size p) t.objects }
  ]
]

-- One packet of Write, on what NewMessageCopyFrom gave.
unfoldable pub hand_over : ℕ → ℕ → Outcome Message → Awg → Awg
hand_over now size (ok msg) t =
    let t' = count_sender now msg.hole_info.src_ip size t in
    record t' { handed = t'.handed ++ msg ∷ [] }
hand_over now size (err e) t = t
hand_over now size panic t = t

-- Write of ChannelTun on packets that start at the offset: it returns 0 whatever it took.
unfoldable pub write : ℕ → ℕ → List Bytes → Awg → ℕ × Awg
write max_size now [] t = (0, t)
write max_size now (packet ∷ packets) t =
    write max_size now packets
      (hand_over now (length packet) (new_message_copy_from max_size packet) t)
