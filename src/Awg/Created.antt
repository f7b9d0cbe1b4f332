-- ===== src/Awg/Created.antt =====
-- What CreatePeer of pkg/transport/awg/transport.go does, and what it does to the route of
-- another object at the address of the peer.
use liberator_node_go.Prelude.{
  ℕ, ◌<◌, ◌≡◌, ap, ◌∙◌, ◌≢◌, inl, inr, Bool, true, false, none, some, arith, Bytes, nat_eq,
  bytes_eq, Bool-cases,
}
use liberator_node_go.Prelude.Map.{get, get-put}
use liberator_node_go.RoutingTable.{Route}
use liberator_node_go.PeersManager.{Peer}
use liberator_node_go.Awg.{
  Awg, kick_peer, attach, new_object, create_peer, add_command, exists_peer,
}
use liberator_node_go.Awg.Invariant.{
  IsAwg, Alike, Alike-IsAwg, ipc_set_keeps, get-delete_routing_object, kick_peer-IsAwg,
}
use liberator_node_go.Awg.Creation.{
  kick_peer_lem, new_object-IsAwg, object_at, object_of, Attached, attach-Attached,
}

-- The maps stay in agreement, the other peers stay, and the peer is in the transport exactly if
-- no error is returned.
abbrev pub CreateOutcome : ℕ → Awg → Bool × Awg → Type 0
CreateOutcome ip t (ok, t') =
    IsAwg t'
    × ((j : ℕ) → j ≢ ip → get j t'.peers_by_ip ≡ get j t.peers_by_ip)
    × (exists_peer ip t' ≡ ok)

module _ (ipc : Bytes → Bool) (speed_bytes traffic_bytes : ℕ → ℕ) (now : ℕ) (p : Peer) (t : Awg)
    (v : IsAwg t) where
  abbrev kicked : Awg
  kicked = (kick_peer ipc p.virtual_ip t).1

  others : (j : ℕ) → j ≢ p.virtual_ip → get j kicked.peers_by_ip ≡ get j t.peers_by_ip
  others j ne = ground (arith, kick_peer_lem ipc p.virtual_ip j t v)

  after :
      Alike
        (new_object ipc speed_bytes traffic_bytes now p kicked)
        (object_of ipc speed_bytes traffic_bytes now p kicked)
  after = ipc_set_keeps ipc (add_command p.awg_public_key p.virtual_ip) _

  object_maps :
      (object_of ipc speed_bytes traffic_bytes now p kicked).peers_by_ip ≡ kicked.peers_by_ip
  unfolding new_object
  object_maps = let (a, b, c, d, e) = after in b

  object_below :
      kicked.next_handle < (object_of ipc speed_bytes traffic_bytes now p kicked).next_handle
  unfolding new_object
  object_below = let (a, b, c, d, e) = after in omega arith

  object-IsAwg : IsAwg (object_of ipc speed_bytes traffic_bytes now p kicked)
  object-IsAwg = Alike-IsAwg _ _ after (
      new_object-IsAwg ipc speed_bytes traffic_bytes now p kicked
        (kick_peer-IsAwg ipc p.virtual_ip t v))

  attached :
      Attached ipc kicked.next_handle p
        (object_of ipc speed_bytes traffic_bytes now p kicked)
        object-IsAwg
        (object_at ipc speed_bytes traffic_bytes now p kicked)
        object_below
        (attach ipc kicked.next_handle p (object_of ipc speed_bytes traffic_bytes now p kicked))
  attached =
      attach-Attached ipc kicked.next_handle p _ object-IsAwg
        (object_at ipc speed_bytes traffic_bytes now p kicked) object_below

-- In a transport whose maps agree, CreatePeer, also when the device refuses the key or the
-- address has a route, keeps the maps in agreement with each other, with the objects and with the
-- routing table, leaves every other peer in its place, and the transport has the peer exactly if
-- no error is returned.
pub create_peer-CreateOutcome :
    (ipc : Bytes → Bool) (speed_bytes traffic_bytes : ℕ → ℕ) (now : ℕ) (p : Peer) (t : Awg)
    → IsAwg t
    → CreateOutcome p.virtual_ip t (create_peer ipc speed_bytes traffic_bytes now p t)
unfolding create_peer exists_peer new_object
create_peer-CreateOutcome ipc speed_bytes traffic_bytes now p t v =
    let k = (kick_peer ipc p.virtual_ip t).1 in
    let gone = kick_peer_lem ipc p.virtual_ip p.virtual_ip t v in
    let keeps = others ipc speed_bytes traffic_bytes now p t v in
    let maps = object_maps ipc speed_bytes traffic_bytes now p t v in
    let (w, done) = attached ipc speed_bytes traffic_bytes now p t v in
    elim (Bool-cases (ipc (add_command p.awg_public_key p.virtual_ip))) [
      | inr e ↦
          rw (create_peer, e)
            (
              new_object-IsAwg ipc speed_bytes traffic_bytes now p k
                  (kick_peer-IsAwg ipc p.virtual_ip t v),
              keeps,
              ground arith,
            )
      | inl e ↦ elim done [
        | inl (ok, free, m) ↦
            rw (create_peer, e)
              (
                w,
                λ j ne.
                    ap (λ x. get j x) m
                    ∙ ground (
                      arith,
                      get-put p.virtual_ip j k.next_handle
                          (object_of ipc speed_bytes traffic_bytes now p k).peers_by_ip,
                      keeps j ne,
                    ),
                ground (
                  arith,
                  get-put p.virtual_ip p.virtual_ip k.next_handle
                      (object_of ipc speed_bytes traffic_bytes now p k).peers_by_ip,
                ),
              )
        | inr (ok, old, m, r) ↦
            rw (create_peer, e)
              (w, λ j ne. ground (arith, m j, keeps j ne), ground (arith, m p.virtual_ip))
      ]
    ]

-- Let the address of a new peer have a route that is not the transport's, for instance of a
-- client of another node, in a transport whose maps agree. If the device accepts the key,
-- CreatePeer returns an error, and that route is no longer in the routing table.
pub create_peer-evicts :
    (ipc : Bytes → Bool) (speed_bytes traffic_bytes : ℕ → ℕ) (now : ℕ) (p : Peer) (t : Awg)
    (other : Route)
    → IsAwg t
    → exists_peer p.virtual_ip t ≡ false
    → get p.virtual_ip t.router.table ≡ some other
    → ipc (add_command p.awg_public_key p.virtual_ip) ≡ true
    → ((create_peer ipc speed_bytes traffic_bytes now p t).0 ≡ false)
      × (get p.virtual_ip (create_peer ipc speed_bytes traffic_bytes now p t).1.router.table ≡ none)
unfolding create_peer exists_peer new_object kick_peer attach
create_peer-evicts ipc speed_bytes traffic_bytes now p t other v free taken accepted =
    let absent : get p.virtual_ip t.peers_by_ip ≡ none = ground arith in
    let k : kick_peer ipc p.virtual_ip t ≡ (false, t) = rw (kick_peer, absent) in
    let o = object_of ipc speed_bytes traffic_bytes now p (kick_peer ipc p.virtual_ip t).1 in
    let (a, b, c, d, e) = after ipc speed_bytes traffic_bytes now p t v in
    let same : o.router ≡ t.router = e ∙ ap (λ q. q.1.router) k in
    let (w, done) = attached ipc speed_bytes traffic_bytes now p t v in
    rw (create_peer, accepted)
      (elim done [
        | inl (ok, free, m) ↦ absurd (cc (taken, free, same))
        | inr (ok, old, m, r) ↦ (
          ok,
          ap (λ q. get p.virtual_ip q.table) r
              ∙ ground (arith, get-delete_routing_object p.virtual_ip p.virtual_ip o.router),
        )
      ])
