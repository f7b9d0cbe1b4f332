-- ===== src/Discovery.antt =====
-- pkg/mesh/discovery/syncer.go and server.go: what a node does with the peers that others tell
-- it of. A call of connect that is started is an address in the result; the dial itself is left
-- out. `remote` is the remote address of a session's connection.
pub mod History
pub mod Expiry
pub mod Tests
use liberator_node_go.Prelude.{
  ℕ, zero, suc, ◌+◌, ◌-◌, ◌*◌, ◌/◌, ◌%◌, ◌^◌, ◌≤◌, ◌<◌, bit_and, bit_or, bit_xor, ◌≡◌, refl, sym,
  ap, subst, ◌∙◌, ◌≢◌, ◌↔◌, ◌⊎◌, inl, inr, Bool, true, false, not, ◌&&◌, ◌||◌, Option, none, some,
  List, [], ◌∷◌, ◌++◌, map, arith, if◌then◌else◌, ltb, leb, ◌==◌, bool_beq, bytes_ltb,
  bytes_ltb_flip, bytes_ltb_irrefl, Bytes, codes, bytes_beq, bytes_beq_iff, keep, length, nat_eq,
  bytes_eq, ==_iff, Bool-cases, Option-cases, In, All,
}
use liberator_node_go.Prelude.Map.{get, put, erase}
use liberator_node_go.Topology
use liberator_node_go.Topology.Types.{PeerInfo, PeerEvent, EventType, joined, updated, left, State}
use liberator_node_go.Session
use liberator_node_go.Session.{Session, Registry}

-- peerRefreshInterval and peerTTL, in nanoseconds
abbrev pub peer_refresh_interval : ℕ
peer_refresh_interval = 30 * 1000000000

abbrev pub peer_ttl : ℕ
peer_ttl = 30 * 60 * 1000000000

-- Whether there is a session with this peer.
unfoldable pub is_active : Bytes → Registry → Bool
is_active id reg = elim (Session.get_session id reg) [ none ↦ false | some s ↦ true ]

-- The first loop of refreshPeers: the addresses in use, and the peers.
unfoldable pub refresh_sessions :
    (Session → Bytes) → ℕ → List Session → List (Bytes × Bool) × State → List (Bytes × Bool) × State
refresh_sessions remote now [] a = a
refresh_sessions remote now (s ∷ ss) (connected, st) =
    let connected' = put (remote s) true connected in
    refresh_sessions remote now ss (elim (Topology.get_peer s.peer_id st) [
      | some p ↦ if ltb now (p.last_seen + peer_refresh_interval) then (connected', st) else (
        connected',
        (Topology.insert_merge (record { id = s.peer_id; address = p.address; last_seen = now })
            st).1,
      )
      | none ↦ (
        connected',
        (Topology.insert_merge (record { id = s.peer_id; address = []; last_seen = now }) st).1,
      )
    ])

-- The second loop of refreshPeers, over the list of peers: the addresses to connect to, and the
-- peers.
unfoldable pub refresh_known :
    Bytes → ℕ → Registry → List (Bytes × Bool) → List PeerInfo → State → List Bytes × State
refresh_known local now reg connected [] st = ([], st)
refresh_known local now reg connected (p ∷ ps) st =
    let skipped = bytes_beq p.id local || is_active p.id reg in
    let stale = ltb (p.last_seen + peer_ttl) now in
    let (dials, st') =
      refresh_known local now reg connected ps
        (if not skipped && stale then Topology.remove p.id st else st) in
    if skipped || stale then (dials, st') else elim (get p.address connected) [
      | some busy ↦ (dials, st')
      | none ↦ (p.address ∷ dials, st')
    ]

-- refreshPeers at the time `now`
unfoldable pub refresh_peers : Bytes → (Session → Bytes) → ℕ → Registry → State → List Bytes × State
refresh_peers local remote now reg st =
    let (connected, st') = refresh_sessions remote now (Session.list_active reg) ([], st) in
    refresh_known local now reg connected (Topology.list_peers st') st'

-- The body of listenForNewPeers: the address to connect to.
unfoldable pub on_peer_event : Bytes → Registry → PeerEvent → Option Bytes
on_peer_event local reg ev = elim ev.kind [
  | updated ↦ none
  | left ↦ none
  | joined ↦
      if is_active ev.update.id reg
      then none
      else if bytes_ltb local ev.update.id
      then none
      else if bytes_beq ev.update.id local
      then none
      else some ev.update.address
]

-- startDial and finishDial
unfoldable pub start_dial : Bytes → List (Bytes × Bool) → Bool × List (Bytes × Bool)
start_dial addr dialing = elim (get addr dialing) [
  | some busy ↦ (false, dialing)
  | none ↦ (true, put addr true dialing)
]

unfoldable pub finish_dial : Bytes → List (Bytes × Bool) → List (Bytes × Bool)
finish_dial addr dialing = erase addr dialing

-- proto.PeerEvent as the discovery stream carries it.
pub data StreamEvent : Type 0 where
  sync_peers : List PeerInfo → StreamEvent
  peer_joined peer_updated peer_left : Option PeerInfo → StreamEvent

-- The loop over the dump.
unfoldable pub merge_peers : List PeerInfo → State → State
merge_peers [] st = st
merge_peers (p ∷ ps) st = merge_peers ps (Topology.insert_merge p st).1

-- The body of the receive loop of streamDiscoveryData.
unfoldable pub handle_peer_event : Registry → StreamEvent → State → State
handle_peer_event reg (sync_peers ps) st = merge_peers ps st
handle_peer_event reg (peer_joined none) st = st
handle_peer_event reg (peer_joined (some p)) st = (Topology.insert_merge p st).1
handle_peer_event reg (peer_updated none) st = st
handle_peer_event reg (peer_updated (some p)) st = (Topology.insert_merge p st).1
handle_peer_event reg (peer_left none) st = st
handle_peer_event reg (peer_left (some p)) st =
    if is_active p.id reg then st else Topology.remove p.id st

-- buildSyncEvent of server.go
unfoldable pub build_sync_event : State → StreamEvent
build_sync_event st = sync_peers (Topology.list_peers st)
