-- ===== src/Discovery/Tests.antt =====
-- A store with a fresh peer and a stale one.
use liberator_node_go.Prelude.{
  ℕ, ◌≡◌, refl, sym, ap, ◌∙◌, ◌≢◌, inl, inr, false, some, [], ◌∷◌, arith, Bytes, codes, bytes_beq,
  bytes_beq_iff, nat_eq, bytes_eq, Bool-cases,
}
use liberator_node_go.Prelude.Map.{get}
use liberator_node_go.Topology.{get_peer, list_peers}
use liberator_node_go.Topology.Types.{PeerInfo, State}
use liberator_node_go.Topology.Conflict.{IsClean}
use liberator_node_go.Session.{Session, Registry}
use liberator_node_go.Discovery.{refresh_known, sync_peers}
use liberator_node_go.Discovery.Expiry.{kept, refresh_known-list}
use liberator_node_go.Discovery.History.{merged, removed, refreshed, streamed, run, run-new-IsClean}
use liberator_node_go.Topology.{new}

abbrev local : Bytes
local = codes "node-a"

abbrev fresh_peer : PeerInfo
fresh_peer = record { id = codes "node-b"; address = codes "b:7000"; last_seen = 9000000000000 }

abbrev stale_peer : PeerInfo
stale_peer = record { id = codes "node-c"; address = codes "c:7000"; last_seen = 1000 }

abbrev store : State
store = record { peers = (stale_peer.id, stale_peer) ∷ []; subs = [] }

abbrev now : ℕ
now = 9000000000001

abbrev registry : Registry
registry = record { local_id = local; sessions = []; subs = []; closed = false; dead = [] }

store-IsClean : IsClean store.peers
unfolding get
store-IsClean = record {
  keys = (refl, tt);
  own_id = λ id p g. own id p g;
  one_owner = λ i j p q g h a e.
      let x = only i p g in let y = only j q h in ap (λ (z : PeerInfo). z.last_seen) (x ∙ sym y);
}
  where
    only : (id : Bytes) (p : PeerInfo) → get id store.peers ≡ some p → p ≡ stale_peer
    only id p g = elim (Bool-cases (bytes_beq stale_peer.id id)) [
      | inl e ↦ ground arith
      | inr e ↦ absurd (ground arith)
    ]

    own : (id : Bytes) (p : PeerInfo) → get id store.peers ≡ some p → p.id ≡ id
    own id p g = elim (Bool-cases (bytes_beq stale_peer.id id)) [
      | inl e ↦ ap (λ (z : PeerInfo). z.id) (only id p g) ∙ (bytes_beq_iff stale_peer.id id).0 e
      | inr e ↦ absurd (ground arith)
    ]

stale_named : stale_peer.id ≢ []
stale_named e = cc

refresh_known-list_example :
    get_peer stale_peer.id (refresh_known local now registry [] (list_peers store) store).1
    ≡ kept local now registry (get_peer stale_peer.id store)
refresh_known-list_example =
    refresh_known-list local now registry [] store stale_peer.id stale_named store-IsClean

abbrev remote_address : Session → Bytes
remote_address s = s.peer_id

run-new-IsClean_example :
    IsClean
      (run local remote_address
        (merged stale_peer
          ∷ streamed registry (sync_peers (fresh_peer ∷ []))
          ∷ refreshed now registry
          ∷ removed fresh_peer.id
          ∷ [])
        new).peers
run-new-IsClean_example = run-new-IsClean local remote_address (
    merged stale_peer
    ∷ streamed registry (sync_peers (fresh_peer ∷ []))
    ∷ refreshed now registry
    ∷ removed fresh_peer.id
    ∷ [])
