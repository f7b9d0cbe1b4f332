-- ===== src/Topology/Tests.antt =====
-- Two nodes at one address: the fresher one displaces the other, an older one is refused.
use liberator_node_go.Prelude.{
  ◌<◌, ◌≡◌, refl, ap, ◌≢◌, inl, inr, none, some, [], ◌∷◌, arith, Bytes, codes, bytes_beq, nat_eq,
  bytes_eq, Bool-cases,
}
use liberator_node_go.Prelude.Map.{get, put, erase}
use liberator_node_go.Topology.Types.{PeerInfo, State}
use liberator_node_go.Topology.{
  new, notify, conflict_loop, delete_all, resolve_address_conflict, settle, notify_left,
  insert_merge,
}
use liberator_node_go.Topology.Conflict.{IsClean}
use liberator_node_go.Topology.Ownership.{insert_merge-IsClean}
use liberator_node_go.Topology.Newcomer.{insert_merge-newcomer}

abbrev old_peer : PeerInfo
old_peer = record { id = codes "old"; address = codes "10.0.0.1:7000"; last_seen = 100 }

abbrev young_peer : PeerInfo
young_peer = record { id = codes "young"; address = codes "10.0.0.1:7000"; last_seen = 200 }

abbrev ghost_peer : PeerInfo
ghost_peer = record { id = codes "ghost"; address = codes "10.0.0.1:7000"; last_seen = 50 }

new-IsClean : IsClean new.peers
unfolding new get
new-IsClean = record { keys = tt; own_id = λ id p g. cc; one_owner = λ i j p q g h a e. cc }

abbrev store : State
store = (insert_merge old_peer new).1

store-IsClean : IsClean store.peers
store-IsClean = insert_merge-IsClean old_peer new new-IsClean

store_lem : store.peers ≡ (old_peer.id, old_peer) ∷ []
unfolding new insert_merge settle resolve_address_conflict conflict_loop delete_all notify
    notify_left get put erase
store_lem = refl

only_old : (id : Bytes) (p : PeerInfo) → get id store.peers ≡ some p → p ≡ old_peer
unfolding get
only_old id p g =
    let h : get id ((old_peer.id, old_peer) ∷ []) ≡ some p = rw store_lem at g in
    elim (Bool-cases (bytes_beq old_peer.id id)) [
      | inl e ↦ ground arith
      | inr e ↦ absurd (ground arith)
    ]

young_unknown : get young_peer.id store.peers ≡ none
unfolding new insert_merge settle resolve_address_conflict conflict_loop delete_all notify
    notify_left get put erase
young_unknown = refl

ghost_unknown : get ghost_peer.id store.peers ≡ none
unfolding new insert_merge settle resolve_address_conflict conflict_loop delete_all notify
    notify_left get put erase
ghost_unknown = refl

old_known : get old_peer.id store.peers ≡ some old_peer
unfolding new insert_merge settle resolve_address_conflict conflict_loop delete_all notify
    notify_left get put erase
old_known = refl

young_named : young_peer.id ≢ []
young_named = λ e. cc

young_filled : young_peer.address ≢ []
young_filled = λ e. cc

ghost_named : ghost_peer.id ≢ []
ghost_named = λ e. cc

ghost_filled : ghost_peer.address ≢ []
ghost_filled = λ e. cc

older :
    (id : Bytes) (p : PeerInfo)
    → (get id store.peers ≡ some p) × (p.address ≡ young_peer.address)
    → p.last_seen < young_peer.last_seen
older id p (g, a) = let e = ap (λ (x : PeerInfo). x.last_seen) (only_old id p g) in omega arith

ghost_staler : ghost_peer.last_seen < old_peer.last_seen
ghost_staler = omega arith

insert_merge-newcomer_example :
    (get young_peer.id (insert_merge young_peer store).1.peers ≡ some young_peer)
    × ((id : Bytes) (p : PeerInfo)
        → get id store.peers ≡ some p
        → p.address ≡ young_peer.address
        → get id (insert_merge young_peer store).1.peers ≡ none)
insert_merge-newcomer_example =
    insert_merge-newcomer young_peer store store-IsClean young_named young_unknown young_filled
      older
