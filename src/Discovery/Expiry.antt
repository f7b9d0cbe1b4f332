-- ===== src/Discovery/Expiry.antt =====
-- Which peers refreshPeers of pkg/mesh/discovery/syncer.go forgets, and what it keeps of the
-- order of the store.
use liberator_node_go.Prelude.{
  ℕ, ◌+◌, ◌≡◌, refl, ◌≢◌, inl, inr, Bool, true, false, not, ◌&&◌, ◌||◌, Option, none, some, List,
  [], ◌∷◌, map, arith, if◌then◌else◌, ltb, Bytes, bytes_beq, bytes_beq_iff, nat_eq, bytes_eq,
  Bool-cases, Option-cases, In,
}
use liberator_node_go.Prelude.Map.{get, put, get-erase, Keys, In-get}
use liberator_node_go.Topology.{get_peer, list_peers, notify, insert_merge, remove}
use liberator_node_go.Topology.Types.{PeerInfo, State}
use liberator_node_go.Topology.Conflict.{IsClean}
use liberator_node_go.Topology.Ownership.{insert_merge-IsClean, remove-IsClean}
use liberator_node_go.Session
use liberator_node_go.Session.{Session, Registry}
use liberator_node_go.Discovery.{
  peer_ttl, peer_refresh_interval, is_active, refresh_sessions, refresh_known, refresh_peers,
  merge_peers, StreamEvent, sync_peers, peer_joined, peer_updated, peer_left, handle_peer_event,
}

-- A peer that is not this node, without a session, not heard of for longer than the limit.
abbrev pub expired : Bytes → ℕ → Registry → PeerInfo → Bool
expired local now reg p =
    not (bytes_beq p.id local || is_active p.id reg) && ltb (p.last_seen + peer_ttl) now

get-remove :
    (j id : Bytes) (st : State)
    → id ≢ []
    → get id (remove j st).peers ≡ (if bytes_beq j id then none else get id st.peers)
unfolding remove notify
get-remove j id st ne = elim (Bool-cases (bytes_beq j [])) [
  | inl e ↦ ground (arith, bytes_beq_iff j [], bytes_beq_iff j id)
  | inr e ↦ elim (Option-cases (get j st.peers)) [
    | inl g ↦ ground (arith, bytes_beq_iff j id)
    | inr (p, g) ↦ ground (arith, get-erase j id st.peers)
  ]
]

-- Some peer of a list has this id and is expired.
abbrev any_expired : Bytes → ℕ → Registry → Bytes → List PeerInfo → Bool
any_expired local now reg id [] = false
any_expired local now reg id (p ∷ ps) =
    (bytes_beq p.id id && expired local now reg p) || any_expired local now reg id ps

refresh_known-at :
    (local : Bytes) (now : ℕ) (reg : Registry) (connected : List (Bytes × Bool))
    (ps : List PeerInfo) (st : State) (id : Bytes)
    → id ≢ []
    → get id (refresh_known local now reg connected ps st).1.peers
      ≡ (if any_expired local now reg id ps then none else get id st.peers)
unfolding refresh_known
refresh_known-at local now reg connected [] st id ne = refl
refresh_known-at local now reg connected (p ∷ ps) st id ne = ground (
  arith,
  refresh_known-at local now reg connected ps
      (if expired local now reg p then remove p.id st else st) id ne,
  get-remove p.id id st ne,
)

abbrev OwnIds : List (Bytes × PeerInfo) → Type 0
OwnIds peers = (id : Bytes) (p : PeerInfo) → In (id, p) peers → p.id ≡ id

any_expired-none :
    (local : Bytes) (now : ℕ) (reg : Registry) (id : Bytes) (peers : List (Bytes × PeerInfo))
    → OwnIds peers
    → get id peers ≡ none
    → any_expired local now reg id (map (λ kp. kp.1) peers) ≡ false
unfolding get
any_expired-none local now reg id [] o e = refl
any_expired-none local now reg id ((j, p) ∷ peers) o e = ground (
  arith,
  o j p (inl refl),
  bytes_beq_iff j id,
  bytes_beq_iff p.id id,
  any_expired-none local now reg id peers (λ i q h. o i q (inr h)),
)

-- What the second loop leaves of an entry.
abbrev pub kept : Bytes → ℕ → Registry → Option PeerInfo → Option PeerInfo
kept local now reg none = none
kept local now reg (some p) = if expired local now reg p then none else some p

is_expired : Bytes → ℕ → Registry → Option PeerInfo → Bool
is_expired local now reg none = false
is_expired local now reg (some p) = expired local now reg p

any_expired-peers :
    (local : Bytes) (now : ℕ) (reg : Registry) (id : Bytes) (peers : List (Bytes × PeerInfo))
    → Keys peers
    → OwnIds peers
    → any_expired local now reg id (map (λ kp. kp.1) peers)
      ≡ is_expired local now reg (get id peers)
unfolding get is_expired
any_expired-peers local now reg id [] k o = refl
any_expired-peers local now reg id ((j, p) ∷ peers) (k, ks) o = ground (
  arith,
  o j p (inl refl),
  bytes_beq_iff j id,
  bytes_beq_iff p.id id,
  any_expired-none local now reg id peers (λ i q h. o i q (inr h)),
  any_expired-peers local now reg id peers ks (λ i q h. o i q (inr h)),
)

-- For every id but the empty one, the second loop of refreshPeers over the peers of a clean store
-- forgets the entry under the id exactly when it is not this node's, there is no session with its
-- peer, and it was not heard of for more than the limit; else the entry stays as it is.
pub refresh_known-list :
    (local : Bytes) (now : ℕ) (reg : Registry) (connected : List (Bytes × Bool)) (st : State)
    (id : Bytes)
    → id ≢ []
    → IsClean st.peers
    → get_peer id (refresh_known local now reg connected (list_peers st) st).1
      ≡ kept local now reg (get_peer id st)
unfolding get_peer list_peers is_expired
refresh_known-list local now reg connected st id ne v =
    let own : OwnIds st.peers = λ i p h. v.own_id i p (In-get i p st.peers v.keys h) in
    ground (
      arith,
      refresh_known-at local now reg connected (list_peers st) st id ne,
      any_expired-peers local now reg id st.peers v.keys own,
    )

refresh_sessions-IsClean :
    (remote : Session → Bytes) (now : ℕ) (ss : List Session) (connected : List (Bytes × Bool))
    (st : State)
    → IsClean st.peers
    → IsClean (refresh_sessions remote now ss (connected, st)).1.peers
unfolding refresh_sessions
refresh_sessions-IsClean remote now [] connected st v = v
refresh_sessions-IsClean remote now (s ∷ ss) connected st v =
    elim (Option-cases (get_peer s.peer_id st)) [
      | inl e ↦
          rw (e, refresh_sessions)
            (refresh_sessions-IsClean remote now ss (put (remote s) true connected) _ (
              insert_merge-IsClean (record { id = s.peer_id; address = []; last_seen = now }) st v))
      | inr (p, e) ↦ elim (Bool-cases (ltb now (p.last_seen + peer_refresh_interval))) [
        | inl q ↦
            rw (e, q, refresh_sessions)
              (refresh_sessions-IsClean remote now ss (put (remote s) true connected) st v)
        | inr q ↦
            rw (e, q, refresh_sessions)
              (refresh_sessions-IsClean remote now ss (put (remote s) true connected) _ (
                insert_merge-IsClean
                  (record { id = s.peer_id; address = p.address; last_seen = now }) st v))
      ]
    ]

refresh_known-IsClean :
    (local : Bytes) (now : ℕ) (reg : Registry) (connected : List (Bytes × Bool))
    (ps : List PeerInfo) (st : State)
    → IsClean st.peers
    → IsClean (refresh_known local now reg connected ps st).1.peers
unfolding refresh_known
refresh_known-IsClean local now reg connected [] st v = v
refresh_known-IsClean local now reg connected (p ∷ ps) st v = ground (
  arith,
  remove-IsClean p.id st v,
  refresh_known-IsClean local now reg connected ps
      (if expired local now reg p then remove p.id st else st),
)

-- A round of refreshPeers keeps the store clean.
pub refresh_peers-IsClean :
    (local : Bytes) (remote : Session → Bytes) (now : ℕ) (reg : Registry) (st : State)
    → IsClean st.peers
    → IsClean (refresh_peers local remote now reg st).1.peers
unfolding refresh_peers
refresh_peers-IsClean local remote now reg st v =
    refresh_known-IsClean local now reg _ _ _
      (refresh_sessions-IsClean remote now (Session.list_active reg) [] st v)

merge_peers-IsClean :
    (ps : List PeerInfo) (st : State) → IsClean st.peers → IsClean (merge_peers ps st).peers
unfolding merge_peers
merge_peers-IsClean [] st v = v
merge_peers-IsClean (p ∷ ps) st v =
    merge_peers-IsClean ps (insert_merge p st).1 (insert_merge-IsClean p st v)

-- An event of the discovery stream of any peer, whatever it holds, keeps the store clean.
pub handle_peer_event-IsClean :
    (reg : Registry) (ev : StreamEvent) (st : State)
    → IsClean st.peers
    → IsClean (handle_peer_event reg ev st).peers
unfolding handle_peer_event
handle_peer_event-IsClean reg (sync_peers ps) st v = merge_peers-IsClean ps st v
handle_peer_event-IsClean reg (peer_joined none) st v = v
handle_peer_event-IsClean reg (peer_joined (some p)) st v = insert_merge-IsClean p st v
handle_peer_event-IsClean reg (peer_updated none) st v = v
handle_peer_event-IsClean reg (peer_updated (some p)) st v = insert_merge-IsClean p st v
handle_peer_event-IsClean reg (peer_left none) st v = v
handle_peer_event-IsClean reg (peer_left (some p)) st v = elim (Bool-cases (is_active p.id reg)) [
  | inl e ↦ rw (e, handle_peer_event) v
  | inr e ↦ rw (e, handle_peer_event) (remove-IsClean p.id st v)
]
