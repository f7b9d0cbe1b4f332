-- ===== src/PeersManager/Attached.antt =====
-- syncPeers of pkg/services/peersmanager attaches the peers of the database to their transports.
use liberator_node_go.Prelude.{
  ℕ, ◌%◌, ◌^◌, ◌≡◌, refl, sym, subst, ◌∙◌, ◌≢◌, ◌⊎◌, inl, inr, Bool, true, false, none, some, List,
  [], ◌∷◌, ◌++◌, arith, Bytes, bytes_beq, bytes_beq_iff, nat_eq, bytes_eq, Bool-cases, Option-cases,
}
use liberator_node_go.Prelude.Map.{get, put, get-put}
use liberator_node_go.Database.{PeerRow}
use liberator_node_go.FirewallManager
use liberator_node_go.FirewallManager.{Manager}
use liberator_node_go.PeersManager.{
  Peer, PeersManager, Transport, is_expired, peer_from_row, sync_row, sync_rows, sync_peers,
}
use liberator_node_go.PeersManager.Laws.{Laws, Has}

module _ {T : Type 0} (ops : Transport T) (laws : Laws ops) where
  -- The peer is not expired, and its transport is registered and accepts it in this state.
  abbrev pub IsWelcome : ℕ → Peer → List (Bytes × T) → Type 0
  IsWelcome now p ts =
      (is_expired now p ≡ false)
      × (get p.kind ts ≢ none)
      × ((t : T) → get p.kind ts ≡ some t → (ops.create_peer p t).0 ≡ true)

  -- What syncPeers does for one row.
  sync_row_cases :
      (now : ℕ) (row : PeerRow) (ts : List (Bytes × T))
      → (sync_row ops now row ts ≡ ts)
        ⊎ ((t : T) × (get row.kind ts ≡ some t)
            × (ops.exists_peer (row.virtual_ip % 2 ^ 32) t ≡ false)
            × (sync_row ops now row ts ≡ put row.kind (ops.create_peer (peer_from_row row) t).1 ts))
  unfolding sync_row peer_from_row
  sync_row_cases now row ts = elim (Bool-cases (is_expired now (peer_from_row row))) [
    | inl e ↦ inl (rw (sync_row, e))
    | inr e ↦ elim (Option-cases (get row.kind ts)) [
      | inl g ↦ inl (rw (sync_row, e, g))
      | inr (t, g) ↦ elim (Bool-cases (ops.exists_peer (row.virtual_ip % 2 ^ 32) t)) [
        | inl x ↦ inl (rw (sync_row, e, g, x))
        | inr x ↦ inr (t, g, x, rw (sync_row, e, g, x))
      ]
    ]
  ]

  created-Has :
      (row : PeerRow) (t : T) (ts : List (Bytes × T)) (name : Bytes) (ip : ℕ)
      → get row.kind ts ≡ some t
      → ops.exists_peer (row.virtual_ip % 2 ^ 32) t ≡ false
      → Has ops name ip ts
      → Has ops name ip (put row.kind (ops.create_peer (peer_from_row row) t).1 ts)
  unfolding peer_from_row
  created-Has row t ts name ip g x (u, h, e) =
      let t' = (ops.create_peer (peer_from_row row) t).1 in
      let step = get-put row.kind name t' ts in
      elim (Bool-cases (bytes_beq row.kind name)) [
        | inr ne ↦ (u, step ∙ rw ne h, e)
        | inl eq ↦
            let same : row.kind ≡ name = (bytes_beq_iff row.kind name).0 eq in
            let tu : t ≡ u = ground arith in
            let other : ip ≢ row.virtual_ip % 2 ^ 32 = λ q. ground arith in
            (t', step ∙ rw eq, laws.create_keeps (peer_from_row row) t ip other ∙ rw tu e)
      ]

  -- A client that is connected stays connected.
  pub sync_row-keeps :
      (now : ℕ) (row : PeerRow) (ts : List (Bytes × T)) (name : Bytes) (ip : ℕ)
      → Has ops name ip ts
      → Has ops name ip (sync_row ops now row ts)
  sync_row-keeps now row ts name ip h = elim (sync_row_cases now row ts) [
    | inl e ↦ rw e h
    | inr (t, g, x, e) ↦ rw e (created-Has row t ts name ip g x h)
  ]

  sync_row-registered :
      (now : ℕ) (row : PeerRow) (ts : List (Bytes × T)) (name : Bytes)
      → get name ts ≢ none
      → get name (sync_row ops now row ts) ≢ none
  sync_row-registered now row ts name h = elim (sync_row_cases now row ts) [
    | inl e ↦ rw e h
    | inr (t, g, x, e) ↦
        let step = get-put row.kind name (ops.create_peer (peer_from_row row) t).1 ts in
        rw e (λ q. ground arith)
  ]

  sync_row-Has :
      (now : ℕ) (row : PeerRow) (ts : List (Bytes × T))
      → IsWelcome now (peer_from_row row) ts
      → Has ops row.kind (row.virtual_ip % 2 ^ 32) (sync_row ops now row ts)
  unfolding sync_row peer_from_row
  sync_row-Has now row ts (fresh, registered, accepts) = elim (Option-cases (get row.kind ts)) [
    | inl g ↦ absurd (registered g)
    | inr (t, g) ↦ elim (Bool-cases (ops.exists_peer (row.virtual_ip % 2 ^ 32) t)) [
      | inl x ↦ rw (sync_row, fresh, g, x) (t, g, x)
      | inr x ↦
          let t' = (ops.create_peer (peer_from_row row) t).1 in
          let step = get-put row.kind row.kind t' ts in
          let eq : bytes_beq row.kind row.kind ≡ true = (bytes_beq_iff row.kind row.kind).1 refl in
          rw (sync_row, fresh, g, x)
            (t', step ∙ rw eq, laws.create_exists (peer_from_row row) t (accepts t g))
    ]
  ]

  sync_rows-keeps :
      (now : ℕ) (rows : List PeerRow) (ts : List (Bytes × T)) (name : Bytes) (ip : ℕ)
      → Has ops name ip ts
      → Has ops name ip (sync_rows ops now rows ts)
  unfolding sync_rows
  sync_rows-keeps now [] ts name ip h = h
  sync_rows-keeps now (row ∷ rows) ts name ip h =
      sync_rows-keeps now rows _ name ip (sync_row-keeps now row ts name ip h)

  sync_rows-append :
      (now : ℕ) (before after : List PeerRow) (ts : List (Bytes × T))
      → sync_rows ops now (before ++ after) ts
        ≡ sync_rows ops now after (sync_rows ops now before ts)
  unfolding sync_rows
  sync_rows-append now [] after ts = refl
  sync_rows-append now (row ∷ before) after ts = sync_rows-append now before after _

  sync_rows-Has :
      (now : ℕ) (before after : List PeerRow) (ts : List (Bytes × T)) (row : PeerRow)
      → IsWelcome now (peer_from_row row) (sync_rows ops now before ts)
      → Has ops row.kind (row.virtual_ip % 2 ^ 32) (sync_rows ops now (before ++ row ∷ after) ts)
  unfolding sync_rows
  sync_rows-Has now before after ts row w =
      subst (Has ops row.kind (row.virtual_ip % 2 ^ 32))
        (sym (sync_rows-append now before (row ∷ after) ts))
        (sync_rows-keeps now after _ row.kind (row.virtual_ip % 2 ^ 32)
          (sync_row-Has now row (sync_rows ops now before ts) w))

-- Take transports that keep the laws of their interface. After a syncPeers that reads the peers,
-- a peer of the database that is not expired, and whose transport is registered and accepts it in
-- the state in which the loop comes to it, is in that transport, also when CreatePeer fails for
-- others.
pub sync_peers-Attached :
    {F T : Type 0} (rules : FirewallManager.Operations F) (ops : Transport T) (laws : Laws ops)
    (now : ℕ) (m : PeersManager F T) (before after : List PeerRow) (row : PeerRow)
    → m.rules.db.peers ≡ before ++ row ∷ after
    → IsWelcome ops laws now (peer_from_row row) (sync_rows ops now before m.transports)
    → Has ops row.kind (row.virtual_ip % 2 ^ 32) (sync_peers rules ops true now m).1.transports
unfolding sync_peers
sync_peers-Attached rules ops laws now m before after row e w =
    rw e (sync_rows-Has ops laws now before after m.transports row w)

-- Take transports that keep the laws of their interface. Every client that a transport had before
-- a syncPeers, it has afterwards, whether the peers are read and whatever CreatePeer answers.
sync_peers_keeps :
    {F T : Type 0} (rules : FirewallManager.Operations F) (ops : Transport T) (laws : Laws ops)
    (read : Bool) (now : ℕ) (m : PeersManager F T) (name : Bytes) (ip : ℕ)
    → Has ops name ip m.transports
    → Has ops name ip (sync_peers rules ops read now m).1.transports
unfolding sync_peers
sync_peers_keeps rules ops laws false now m name ip h = h
sync_peers_keeps rules ops laws true now m name ip h =
    sync_rows-keeps ops laws now m.rules.db.peers m.transports name ip h
