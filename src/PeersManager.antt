-- ===== src/PeersManager.antt =====
-- pkg/services/peersmanager: the peers of this node, in the database and in the transports that
-- carry them. Each method takes which of its queries are carried out; one that is not has no
-- effect. A transport is what the interface of pkg/transport asks for, and the transports that
-- are registered are distinct objects. The time that a method reads is an argument.
pub mod Tests
pub mod Laws
pub mod Attached
pub mod Created
pub mod Deleted
use liberator_node_go.Prelude.{
  ℕ, zero, suc, ◌+◌, ◌-◌, ◌*◌, ◌/◌, ◌%◌, ◌^◌, ◌≤◌, ◌<◌, bit_and, bit_or, bit_xor, ◌≡◌, refl, sym,
  ap, subst, ◌∙◌, ◌≢◌, ◌↔◌, ◌⊎◌, inl, inr, Bool, true, false, not, ◌&&◌, ◌||◌, Option, none, some,
  List, [], ◌∷◌, ◌++◌, map, arith, if◌then◌else◌, ltb, leb, ◌==◌, bool_beq, bytes_ltb,
  bytes_ltb_flip, bytes_ltb_irrefl, Bytes, codes, bytes_beq, bytes_beq_iff, keep, length, nat_eq,
  bytes_eq, ==_iff, Bool-cases, Option-cases, In, All,
}
use liberator_node_go.Prelude.Map.{get, put}
use liberator_node_go.Database
use liberator_node_go.Database.{PeerRow, Database, update_peer_stats}
use liberator_node_go.FirewallManager
use liberator_node_go.FirewallManager.{Manager}

-- Peer of pkg/model/peer.go
pub record Peer : Type 0 where
  pub id : ℕ
  pub kind : Bytes
  pub virtual_ip : ℕ
  pub last_seen : ℕ
  pub expiration_date : Option ℕ
  pub from_peer_total : ℕ
  pub to_peer_total : ℕ
  pub traffic_limit_gb : Option ℕ
  pub speed_limit_mbps : Option ℕ
  pub awg_private_key : Bytes
  pub awg_public_key : Bytes

-- IsExpired at the time `now`
unfoldable pub is_expired : ℕ → Peer → Bool
is_expired now p = elim p.expiration_date [ none ↦ false | some date ↦ ltb date now ]

-- TransportPeerStats
pub record TransportPeerStats : Type 0 where
  pub virtual_ip : ℕ
  pub delta_to_peer : ℕ
  pub delta_from_peer : ℕ
  pub last_seen : ℕ

-- The interface Transport, less its background work: an error is `false` or `none`.
pub record Transport (T : Type 0) : Type 0 where
  pub kick_peer : ℕ → T → Bool × T
  pub create_peer : Peer → T → Bool × T
  pub exists_peer : ℕ → T → Bool
  pub generate_client_connection_string : Peer → Bytes → Bytes → T → Option Bytes
  pub generate_peer_keys : Peer → T → Option Peer

-- PeersManager, with what it points to
pub record PeersManager (F T : Type 0) : Type 0 where
  pub starting_ip : ℕ
  pub rules : Manager F
  pub transports : List (Bytes × T)

-- peerFromRow
unfoldable pub peer_from_row : PeerRow → Peer
peer_from_row row = record {
  id = row.id;
  kind = row.kind;
  virtual_ip = row.virtual_ip % 2 ^ 32;
  last_seen = row.last_seen;
  expiration_date = row.expiration_date;
  from_peer_total = row.from_peer_total;
  to_peer_total = row.to_peer_total;
  traffic_limit_gb = row.traffic_limit_gb;
  speed_limit_mbps = row.speed_limit_mbps;
  awg_private_key = row.awg_private_key;
  awg_public_key = row.awg_public_key;
}

-- The parameters of CreatePeerAutoID.
unfoldable pub row_of : Peer → PeerRow
row_of p = record {
  id = 0;
  kind = p.kind;
  virtual_ip = 0;
  last_seen = 0;
  expiration_date = p.expiration_date;
  from_peer_total = 0;
  to_peer_total = 0;
  traffic_limit_gb = p.traffic_limit_gb;
  speed_limit_mbps = p.speed_limit_mbps;
  awg_private_key = p.awg_private_key;
  awg_public_key = p.awg_public_key;
}

module _ {T : Type 0} (ops : Transport T) where
  -- One row in the loop of Run.
  unfoldable pub attach_row : ℕ → PeerRow → List (Bytes × T) → List (Bytes × T)
  attach_row now row ts =
      let peer = peer_from_row row in
      if is_expired now peer then ts else elim (get peer.kind ts) [
        | none ↦ ts
        | some t ↦ put peer.kind (ops.create_peer peer t).1 ts
      ]

  unfoldable pub attach_rows : ℕ → List PeerRow → List (Bytes × T) → List (Bytes × T)
  attach_rows now [] ts = ts
  attach_rows now (row ∷ rows) ts = attach_rows now rows (attach_row now row ts)

  -- One row in the loop of syncPeers.
  unfoldable pub sync_row : ℕ → PeerRow → List (Bytes × T) → List (Bytes × T)
  sync_row now row ts =
      let peer = peer_from_row row in
      if is_expired now peer then ts else elim (get peer.kind ts) [
        | none ↦ ts
        | some t ↦
            if ops.exists_peer peer.virtual_ip t
            then ts
            else put peer.kind (ops.create_peer peer t).1 ts
      ]

  unfoldable pub sync_rows : ℕ → List PeerRow → List (Bytes × T) → List (Bytes × T)
  sync_rows now [] ts = ts
  sync_rows now (row ∷ rows) ts = sync_rows now rows (sync_row now row ts)

module _ {F T : Type 0} (rules : FirewallManager.Operations F) (ops : Transport T) where
  -- syncPeers: whether it returns no error, and the manager
  unfoldable pub sync_peers : Bool → ℕ → PeersManager F T → Bool × PeersManager F T
  sync_peers false now m = (false, m)
  sync_peers true now m =
      (true, record m { transports = sync_rows ops now m.rules.db.peers m.transports })

  -- Run, up to the loops that it starts
  unfoldable pub run : Bool → ℕ → PeersManager F T → Bool × PeersManager F T
  run false now m = (false, m)
  run true now m =
      (true, record m { transports = attach_rows ops now m.rules.db.peers m.transports })

  -- The stats loop of Run, on what a transport reported
  unfoldable pub drain_stats : Bool → TransportPeerStats → PeersManager F T → PeersManager F T
  drain_stats false stats m = m
  drain_stats true stats m = record m {
    rules = record m.rules {
      db =
          update_peer_stats stats.virtual_ip stats.delta_from_peer stats.delta_to_peer
            stats.last_seen m.rules.db;
    };
  }

  -- CreatePeerAutoID from the insert on: the row it gave, with the tables that are not committed.
  unfoldable pub commit_peer :
      Bool
      → Bytes
      → Peer
      → T
      → PeerRow × Database
      → PeersManager F T
      → Option Peer × PeersManager F T
  commit_peer committed name peer t (row, db) m =
      let peer' = record peer { id = row.id; virtual_ip = row.virtual_ip % 2 ^ 32 } in
      let (ok, t') = ops.create_peer peer' t in
      let m' = record m { transports = put name t' m.transports } in
      if ok && committed
      then (some peer', record m' { rules = record m.rules { db = db } })
      else (none, m')

  -- CreatePeerAutoID at the time `now`; `begun`, `inserted` and `committed` tell which steps of
  -- the transaction are carried out. An error rolls the tables back.
  unfoldable pub create_peer_auto_id :
      Bool → Bool → Bool → ℕ → Peer → PeersManager F T → Option Peer × PeersManager F T
  create_peer_auto_id begun inserted committed now peer m = elim (get peer.kind m.transports) [
    | none ↦ (none, m)
    | some t ↦ elim (ops.generate_peer_keys peer t) [
      | none ↦ (none, m)
      | some peer' ↦
          if begun && inserted
          then commit_peer committed peer.kind peer' t
              (Database.create_peer_auto_id now m.starting_ip (row_of peer') m.rules.db) m
          else (none, m)
    ]
  ]

  -- GetPeerByID, GetPeerByVirtualIP and ListPeers
  unfoldable pub get_peer_by_id : Bool → ℕ → PeersManager F T → Option Peer
  get_peer_by_id false id m = none
  get_peer_by_id true id m = elim (Database.get_peer_by_id id m.rules.db) [
    | none ↦ none
    | some row ↦ some (peer_from_row row)
  ]

  unfoldable pub get_peer_by_virtual_ip : Bool → ℕ → PeersManager F T → Option Peer
  get_peer_by_virtual_ip false ip m = none
  get_peer_by_virtual_ip true ip m = elim (Database.get_peer_by_virtual_ip ip m.rules.db) [
    | none ↦ none
    | some row ↦ some (peer_from_row row)
  ]

  unfoldable pub list_peers : Bool → PeersManager F T → Option (List Peer)
  list_peers false m = none
  list_peers true m = some (map peer_from_row m.rules.db.peers)

  -- GenerateClientKey
  unfoldable pub generate_client_key : Bool → ℕ → Bytes → Bytes → PeersManager F T → Option Bytes
  generate_client_key got id addr name m = elim (get_peer_by_id got id m) [
    | none ↦ none
    | some peer ↦ elim (get peer.kind m.transports) [
      | none ↦ none
      | some t ↦ ops.generate_client_connection_string peer addr name t
    ]
  ]

  -- The end of DeletePeer: the row is known.
  unfoldable pub drop_peer : Bool → PeerRow → ℕ → PeersManager F T → Bool × PeersManager F T
  drop_peer false row id m = (false, m)
  drop_peer true row id m =
      let m' = record m { rules = record m.rules { db = Database.delete_peer id m.rules.db } } in
      elim (get row.kind m.transports) [
        | none ↦ (true, m')
        | some t ↦ (
          true,
          record m' {
            transports = put row.kind (ops.kick_peer (row.virtual_ip % 2 ^ 32) t).1 m.transports;
          },
        )
      ]

  -- DeletePeer after its rules were removed.
  unfoldable pub find_and_drop :
      Bool → Bool → ℕ → Bool × Manager F → PeersManager F T → Bool × PeersManager F T
  find_and_drop got deleted id (false, mm) m = (false, record m { rules = mm })
  find_and_drop got deleted id (true, mm) m =
      elim (if got then Database.get_peer_by_id id mm.db else none) [
        | none ↦ (false, record m { rules = mm })
        | some row ↦ drop_peer deleted row id (record m { rules = mm })
      ]

  -- DeletePeer: whether the two queries of RemoveAllPeerRules, GetPeerByID and DeletePeer are
  -- carried out
  unfoldable pub delete_peer :
      Bool → Bool → Bool → Bool → ℕ → PeersManager F T → Bool × PeersManager F T
  delete_peer loaded cleared got deleted id m =
      find_and_drop got deleted id
        (FirewallManager.remove_all_peer_rules rules loaded cleared id m.rules) m
