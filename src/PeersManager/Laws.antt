-- ===== src/PeersManager/Laws.antt =====
-- What pkg/services/peersmanager relies on in a transport.
use liberator_node_go.Prelude.{ℕ, ◌≡◌, ◌≢◌, true, false, some, List, Bytes, nat_eq, bytes_eq}
use liberator_node_go.Prelude.Map.{get}
use liberator_node_go.PeersManager.{Peer, Transport}

-- A transport that created a peer has it until it is kicked, and the other peers are left alone.
pub record Laws {T : Type 0} (ops : Transport T) : Type 0 where
  pub create_exists :
      (p : Peer) (t : T)
      → (ops.create_peer p t).0 ≡ true
      → ops.exists_peer p.virtual_ip (ops.create_peer p t).1 ≡ true
  pub create_keeps :
      (p : Peer) (t : T) (ip : ℕ)
      → ip ≢ p.virtual_ip
      → ops.exists_peer ip (ops.create_peer p t).1 ≡ ops.exists_peer ip t
  pub kick_gone : (ip : ℕ) (t : T) → ops.exists_peer ip (ops.kick_peer ip t).1 ≡ false
  pub kick_keeps :
      (ip other : ℕ) (t : T)
      → other ≢ ip
      → ops.exists_peer other (ops.kick_peer ip t).1 ≡ ops.exists_peer other t

-- The transport with this name has the address.
abbrev pub Has : {T : Type 0} → Transport T → Bytes → ℕ → List (Bytes × T) → Type 0
Has ops name ip ts = (t : _) × (get name ts ≡ some t) × (ops.exists_peer ip t ≡ true)
