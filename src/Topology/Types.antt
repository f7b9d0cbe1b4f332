-- ===== src/Topology/Types.antt =====
-- pkg/mesh/topology/topology.go and the state of memory.go.
use liberator_node_go.Prelude.{ℕ, List, Bytes, nat_eq, bytes_eq}

-- PeerInfo
pub record PeerInfo : Type 0 where
  pub id : Bytes
  pub address : Bytes
  pub last_seen : ℕ

-- The PeerEventType values that this package sends.
pub data EventType : Type 0 where
  joined updated left : EventType

pub record PeerEvent : Type 0 where
  pub kind : EventType
  pub update : PeerInfo

-- inMemoryState; a channel is a number, with the events that wait in its buffer.
pub record State : Type 0 where
  pub peers : List (Bytes × PeerInfo)
  pub subs : List (ℕ × List PeerEvent)
