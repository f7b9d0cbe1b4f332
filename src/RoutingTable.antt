-- ===== src/RoutingTable.antt =====
-- pkg/routingtable/table.go: routing objects by virtual address.
pub mod Shaped
use liberator_node_go.Prelude.{
  ℕ, Bool, true, false, Option, none, some, List, map, Bytes, nat_eq, bytes_eq,
}
use liberator_node_go.Prelude.Map.{get, put, erase}

-- What a RoutingObject tells of itself; `handle` tells two objects apart.
pub record Route : Type 0 where
  pub handle : ℕ
  pub node_id : Bytes
  pub virtual_ip : ℕ

-- RoutingTableRecordDump
pub record RecordDump : Type 0 where
  pub node_id : Bytes
  pub virtual_ip : ℕ

-- routingTableImpl
abbrev pub Table : Type 0
Table = List (ℕ × Route)

-- Add: an error if the address is taken.
unfoldable pub add : Route → Table → Bool × Table
add obj t = elim (get obj.virtual_ip t) [
  | some old ↦ (false, t)
  | none ↦ (true, put obj.virtual_ip obj t)
]

-- Delete: a missing address is no error.
unfoldable pub delete : ℕ → Table → Table
delete ip t = elim (get ip t) [ none ↦ t | some obj ↦ erase ip t ]

-- GetByIP
unfoldable pub get_by_ip : ℕ → Table → Option Route
get_by_ip ip t = get ip t

-- Dump
unfoldable pub dump_record : ℕ × Route → RecordDump
dump_record (ip, v) = record { node_id = v.node_id; virtual_ip = v.virtual_ip }

unfoldable pub dump : Table → List RecordDump
unfolding dump_record
dump t = map dump_record t
