-- ===== src/Topology.antt =====
-- pkg/mesh/topology: the peers that a node knows of (memory.go), in memory, with the events that
-- the subscribers get. Times are numbers of nanoseconds; each method is one step, since it holds
-- the lock of the map from its first read to its last write.
pub mod Disk
pub mod DiskTests
pub mod Types
pub mod Conflict
pub mod Ownership
pub mod Newcomer
pub mod Tests
use liberator_node_go.Prelude.{
  ℕ, zero, suc, ◌+◌, ◌-◌, ◌*◌, ◌/◌, ◌%◌, ◌^◌, ◌≤◌, ◌<◌, bit_and, bit_or, ◌≡◌, refl, sym, ap, subst,
  ◌∙◌, ◌≢◌, ◌↔◌, ◌⊎◌, inl, inr, Bool, true, false, not, ◌&&◌, ◌||◌, Option, none, some, List, [],
  ◌∷◌, ◌++◌, map, arith, if◌then◌else◌, ltb, leb, ◌==◌, Bytes, codes, bytes_beq, bytes_beq_iff,
  keep, length, nat_eq, bytes_eq, ==_iff, Bool-cases, Option-cases, In, All,
}
use liberator_node_go.Prelude.Map.{get, put, erase}
use Types.{PeerInfo, EventType, joined, updated, left, PeerEvent, State}

-- newInMemoryState
unfoldable pub new : State
new = record { peers = []; subs = [] }

-- notify: an event goes to every channel that has room; the buffer holds 200.
unfoldable pub offer : PeerEvent → ℕ × List PeerEvent → ℕ × List PeerEvent
offer event (ch, queue) = if ltb (length queue) 200 then (ch, queue ++ event ∷ []) else (ch, queue)

unfoldable pub notify : PeerEvent → State → State
notify event s = record s { subs = map (offer event) s.subs }

-- The part of InsertMerge for a peer that is known: the new record, and whether it changed.
unfoldable pub merge : PeerInfo → PeerInfo → PeerInfo × Bool
merge existing update =
    let newer = ltb existing.last_seen update.last_seen in
    let moved =
      not (bytes_beq update.address []) && not (bytes_beq update.address existing.address) in
    (
      record existing {
        last_seen = (if newer then update.last_seen else existing.last_seen);
        address = (if moved then update.address else existing.address);
      },
      newer || moved,
    )

-- The loop of resolveAddressConflict: the staler records at the address, and whether a fresher
-- one is there.
unfoldable pub conflict_loop : PeerInfo → List (Bytes × PeerInfo) → List PeerInfo × Bool
conflict_loop keep [] = ([], false)
conflict_loop keep ((id, p) ∷ rest) =
    let (dropped, lost) = conflict_loop keep rest in
    if bytes_beq id keep.id || not (bytes_beq p.address keep.address) then (dropped, lost) else (
      (if ltb p.last_seen keep.last_seen then p ∷ dropped else dropped),
      ltb keep.last_seen p.last_seen || lost,
    )

unfoldable pub delete_all : List PeerInfo → List (Bytes × PeerInfo) → List (Bytes × PeerInfo)
delete_all [] peers = peers
delete_all (p ∷ ps) peers = delete_all ps (erase p.id peers)

-- resolveAddressConflict: the records dropped, whether the kept one lost, and the map after.
unfoldable pub resolve_address_conflict :
    PeerInfo → List (Bytes × PeerInfo) → List PeerInfo × Bool × List (Bytes × PeerInfo)
resolve_address_conflict keep peers =
    if bytes_beq keep.address []
    then ([], false, peers)
    else let (dropped, lost) = conflict_loop keep peers in
      if lost then ([], true, peers) else (dropped, false, delete_all dropped peers)

unfoldable pub notify_left : List PeerInfo → State → State
notify_left [] s = s
notify_left (p ∷ ps) s = notify_left ps (notify (record { kind = left; update = p }) s)

-- InsertMerge from the write of the record on: `known` tells whether the id was there before.
unfoldable pub settle : Bytes → PeerInfo → Bool → State → Bool × State
settle key existing known s =
    let (dropped, lost, peers) = resolve_address_conflict existing (put key existing s.peers) in
    let peers' = (if lost then erase existing.id peers else peers) in
    let s' = record s { peers = peers' } in
    if lost && not known
    then (false, s')
    else let kind = (if lost then left else if not known then joined else updated) in
      (true, notify_left dropped (notify (record { kind = kind; update = existing }) s'))

-- InsertMerge
unfoldable pub insert_merge : PeerInfo → State → Bool × State
insert_merge update s =
    if bytes_beq update.id [] then (false, s) else elim (get update.id s.peers) [
      | none ↦ settle update.id update false s
      | some existing ↦
          let (merged, changed) = merge existing update in
          if changed then settle update.id merged true s else (false, s)
    ]

-- Get, List, Count
unfoldable pub get_peer : Bytes → State → Option PeerInfo
get_peer id s = get id s.peers

unfoldable pub list_peers : State → List PeerInfo
list_peers s = map (λ kp. kp.1) s.peers

unfoldable pub count : State → ℕ
count s = length s.peers

-- Remove
unfoldable pub remove : Bytes → State → State
remove id s = if bytes_beq id [] then s else elim (get id s.peers) [
  | none ↦ s
  | some existing ↦
      notify (record { kind = left; update = existing }) (record s { peers = erase id s.peers })
]

-- Subscribe, and the cancel function that it returns, for a channel `ch`.
unfoldable pub subscribe : ℕ → State → State
subscribe ch s = record s { subs = put ch [] s.subs }

unfoldable pub unsubscribe : ℕ → State → State
unsubscribe ch s = record s { subs = erase ch s.subs }
