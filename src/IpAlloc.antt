-- ===== src/IpAlloc.antt =====
-- internal/utils/ipalloc/apalloc.go: the addresses of a subnet, given out and taken back. An
-- address is the uint32 of ipToU32; u32ToIP, its inverse, is not written.
pub mod Leases
pub mod Returns
pub mod Tests
use liberator_node_go.Prelude.{
  ℕ, zero, suc, ◌+◌, ◌-◌, ◌*◌, ◌/◌, ◌%◌, ◌^◌, ◌≤◌, ◌<◌, bit_and, bit_or, bit_xor, ◌≡◌, refl, sym,
  ap, subst, ◌∙◌, ◌≢◌, ◌↔◌, ◌⊎◌, inl, inr, Bool, true, false, not, ◌&&◌, ◌||◌, Option, none, some,
  List, [], ◌∷◌, ◌++◌, map, arith, if◌then◌else◌, ltb, leb, ◌==◌, bool_beq, bytes_ltb,
  bytes_ltb_flip, bytes_ltb_irrefl, Bytes, codes, bytes_beq, bytes_beq_iff, keep, length, nat_eq,
  bytes_eq, ==_iff, Bool-cases, Option-cases, In, All,
}

-- What net.ParseCIDR answers: an error, a network that is not IPv4, or address and mask.
pub data Cidr : Type 0 where
  malformed other_family : Cidr
  ipv4 : ℕ → ℕ → Cidr

-- The errors of the methods.
pub data AllocError : Type 0 where
  bad_cidr not_ipv4 no_addresses out_of_range already_reserved already_allocated : AllocError
  no_free reserved_address already_free : AllocError

-- IPAllocator
pub record IpAllocator : Type 0 where
  pub start : ℕ
  pub last : ℕ
  pub next : ℕ
  pub freed : List ℕ
  pub reserved : List ℕ

-- New, on the answer of ParseCIDR; the arithmetic is that of uint32.
unfoldable pub new : Cidr → AllocError ⊎ IpAllocator
new malformed = inl bad_cidr
new other_family = inl not_ipv4
new (ipv4 ip mask) =
    let network = bit_and ip mask in
    let broadcast = bit_or network (bit_xor mask (2 ^ 32 - 1)) in
    let start = (network + 1) % 2 ^ 32 in
    let last = (broadcast + (2 ^ 32 - 1)) % 2 ^ 32 in
    if ltb last start
    then inl no_addresses
    else inr (record { start = start; last = last; next = start; freed = []; reserved = [] })

-- The loops of isReserved and of Free over a slice.
unfoldable pub has : ℕ → List ℕ → Bool
has addr [] = false
has addr (x ∷ xs) = let rest = has addr xs in if x == addr then true else rest

-- removeFromFreed: the first equal address is cut out.
unfoldable pub remove_from_freed : ℕ → List ℕ → List ℕ
remove_from_freed addr [] = []
remove_from_freed addr (x ∷ xs) =
    let rest = remove_from_freed addr xs in if x == addr then xs else x ∷ rest

-- Reserve
unfoldable pub reserve : ℕ → IpAllocator → Option AllocError × IpAllocator
reserve addr a =
    if ltb addr a.start || ltb a.last addr
    then (some out_of_range, a)
    else if has addr a.reserved
    then (some already_reserved, a)
    else let a' = record a { freed = remove_from_freed addr a.freed } in
      if ltb addr a.next && not (has addr a'.freed)
      then (some already_allocated, a')
      else (none, record a' { reserved = a'.reserved ++ addr ∷ [] })

-- The first loop of Get, which pops the end of `freed` until an address is not reserved: that
-- address, and what is left of the slice.
unfoldable pub get_freed : List ℕ → List ℕ → Option ℕ × List ℕ
get_freed reserved [] = (none, [])
get_freed reserved (x ∷ xs) =
    let (found, left) = get_freed reserved xs in
    elim found [
      | some addr ↦ (some addr, x ∷ left)
      | none ↦ if has x reserved then (none, []) else (some x, [])
    ]

-- The second loop of Get, in at most `fuel` turns.
unfoldable pub get_next : ℕ → IpAllocator → Option ℕ × IpAllocator
get_next zero a = (none, a)
get_next (suc fuel) a =
    let a' = record a { next = (a.next + 1) % 2 ^ 32 } in
    let rest = get_next fuel a' in
    if leb a.next a.last
    then (if has a.next a.reserved then rest else (some a.next, a'))
    else (none, a)

-- Get after its first loop.
unfoldable pub get_from : Option ℕ × List ℕ → IpAllocator → Option ℕ × IpAllocator
get_from (some addr, left) a = (some addr, record a { freed = left })
get_from (none, left) a = get_next (a.last + 1 - a.next) (record a { freed = left })

-- Get; `none` is the error "no free IP addresses".
unfoldable pub get_ip : IpAllocator → Option ℕ × IpAllocator
get_ip a = get_from (get_freed a.reserved a.freed) a

-- Free
unfoldable pub free : ℕ → IpAllocator → Option AllocError × IpAllocator
free addr a =
    if ltb addr a.start || ltb a.last addr
    then (some out_of_range, a)
    else if has addr a.reserved
    then (some reserved_address, a)
    else if has addr a.freed
    then (some already_free, a)
    else (none, record a { freed = a.freed ++ addr ∷ [] })
