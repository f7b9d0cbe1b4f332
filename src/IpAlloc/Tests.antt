-- ===== src/IpAlloc/Tests.antt =====
-- A pool of the addresses 10.0.0.1 to 10.0.0.6.
use liberator_node_go.Prelude.{
  ℕ, ◌+◌, ◌-◌, ◌*◌, ◌^◌, ◌<◌, ◌≡◌, refl, inr, true, false, none, some, [], ◌∷◌, arith, nat_eq,
  bytes_eq,
}
use liberator_node_go.IpAlloc.{
  ipv4, IpAllocator, already_allocated, new, has, get_ip, free, reserve,
}
use liberator_node_go.IpAlloc.Leases.{IsSound, Got, get_ip-Got}
use liberator_node_go.IpAlloc.Returns.{without, new-IsSound, free-IsSound, reserve-freed}

abbrev base : ℕ
base = 10 * 2 ^ 24

abbrev mask : ℕ
mask = 2 ^ 32 - 8

abbrev pool : IpAllocator
pool = record { start = base + 1; last = base + 6; next = base + 1; freed = []; reserved = [] }

new-pool : new (ipv4 base mask) ≡ inr pool
unfolding new
new-pool = refl

pool_small : pool.last + 1 < 2 ^ 32
pool_small = omega arith

pool-IsSound : IsSound [] pool
pool-IsSound = new-IsSound base mask pool new-pool pool_small

get_ip-Got_example : Got [] pool (get_ip pool)
get_ip-Got_example = get_ip-Got [] pool pool-IsSound

-- The pool with its first address out on lease.
abbrev one_out : IpAllocator
one_out = record pool { next = base + 2 }

one_out-IsSound : IsSound ((base + 1) ∷ []) one_out
unfolding has
one_out-IsSound = record {
  first = omega arith;
  bound = omega arith;
  small = omega arith;
  once = tt;
  free_again = λ x h. ground arith;
  out = λ x h. ground arith;
  accounted = λ x p q. ground arith;
}

is_out : has (base + 1) ((base + 1) ∷ []) ≡ true
unfolding has
is_out = refl

free-IsSound_example :
    ((free (base + 1) one_out).0 ≡ none)
    × IsSound (without (base + 1) ((base + 1) ∷ [])) (free (base + 1) one_out).1
free-IsSound_example = free-IsSound ((base + 1) ∷ []) one_out (base + 1) one_out-IsSound is_out

not_freed : has (base + 3) one_out.freed ≡ false
unfolding has
not_freed = refl

-- The pool with its first address given back.
abbrev one_back : IpAllocator
one_back = record one_out { freed = (base + 1) ∷ [] }

one_back-IsSound : IsSound [] one_back
unfolding has
one_back-IsSound = record {
  first = omega arith;
  bound = omega arith;
  small = omega arith;
  once = (refl, tt);
  free_again = λ x h. ground arith;
  out = λ x h. ground arith;
  accounted = λ x p q. ground arith;
}

is_freed : has (base + 1) one_back.freed ≡ true
unfolding has
is_freed = refl

reserve-freed_example :
    let (answer, a') = reserve (base + 1) one_back in
    (answer ≡ some already_allocated)
    × (has (base + 1) [] ≡ false)
    × (has (base + 1) a'.freed ≡ false)
    × (has (base + 1) a'.reserved ≡ false)
    × (base + 1 < a'.next)
reserve-freed_example = reserve-freed [] one_back (base + 1) one_back-IsSound is_freed
