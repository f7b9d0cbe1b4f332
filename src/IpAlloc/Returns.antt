-- ===== src/IpAlloc/Returns.antt =====
-- Free and Reserve of internal/utils/ipalloc/apalloc.go.
use liberator_node_go.Prelude.{
  ℕ, ◌+◌, ◌^◌, ◌≤◌, ◌<◌, ◌≡◌, refl, sym, ap, subst, ◌≢◌, ◌⊎◌, inl, inr, true, false, not, ◌&&◌,
  ◌||◌, Option, none, some, List, [], ◌∷◌, ◌++◌, arith, if◌then◌else◌, ltb, ◌==◌, nat_eq, bytes_eq,
  Bool-cases,
}
use liberator_node_go.IpAlloc.{
  ipv4, new, IpAllocator, AllocError, out_of_range, already_reserved, already_allocated,
  no_addresses, has, remove_from_freed, reserve, free,
}
use liberator_node_go.IpAlloc.Leases.{Once, IsSound}

has-append : (x y : ℕ) (xs : List ℕ) → has x (xs ++ y ∷ []) ≡ (has x xs || (y == x))
unfolding has
has-append x y [] = ground arith
has-append x y (z ∷ xs) = ground (arith, has-append x y xs)

append-Once : (y : ℕ) (xs : List ℕ) → Once xs → has y xs ≡ false → Once (xs ++ y ∷ [])
unfolding has
append-Once y [] o h = (refl, tt)
append-Once y (x ∷ xs) o h =
    (ground (arith, has-append x y xs), append-Once y xs o.1 (ground arith))

-- The leases without an address.
pub without : ℕ → List ℕ → List ℕ
without x [] = []
without x (y ∷ ys) = let rest = without x ys in if y == x then rest else y ∷ rest

has-without : (x y : ℕ) (ys : List ℕ) → has x (without y ys) ≡ (has x ys && not (y == x))
unfolding has without
has-without x y [] = refl
has-without x y (z ∷ ys) = ground (arith, has-without x y ys)

freed-IsSound :
    (leased : List ℕ) (a : IpAllocator) (x : ℕ)
    → IsSound leased a
    → has x leased ≡ true
    → has x a.freed ≡ false
    → IsSound (without x leased) (record a { freed = a.freed ++ x ∷ [] })
freed-IsSound leased a x v h f = record {
  first = v.first;
  bound = v.bound;
  small = v.small;
  once = append-Once x a.freed v.once f;
  free_again = λ y q.
      ground (arith, has-append y x a.freed, has-without y x leased, v.free_again y, v.out y);
  out = λ y q. ground (arith, has-without y x leased, v.out y);
  accounted =
      λ y p q. ground (arith, has-append y x a.freed, has-without y x leased, v.accounted y p q);
}

free_leased :
    (leased : List ℕ) (a : IpAllocator) (x : ℕ)
    → IsSound leased a
    → has x leased ≡ true
    → (has x a.freed ≡ false) × (free x a ≡ (none, record a { freed = a.freed ++ x ∷ [] }))
unfolding free
free_leased leased a x v h =
    let b = v.bound in
    let (l, n, r) = v.out x h in
    let f : has x a.freed ≡ false = ground (arith, v.free_again x) in (f, ground arith)

-- From a sound state Free takes back an address that is leased: it answers without an error, and
-- the state is sound for the leases without that address.
pub free-IsSound :
    (leased : List ℕ) (a : IpAllocator) (x : ℕ)
    → IsSound leased a
    → has x leased ≡ true
    → ((free x a).0 ≡ none) × IsSound (without x leased) (free x a).1
free-IsSound leased a x v h =
    let (f, e) = free_leased leased a x v h in
    subst (λ (p : Option AllocError × IpAllocator). (p.0 ≡ none) × IsSound (without x leased) p.1)
      (sym e) (refl, freed-IsSound leased a x v h f)

abbrev range : ℕ → ℕ → IpAllocator
range start last = record { start = start; last = last; next = start; freed = []; reserved = [] }

range-IsSound :
    (start last : ℕ) (a : IpAllocator)
    → (if ltb last start then inl no_addresses else inr (range start last)) ≡ inr a
    → a.last + 1 < 2 ^ 32
    → IsSound [] a
unfolding has
range-IsSound start last a e small = elim (Bool-cases (ltb last start)) [
  | inl q ↦ absurd (ground arith)
  | inr q ↦
      let same : range start last ≡ a = ground arith in
      let l : last ≡ a.last = ap (λ (x : IpAllocator). x.last) same in
      subst (λ x. IsSound [] x) same
        (record {
          first = omega arith;
          bound = ground arith;
          small = omega arith;
          once = tt;
          free_again = λ x h. ground arith;
          out = λ x h. ground arith;
          accounted = λ x p u. absurd (omega arith);
        })
]

-- The allocator after New over a subnet that ends below the last two addresses of IPv4 is sound,
-- with no address leased.
pub new-IsSound :
    (ip mask : ℕ) (a : IpAllocator)
    → new (ipv4 ip mask) ≡ inr a
    → a.last + 1 < 2 ^ 32
    → IsSound [] a
unfolding new
new-IsSound ip mask a e small = range-IsSound _ _ a e small

removed-gone :
    (x : ℕ) (xs : List ℕ) → Once xs → has x xs ≡ true → has x (remove_from_freed x xs) ≡ false
unfolding has remove_from_freed
removed-gone x [] o h = ground arith
removed-gone x (y ∷ ys) o h = ground (arith, removed-gone x ys o.1)

-- Reserve of an address that was given back answers that it is allocated, and takes it off the
-- list of free addresses: from a sound state the address is then neither leased, nor free, nor
-- reserved, and below `next`.
pub reserve-freed :
    (leased : List ℕ) (a : IpAllocator) (x : ℕ)
    → IsSound leased a
    → has x a.freed ≡ true
    → let (answer, a') = reserve x a in
      (answer ≡ some already_allocated)
      × (has x leased ≡ false)
      × (has x a'.freed ≡ false)
      × (has x a'.reserved ≡ false)
      × (x < a'.next)
unfolding reserve
reserve-freed leased a x v h =
    let b = v.bound in
    let (l, n, f, r) = v.free_again x h in
    let g = removed-gone x a.freed v.once h in
    (ground arith, f, ground arith, ground arith, ground arith)

removed-same : (x : ℕ) (xs : List ℕ) → has x xs ≡ false → remove_from_freed x xs ≡ xs
unfolding has remove_from_freed
removed-same x [] h = refl
removed-same x (y ∷ ys) h = ground (arith, removed-same x ys)

reserved-IsSound :
    (leased : List ℕ) (a : IpAllocator) (x : ℕ)
    → IsSound leased a
    → a.next ≤ x
    → IsSound leased (record a { reserved = a.reserved ++ x ∷ [] })
reserved-IsSound leased a x v n = record {
  first = v.first;
  bound = v.bound;
  small = v.small;
  once = v.once;
  free_again = λ y q. ground (arith, has-append y x a.reserved, v.free_again y);
  out = λ y q. ground (arith, has-append y x a.reserved, v.out y);
  accounted = λ y p q. ground (arith, has-append y x a.reserved, v.accounted y p q);
}

reserve_cases :
    (a : IpAllocator) (x : ℕ)
    → a.start ≤ a.next
    → has x a.freed ≡ false
    → ((reserve x a ≡ (none, record a { reserved = a.reserved ++ x ∷ [] }))
        × (a.next ≤ x)
        × (x ≤ a.last)
        × (has x a.reserved ≡ false))
      ⊎ ((err : AllocError) × (reserve x a ≡ (some err, a))
          × ((x < a.next) ⊎ (a.last < x) ⊎ (has x a.reserved ≡ true)))
unfolding reserve
reserve_cases a x l h =
    let e = removed-same x a.freed h in
    elim (Bool-cases (ltb x a.start || ltb a.last x)) [
      | inl q ↦ inr (out_of_range, rw (reserve, q) refl, ground arith)
      | inr q ↦ elim (Bool-cases (has x a.reserved)) [
        | inl r ↦ inr (already_reserved, rw (reserve, q, r) refl, inr (inr r))
        | inr r ↦ elim (Bool-cases (ltb x a.next)) [
          | inl n ↦ inr (already_allocated, rw (reserve, q, r, e, h, n) refl, ground arith)
          | inr n ↦ inl (rw (reserve, q, r, e, h, n) refl, ground arith, ground arith, r)
        ]
      ]
    ]

-- What Reserve answers and does for an address that was not given back.
abbrev pub Reserved : IpAllocator → ℕ → Option AllocError × IpAllocator → Type 0
Reserved a x (answer, a') =
    ((answer ≡ none)
      × (a.next ≤ x)
      × (x ≤ a.last)
      × (has x a.reserved ≡ false)
      × (a' ≡ record a { reserved = a.reserved ++ x ∷ [] }))
    ⊎ ((answer ≢ none) × (a' ≡ a) × ((x < a.next) ⊎ (a.last < x) ⊎ (has x a.reserved ≡ true)))

-- From a sound state Reserve of an address that was not given back succeeds exactly when it is
-- in the subnet, not reserved and not yet given out; then it is reserved, else nothing changes,
-- and the state stays sound with the same leases.
pub reserve-fresh :
    (leased : List ℕ) (a : IpAllocator) (x : ℕ)
    → IsSound leased a
    → has x a.freed ≡ false
    → IsSound leased (reserve x a).1 × Reserved a x (reserve x a)
reserve-fresh leased a x v h = elim (reserve_cases a x v.first h) [
  | inl (e, n, l, r) ↦
      subst (λ p. IsSound leased p.1 × Reserved a x p) (sym e)
        (reserved-IsSound leased a x v n, inl (refl, n, l, r, refl))
  | inr (err, e, why) ↦
      subst (λ p. IsSound leased p.1 × Reserved a x p) (sym e)
        (v, inr (λ q. ground arith, refl, why))
]
