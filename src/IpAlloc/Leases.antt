-- ===== src/IpAlloc/Leases.antt =====
-- The addresses that an IPAllocator of internal/utils/ipalloc/apalloc.go has out on lease.
use liberator_node_go.Prelude.{
  ℕ, zero, suc, ◌+◌, ◌-◌, ◌%◌, ◌^◌, ◌≤◌, ◌<◌, ◌≡◌, refl, sym, ap, subst, ◌∙◌, ◌⊎◌, inl, inr, true,
  false, not, ◌&&◌, ◌||◌, Option, none, some, List, [], ◌∷◌, arith, leb, ◌==◌, nat_eq, bytes_eq,
  Bool-cases,
}
use liberator_node_go.IpAlloc.{IpAllocator, has, get_freed, get_next, get_from, get_ip}

-- No address twice.
abbrev pub Once : List ℕ → Type 0
Once [] = Unit
Once (x ∷ xs) = (has x xs ≡ false) × Once xs

-- The allocator and the addresses that it gave out and did not get back: every address below
-- `next` is leased, free again or reserved, and never two of these.
pub record IsSound (leased : List ℕ) (a : IpAllocator) : Type 0 where
  pub first : a.start ≤ a.next
  pub bound : a.next ≤ a.last + 1
  pub small : a.last + 1 < 2 ^ 32
  pub once : Once a.freed
  pub free_again :
      (x : ℕ)
      → has x a.freed ≡ true
      → (a.start ≤ x) × (x < a.next) × (has x leased ≡ false) × (has x a.reserved ≡ false)
  pub out :
      (x : ℕ) → has x leased ≡ true → (a.start ≤ x) × (x < a.next) × (has x a.reserved ≡ false)
  pub accounted :
      (x : ℕ)
      → a.start ≤ x
      → x < a.next
      → (has x leased || has x a.freed || has x a.reserved) ≡ true

abbrev Popped : List ℕ → List ℕ → Type 0
Popped reserved freed =
    ((freed ≡ []) × (get_freed reserved freed ≡ (none, [])))
    ⊎ ((addr : ℕ) × (left : List ℕ) × (get_freed reserved freed ≡ (some addr, left))
        × (has addr freed ≡ true)
        × Once left
        × ((y : ℕ) → has y left ≡ (has y freed && not (addr == y))))

get_freed-Popped :
    (reserved freed : List ℕ)
    → Once freed
    → ((x : ℕ) → has x freed ≡ true → has x reserved ≡ false)
    → Popped reserved freed
unfolding get_freed has
get_freed-Popped reserved [] o h = inl (refl, refl)
get_freed-Popped reserved (x ∷ xs) o h =
    elim (get_freed-Popped reserved xs o.1 (λ y q. ground (arith, h y))) [
      | inl (e, g) ↦
          let fresh : has x reserved ≡ false = h x (ground arith) in
          inr (x, [], ground arith, ground arith, tt, λ y. ground arith)
      | inr (addr, left, g, i, ol, s) ↦ inr (
        addr,
        x ∷ left,
        ground arith,
        ground arith,
        (ground (arith, s x), ol),
        λ y. ground (arith, s y),
      )
    ]

abbrev Advanced : IpAllocator → Option ℕ × IpAllocator → Type 0
Advanced a result =
    ((x : ℕ) × (result ≡ (some x, record a { next = suc x }))
      × (a.next ≤ x)
      × (x ≤ a.last)
      × (has x a.reserved ≡ false)
      × ((y : ℕ) → a.next ≤ y → y < x → has y a.reserved ≡ true))
    ⊎ ((result ≡ (none, record a { next = a.last + 1 }))
        × ((y : ℕ) → a.next ≤ y → y ≤ a.last → has y a.reserved ≡ true))

-- The loop ends by itself: it has a turn for each address that is left.
get_next-Advanced :
    (fuel : ℕ) (a : IpAllocator)
    → a.last + 1 - a.next ≤ fuel
    → a.next ≤ a.last + 1
    → a.last + 1 < 2 ^ 32
    → Advanced a (get_next fuel a)
unfolding get_next
get_next-Advanced zero a f b s =
    let e : a.next ≡ a.last + 1 = omega arith in inr (rw (← e) refl, λ y l u. absurd (omega arith))
get_next-Advanced (suc fuel) a f b s = elim (Bool-cases (leb a.next a.last)) [
  | inr e ↦
      let q : a.next ≡ a.last + 1 = ground arith in
      rw (e, get_next) (inr (rw (← q) refl, λ y l u. absurd (omega arith)))
  | inl e ↦
      let l : a.next ≤ a.last = ground arith in
      let step : (a.next + 1) % 2 ^ 32 ≡ suc a.next = omega arith in
      elim (Bool-cases (has a.next a.reserved)) [
        | inr g ↦
            rw (e, g, get_next, step)
              (inl (a.next, refl, omega arith, l, g, λ y x z. absurd (omega arith)))
        | inl g ↦
            let ih =
              get_next-Advanced fuel (record a { next = suc a.next }) (omega arith) (omega arith)
                s in
            rw (e, g, get_next, step)
              (elim ih [
                | inl (x, r, n, m, fresh, all) ↦ inl (
                  x,
                  r,
                  omega arith,
                  m,
                  fresh,
                  λ y p q. elim (Bool-cases (a.next == y)) [
                    | inl same ↦ ground arith
                    | inr other ↦ all y (ground arith) q
                  ],
                )
                | inr (r, all) ↦ inr (
                  r,
                  λ y p q. elim (Bool-cases (a.next == y)) [
                    | inl same ↦ ground arith
                    | inr other ↦ all y (ground arith) q
                  ],
                )
              ])
      ]
]

-- What Get does: it leases an address that nobody holds, or every address is taken.
abbrev pub Got : List ℕ → IpAllocator → Option ℕ × IpAllocator → Type 0
Got leased a (answer, a') =
    ((x : ℕ) × (answer ≡ some x)
      × (has x leased ≡ false)
      × (has x a.reserved ≡ false)
      × (a.start ≤ x)
      × (x ≤ a.last)
      × IsSound (x ∷ leased) a')
    ⊎ ((answer ≡ none)
        × ((x : ℕ) → a.start ≤ x → x ≤ a.last → (has x leased || has x a.reserved) ≡ true)
        × IsSound leased a')

pop-Got :
    (leased : List ℕ) (a : IpAllocator) (x : ℕ) (left : List ℕ)
    → IsSound leased a
    → has x a.freed ≡ true
    → Once left
    → ((y : ℕ) → has y left ≡ (has y a.freed && not (x == y)))
    → Got leased a (some x, record a { freed = left })
unfolding has
pop-Got leased a x left v i o s =
    let (l, n, f, r) = v.free_again x i in
    let b = v.bound in
    inl (
      x,
      refl,
      f,
      r,
      l,
      omega arith,
      record {
        first = v.first;
        bound = b;
        small = v.small;
        once = o;
        free_again = λ y h. ground (arith, s y, v.free_again y);
        out = λ y h. ground (arith, v.out y);
        accounted = λ y p q. ground (arith, s y, v.accounted y);
      },
    )

next-Got :
    (leased : List ℕ) (a : IpAllocator) (result : Option ℕ × IpAllocator)
    → IsSound leased a
    → a.freed ≡ []
    → Advanced a result
    → Got leased a result
unfolding has
next-Got leased a (answer, a') v e (inl (x, r, n, m, fresh, all)) =
    let b = v.first in
    let unleased : has x leased ≡ false = ground (arith, v.out x) in
    let sound : IsSound (x ∷ leased) (record a { next = suc x }) = record {
      first = omega arith;
      bound = omega arith;
      small = v.small;
      once = v.once;
      free_again = λ y h. ground (arith, e);
      out = λ y h. ground (arith, v.out y);
      accounted = λ y p q. ground (arith, v.accounted y, all y);
    } in
    subst (λ p. Got leased a p) (sym r) (inl (x, refl, unleased, fresh, omega arith, m, sound))
next-Got leased a (answer, a') v e (inr (r, all)) =
    let b = v.bound in
    let f = v.first in
    let sound : IsSound leased (record a { next = a.last + 1 }) = record {
      first = omega arith;
      bound = omega arith;
      small = v.small;
      once = v.once;
      free_again = λ y h. ground (arith, e);
      out = λ y h. ground (arith, v.out y);
      accounted = λ y p q. ground (arith, v.accounted y, all y);
    } in
    subst (λ p. Got leased a p) (sym r)
      (inr (refl, λ y p q. ground (arith, v.accounted y, all y), sound))

get_ip-freed :
    (a : IpAllocator) (x : ℕ) (left : List ℕ)
    → get_freed a.reserved a.freed ≡ (some x, left)
    → get_ip a ≡ (some x, record a { freed = left })
unfolding get_ip get_from
get_ip-freed a x left g = ap (λ p. get_from p a) g

get_ip-next :
    (a : IpAllocator)
    → a.freed ≡ []
    → get_freed a.reserved a.freed ≡ (none, [])
    → get_ip a ≡ get_next (a.last + 1 - a.next) a
unfolding get_ip get_from
get_ip-next a e g =
    let same : record a { freed = [] } ≡ a = rw e refl in
    let here : get_ip a ≡ get_next (a.last + 1 - a.next) (record a { freed = [] }) =
      ap (λ p. get_from p a) g in
    here ∙ ap (get_next (a.last + 1 - a.next)) same

-- From a sound state Get either gives out an address of the subnet that is neither leased nor
-- reserved, or it fails, and then every address of the subnet is leased or reserved; the state
-- stays sound, with the address added to the leases in the first case.
pub get_ip-Got : (leased : List ℕ) (a : IpAllocator) → IsSound leased a → Got leased a (get_ip a)
get_ip-Got leased a v =
    elim (get_freed-Popped a.reserved a.freed v.once (λ x h. (v.free_again x h).3)) [
      | inr (x, left, g, i, o, s) ↦
          subst (λ p. Got leased a p) (sym (get_ip-freed a x left g))
            (pop-Got leased a x left v i o s)
      | inl (e, g) ↦
          subst (λ p. Got leased a p) (sym (get_ip-next a e g))
            (next-Got leased a (get_next (a.last + 1 - a.next) a) v e
              (get_next-Advanced (a.last + 1 - a.next) a (omega arith) v.bound v.small))
    ]
