-- ===== src/Prelude/Map.antt =====
-- Go maps as association lists: a read, a write in place or at the end, and `delete`. A range
-- over a map visits the entries in the order of the list; Go's order is arbitrary, so a theorem
-- that ranges over all such lists covers every order.
use mathlib.Core.Path.{◌≡◌, refl}
use mathlib.Core.Logic.{◌⊎◌, inl, inr, ◌≢◌}
use mathlib.Core.List.{List, [], ◌∷◌}
use mathlib.Core.Option.{Option, none, some}
use mathlib.Core.Bool.{Bool, true, false}
use native.Mathlib.Omega.{arith}
use liberator_node_go.Prelude.Tests.{if◌then◌else◌, Eq, Bool-cases}
use liberator_node_go.Prelude.Lists.{In, keep}

module _ {K : Type 0} ⦃e : Eq K⦄ where
  pub beq_refl : (k : K) → e.beq k k ≡ true
  beq_refl k = (e.beq_iff k k).1 refl

  pub beq_ne : (j k : K) → j ≢ k → e.beq j k ≡ false
  beq_ne j k h = ground (arith, e.beq_iff j k)

module _ {K V : Type 0} ⦃e : Eq K⦄ where
  unfoldable pub get : K → List (K × V) → Option V
  get k [] = none
  get k ((j, w) ∷ m) = if e.beq j k then some w else get k m

  unfoldable pub put : K → V → List (K × V) → List (K × V)
  put k v [] = (k, v) ∷ []
  put k v ((j, w) ∷ m) = let rest = put k v m in if e.beq j k then (k, v) ∷ m else (j, w) ∷ rest

  unfoldable pub erase : K → List (K × V) → List (K × V)
  erase k [] = []
  erase k ((j, w) ∷ m) = let rest = erase k m in if e.beq j k then rest else (j, w) ∷ rest

  pub get-put :
      (k j : K) (v : V) (m : List (K × V))
      → get j (put k v m) ≡ (if e.beq k j then some v else get j m)
  unfolding get put
  get-put k j v [] = refl
  get-put k j v ((i, w) ∷ m) =
      ground (arith, e.beq_iff i k, e.beq_iff i j, e.beq_iff k j, get-put k j v m)

  pub get-erase :
      (k j : K) (m : List (K × V)) → get j (erase k m) ≡ (if e.beq k j then none else get j m)
  unfolding get erase
  get-erase k j [] = ground arith
  get-erase k j ((i, w) ∷ m) =
      ground (arith, e.beq_iff i k, e.beq_iff i j, e.beq_iff k j, get-erase k j m)

  pub get-put_self : (k : K) (v : V) (m : List (K × V)) → get k (put k v m) ≡ some v
  get-put_self k v m = rw (get-put k k v m, beq_refl k)

  pub get-put_ne : (k j : K) (v : V) (m : List (K × V)) → k ≢ j → get j (put k v m) ≡ get j m
  get-put_ne k j v m h = rw (get-put k j v m, beq_ne k j h)

  pub get-erase_self : (k : K) (m : List (K × V)) → get k (erase k m) ≡ none
  get-erase_self k m = rw (get-erase k k m, beq_refl k)

  pub get-erase_ne : (k j : K) (m : List (K × V)) → k ≢ j → get j (erase k m) ≡ get j m
  get-erase_ne k j m h = rw (get-erase k j m, beq_ne k j h)

  -- An entry that a read finds is in the list.
  pub get-In : (k : K) (v : V) (m : List (K × V)) → get k m ≡ some v → In (k, v) m
  unfolding get
  get-In k v [] h = cc
  get-In k v ((j, w) ∷ m) h = ground (arith, e.beq_iff j k, get-In k v m)

  -- What is filtered away does not show at a key whose entry stays.
  pub get-keep :
      (p : K × V → Bool) (k : K) (m : List (K × V))
      → ((v : V) → get k m ≡ some v → p (k, v) ≡ true)
      → get k (keep p m) ≡ get k m
  unfolding get keep
  get-keep p k [] h = refl
  get-keep p k ((j, w) ∷ m) h = elim (Bool-cases (e.beq j k)) [
    | inl q ↦
        let same : j ≡ k = (e.beq_iff j k).0 q in
        let stays : p (j, w) ≡ true = rw same (h w (ground arith)) in ground arith
    | inr q ↦
        let tail = get-keep p k m (λ v g. h v (ground arith)) in
        elim (Bool-cases (p (j, w))) [ inl u ↦ ground arith | inr u ↦ ground arith ]
  ]

  -- No key twice: what every map that these operations build satisfies.
  abbrev pub Keys : List (K × V) → Type 0
  Keys [] = Unit
  Keys ((j, w) ∷ m) = (get j m ≡ none) × Keys m

  pub In-get : (k : K) (v : V) (m : List (K × V)) → Keys m → In (k, v) m → get k m ≡ some v
  unfolding get
  In-get k v [] d h = elim h [ ]
  In-get k v ((j, w) ∷ m) d (inl q) = ground (arith, e.beq_iff j k)
  In-get k v ((j, w) ∷ m) d (inr h) = ground (arith, e.beq_iff j k, In-get k v m d.1 h)

  pub put-Keys : (k : K) (v : V) (m : List (K × V)) → Keys m → Keys (put k v m)
  unfolding get put
  put-Keys k v [] d = (refl, tt)
  put-Keys k v ((j, w) ∷ m) d =
      ground (arith, e.beq_iff j k, e.beq_iff k j, get-put k j v m, put-Keys k v m d.1)

  pub erase-Keys : (k : K) (m : List (K × V)) → Keys m → Keys (erase k m)
  unfolding get erase
  erase-Keys k [] d = tt
  erase-Keys k ((j, w) ∷ m) d =
      ground (arith, e.beq_iff j k, e.beq_iff k j, get-erase k j m, erase-Keys k m d.1)

  pub In-put :
      (k j : K) (v w : V) (m : List (K × V))
      → In (j, w) (put k v m)
      → ((k ≡ j) × (v ≡ w)) ⊎ In (j, w) m
  unfolding put
  In-put k j v w [] h = ground arith
  In-put k j v w ((i, u) ∷ m) h = ground (arith, In-put k j v w m)

  pub In-erase : (k j : K) (w : V) (m : List (K × V)) → In (j, w) (erase k m) → In (j, w) m
  unfolding erase
  In-erase k j w [] h = elim h [ ]
  In-erase k j w ((i, u) ∷ m) h = ground (arith, In-erase k j w m)
