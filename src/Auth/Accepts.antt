-- ===== src/Auth/Accepts.antt =====
-- Which requests the two functions of pkg/api/controllers let through: the same.
use liberator_node_go.Prelude.{
  ℕ, ◌≡◌, refl, sym, subst, ◌∙◌, ◌≢◌, ◌↔◌, inl, inr, true, Option, none, some, List, [], ◌∷◌, ◌++◌,
  arith, Bytes, codes, bytes_beq, bytes_beq_iff, nat_eq, bytes_eq, Bool-cases, Option-cases, In,
}
use liberator_node_go.Auth.{
  Token, accepted, cons_first, split, equal_fold, has_claim, check_token, check_parts,
  http_auth_middleware, unary_auth_interceptor,
}

split-ne : (sep : ℕ) (s : Bytes) → split sep s ≢ []
unfolding split cons_first
split-ne sep [] e = ground arith
split-ne sep (c ∷ cs) e = ground (arith, split-ne sep cs)

split_one : (sep : ℕ) (s a : Bytes) → split sep s ≡ a ∷ [] → (s ≡ a) × (¬ In sep a)
unfolding split cons_first
split_one sep [] a e = ground arith
split_one sep (c ∷ cs) [] e = ground (arith, split-ne sep cs)
split_one sep (c ∷ cs) (x ∷ xs) e = ground (arith, split-ne sep cs, split_one sep cs xs)

split_two :
    (sep : ℕ) (s a b : Bytes)
    → split sep s ≡ a ∷ b ∷ []
    → (s ≡ a ++ sep ∷ b) × (¬ In sep a) × (¬ In sep b)
unfolding split cons_first
split_two sep [] a b e = ground arith
split_two sep (c ∷ cs) [] b e = ground (arith, split_one sep cs b)
split_two sep (c ∷ cs) (x ∷ xs) b e = ground (arith, split-ne sep cs, split_two sep cs xs b)

split_none : (sep : ℕ) (s : Bytes) → (¬ In sep s) → split sep s ≡ s ∷ []
unfolding split cons_first
split_none sep [] h = refl
split_none sep (c ∷ cs) h = ground (arith, split_none sep cs (λ i. h (inr i)))

split_append :
    (sep : ℕ) (a b : Bytes) → (¬ In sep a) → (¬ In sep b) → split sep (a ++ sep ∷ b) ≡ a ∷ b ∷ []
unfolding split cons_first
split_append sep [] b h k = ground (arith, split_none sep b k)
split_append sep (c ∷ cs) b h k = ground (arith, split_append sep cs b (λ i. h (inr i)) k)

module _ (parse : Bytes → Bytes → Option Token) (secret : Bytes) where
  -- The parser took the word, the token is valid and has a claim "exp".
  abbrev pub IsGranted : Bytes → Type 0
  IsGranted word =
      (token : Token) × (parse secret word ≡ some token)
      × (token.valid ≡ true)
      × (has_claim (codes "exp") token.claims ≡ true)

  -- The header is the word Bearer in any case, one space, and such a token without spaces.
  abbrev pub IsBearer : Bytes → Type 0
  IsBearer header =
      (scheme : Bytes) × (word : Bytes) × (header ≡ scheme ++ b' ' ∷ word)
      × (¬ In b' ' scheme)
      × (¬ In b' ' word)
      × (equal_fold scheme (codes "Bearer") ≡ true)
      × IsGranted word

  check_token_iff :
      (word : Bytes) → (check_token parse secret (parse secret word) ≡ accepted) ↔ IsGranted word
  unfolding check_token
  check_token_iff word = elim (Option-cases (parse secret word)) [
    | inl e ↦ (λ h. absurd (ground arith), λ (token, g, v, c). absurd (ground arith))
    | inr (token, e) ↦ (λ h. (token, e, ground arith, ground arith), λ (t, g, v, c). ground arith)
  ]

  check_parts_sound :
      (parts : List Bytes)
      → check_parts parse secret parts ≡ accepted
      → (scheme : Bytes) × (word : Bytes) × (parts ≡ scheme ∷ word ∷ [])
        × (equal_fold scheme (codes "Bearer") ≡ true)
        × IsGranted word
  unfolding check_parts
  check_parts_sound [] h = absurd (ground arith)
  check_parts_sound (a ∷ []) h = absurd (ground arith)
  check_parts_sound (a ∷ b ∷ []) h = elim (Bool-cases (equal_fold a (codes "Bearer"))) [
    | inl e ↦ (a, b, refl, e, (check_token_iff b).0 (rw e at h))
    | inr e ↦ absurd (ground arith)
  ]
  check_parts_sound (a ∷ b ∷ c ∷ ps) h = absurd (ground arith)

  header_iff :
      (header : Bytes) → (check_parts parse secret (split b' ' header) ≡ accepted) ↔ IsBearer header
  unfolding check_parts
  header_iff header = (
    λ h.
        let (scheme, word, e, fold, granted) = check_parts_sound (split b' ' header) h in
        let (s, a, b) = split_two b' ' header scheme word e in
        (scheme, word, s, a, b, fold, granted),
    λ (scheme, word, s, a, b, fold, granted).
        rw (s, split_append b' ' scheme word a b, check_parts, fold)
          ((check_token_iff word).1 granted),
  )

  grpc_iff :
      (md : Option (List Bytes))
      → (unary_auth_interceptor parse secret md ≡ accepted)
        ↔ ((first : Bytes) × (rest : List Bytes) × (md ≡ some (first ∷ rest)) × IsBearer first)
  unfolding unary_auth_interceptor
  grpc_iff none = (λ h. absurd (ground arith), λ (first, rest, e, b). absurd (ground arith))
  grpc_iff (some []) = (λ h. absurd (ground arith), λ (first, rest, e, b). absurd (ground arith))
  grpc_iff (some (x ∷ xs)) = (
    λ h. (x, xs, refl, (header_iff x).0 h),
    λ (first, rest, e, b).
        let same : first ≡ x = ground arith in (header_iff x).1 (subst IsBearer same b),
  )

  http_iff :
      (header : Bytes) → (http_auth_middleware parse secret header ≡ accepted) ↔ IsBearer header
  unfolding http_auth_middleware
  http_iff header = elim (Bool-cases (bytes_beq header [])) [
    | inr e ↦ rw (http_auth_middleware, e) (header_iff header)
    | inl e ↦
        let empty : header ≡ [] = (bytes_beq_iff header []).0 e in
        (
          λ h. absurd (ground arith),
          λ (scheme, word, s, a, b, f, g). absurd (no_space scheme word (sym empty ∙ s)),
        )
  ]
    where
      no_space : (scheme word : Bytes) → [] ≢ scheme ++ b' ' ∷ word
      no_space [] word e = ground arith
      no_space (c ∷ cs) word e = ground arith

-- Both interfaces let a request through under the same condition, whatever the parser of tokens
-- does: the Authorization header, for gRPC the first of the values under "authorization" in the
-- metadata, which has to be there, is the word "Bearer" in upper or lower case, one space, and a
-- token without spaces that the parser accepts with the secret, that is valid and that has a
-- claim "exp".
pub auth_iff :
    (parse : Bytes → Bytes → Option Token) (secret header : Bytes) (md : Option (List Bytes))
    → ((http_auth_middleware parse secret header ≡ accepted) ↔ IsBearer parse secret header)
      × ((unary_auth_interceptor parse secret md ≡ accepted) ↔ (
          (first : Bytes) × (rest : List Bytes) × (md ≡ some (first ∷ rest))
          × IsBearer parse secret first))
auth_iff parse secret header md = (http_iff parse secret header, grpc_iff parse secret md)
