-- ===== src/Auth.antt =====
-- The authentication of pkg/api/controllers: UnaryAuthInterceptor of grpc/auth.go and
-- HTTPAuthMiddleware of http/auth.go. The parser of tokens of golang-jwt is a parameter: whether
-- it returns a token without an error, whether that is valid, and the names of its claims.
pub mod Accepts
pub mod Tests
use liberator_node_go.Prelude.{
  ℕ, zero, suc, ◌+◌, ◌-◌, ◌*◌, ◌/◌, ◌%◌, ◌^◌, ◌≤◌, ◌<◌, bit_and, bit_or, bit_xor, ◌≡◌, refl, sym,
  ap, subst, ◌∙◌, ◌≢◌, ◌↔◌, ◌⊎◌, inl, inr, Bool, true, false, not, ◌&&◌, ◌||◌, Option, none, some,
  List, [], ◌∷◌, ◌++◌, map, arith, if◌then◌else◌, ltb, leb, ◌==◌, bool_beq, bytes_ltb,
  bytes_ltb_flip, bytes_ltb_irrefl, Bytes, codes, bytes_beq, bytes_beq_iff, keep, length, nat_eq,
  bytes_eq, ==_iff, Bool-cases, Option-cases, In, All,
}

-- What ParseWithClaims returned: token.Valid and the names of the claims.
pub record Token : Type 0 where
  pub valid : Bool
  pub claims : List Bytes

-- The handler is called, or the request is refused for a reason.
pub data Verdict : Type 0 where
  accepted no_metadata missing malformed invalid no_expiration : Verdict

-- strings.Split by a byte: the parts between its places.
unfoldable pub cons_first : ℕ → List Bytes → List Bytes
cons_first c [] = (c ∷ []) ∷ []
cons_first c (p ∷ ps) = (c ∷ p) ∷ ps

unfoldable pub split : ℕ → Bytes → List Bytes
split sep [] = [] ∷ []
split sep (c ∷ cs) = let rest = split sep cs in if c == sep then [] ∷ rest else cons_first c rest

-- strings.EqualFold on a word of ASCII letters that no other character folds to.
unfoldable pub lower : ℕ → ℕ
lower c = if leb 65 c && leb c 90 then c + 32 else c

unfoldable pub equal_fold : Bytes → Bytes → Bool
equal_fold a b = bytes_beq (map lower a) (map lower b)

unfoldable pub has_claim : Bytes → List Bytes → Bool
has_claim name [] = false
has_claim name (c ∷ cs) = let rest = has_claim name cs in if bytes_beq c name then true else rest

module _ (parse : Bytes → Bytes → Option Token) (secret : Bytes) where
  -- The end of both functions, on what ParseWithClaims gave.
  unfoldable pub check_token : Option Token → Verdict
  check_token none = invalid
  check_token (some token) =
      if not token.valid
      then invalid
      else if not (has_claim (codes "exp") token.claims)
      then no_expiration
      else accepted

  -- The test on the parts of the header, and the token.
  unfoldable pub check_parts : List Bytes → Verdict
  check_parts (scheme ∷ word ∷ []) =
      if not (equal_fold scheme (codes "Bearer"))
      then malformed
      else check_token (parse secret word)
  check_parts _ = malformed

  -- HTTPAuthMiddleware, on what Header.Get gives: the empty string for a missing header
  unfoldable pub http_auth_middleware : Bytes → Verdict
  http_auth_middleware header =
      if bytes_beq header [] then missing else check_parts (split b' ' header)

  -- UnaryAuthInterceptor, on the values of the key "authorization" in the metadata
  unfoldable pub unary_auth_interceptor : Option (List Bytes) → Verdict
  unary_auth_interceptor none = no_metadata
  unary_auth_interceptor (some []) = missing
  unary_auth_interceptor (some (header ∷ others)) = check_parts (split b' ' header)
