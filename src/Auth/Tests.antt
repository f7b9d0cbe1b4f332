-- ===== src/Auth/Tests.antt =====
-- The two authentications on a concrete header.
use liberator_node_go.Prelude.{
  ◌≡◌, ◌↔◌, true, Option, none, some, List, [], ◌∷◌, if◌then◌else◌, Bytes, codes, bytes_beq, nat_eq,
  bytes_eq,
}
use liberator_node_go.Auth.{Token, accepted, http_auth_middleware, unary_auth_interceptor}
use liberator_node_go.Auth.Accepts.{IsBearer, auth_iff}

abbrev parse : Bytes → Bytes → Option Token
parse secret word =
    if bytes_beq word secret
    then some (record { valid = true; claims = codes "sub" ∷ codes "exp" ∷ [] })
    else none

abbrev header : Bytes
header = codes "bearer abc"

auth_iff_example :
    ((http_auth_middleware parse (codes "abc") header ≡ accepted)
      ↔ IsBearer parse (codes "abc") header)
    × ((unary_auth_interceptor parse (codes "abc") (some (header ∷ [])) ≡ accepted) ↔ (
        (first : Bytes) × (rest : List Bytes) × (some (header ∷ []) ≡ some (first ∷ rest))
        × IsBearer parse (codes "abc") first))
auth_iff_example = auth_iff parse (codes "abc") header (some (header ∷ []))
