-- ===== src/Database/Changes.antt =====
-- The queries of internal/infra/repos that write keep the ids apart, and a new peer gets an
-- address of its own.
use liberator_node_go.Prelude.{
  ℕ, ◌+◌, ◌≤◌, ◌<◌, ◌≡◌, sym, subst, ◌⊎◌, inl, inr, Bool, true, false, not, ◌&&◌, ◌||◌, none, some,
  List, [], ◌∷◌, ◌++◌, arith, if◌then◌else◌, ◌==◌, keep, nat_eq, bytes_eq, Bool-cases, In,
}
use liberator_node_go.Prelude.{In-append_cases, In-keep}
use liberator_node_go.Database.{
  PeerRow, RuleRow, Database, get_peer_by_id, insert_peer_rule, delete_peer_rule,
  delete_all_peer_rules, delete_peer, next_virtual_ip, create_peer_auto_id, is_protocol, is_some,
  clashes, find_first,
}
use liberator_node_go.Database.Ids.{OneEach, IsDatabase}

OneEach-keep :
    {A : Type 0} (id : A → ℕ) (p : A → Bool) (xs : List A) → OneEach id xs → OneEach id (keep p xs)
OneEach-keep id p xs v x y m n e = v x y (In-keep p x xs m).0 (In-keep p y xs n).0 e

OneEach-snoc :
    {A : Type 0} (id : A → ℕ) (xs : List A) (z : A)
    → OneEach id xs
    → ((x : A) → In x xs → id x < id z)
    → OneEach id (xs ++ z ∷ [])
OneEach-snoc id xs z v below x y m n e = elim (In-append_cases x xs (z ∷ []) m) [
  | inl a ↦ elim (In-append_cases y xs (z ∷ []) n) [
    | inl b ↦ v x y a b e
    | inr b ↦ absurd (ground (arith, below x a))
  ]
  | inr a ↦ elim (In-append_cases y xs (z ∷ []) n) [
    | inl b ↦ absurd (ground (arith, below y b))
    | inr b ↦ ground arith
  ]
]

-- The row that InsertPeerRule writes.
abbrev pub numbered : RuleRow → Database → RuleRow
numbered row db = record row { id = db.next_rule_id }

-- The constraints of peers_rules allow the row.
abbrev pub allows : RuleRow → Database → Bool
allows row db =
    is_protocol row.protocol
    && not (is_some (find_first (clashes row) db.rules))
    && (not db.foreign_keys || is_some (get_peer_by_id row.peer_id db))

abbrev inserted : RuleRow → Database → Database
inserted row db = record db {
  rules = db.rules ++ numbered row db ∷ [];
  next_rule_id = db.next_rule_id + 1;
}

pub insert_peer_rule_cases :
    (row : RuleRow) (db : Database)
    → ((allows row db ≡ true) × (insert_peer_rule row db ≡ (some db.next_rule_id, inserted row db)))
      ⊎ ((allows row db ≡ false) × (insert_peer_rule row db ≡ (none, db)))
unfolding insert_peer_rule
insert_peer_rule_cases row db = elim (Bool-cases (allows row db)) [
  | inl e ↦ inl (e, rw (e, insert_peer_rule))
  | inr e ↦ inr (e, rw (e, insert_peer_rule))
]

pub inserted-IsDatabase :
    (row : RuleRow) (db : Database) → IsDatabase db → IsDatabase (inserted row db)
inserted-IsDatabase row db v = record {
  rules_once =
      OneEach-snoc (λ (r : RuleRow). r.id) db.rules (numbered row db) v.rules_once v.rules_below;
  peers_once = v.peers_once;
  rules_below =
      λ r m. ground (arith, In-append_cases r db.rules (numbered row db ∷ []) m, v.rules_below r);
  peers_below = v.peers_below;
}

pub insert_peer_rule-IsDatabase :
    (row : RuleRow) (db : Database) → IsDatabase db → IsDatabase (insert_peer_rule row db).1
insert_peer_rule-IsDatabase row db v = elim (insert_peer_rule_cases row db) [
  | inl (e, q) ↦ subst (λ p. IsDatabase p.1) (sym q) (inserted-IsDatabase row db v)
  | inr (e, q) ↦ subst (λ p. IsDatabase p.1) (sym q) v
]

keep_rules-IsDatabase :
    (p : RuleRow → Bool) (db : Database)
    → IsDatabase db
    → IsDatabase (record db { rules = keep p db.rules })
keep_rules-IsDatabase p db v = record {
  rules_once = OneEach-keep (λ (r : RuleRow). r.id) p db.rules v.rules_once;
  peers_once = v.peers_once;
  rules_below = λ r m. v.rules_below r (In-keep p r db.rules m).0;
  peers_below = v.peers_below;
}

pub delete_peer_rule-IsDatabase :
    (id : ℕ) (db : Database) → IsDatabase db → IsDatabase (delete_peer_rule id db)
unfolding delete_peer_rule
delete_peer_rule-IsDatabase id db v = keep_rules-IsDatabase _ db v

pub delete_all_peer_rules-IsDatabase :
    (peer : ℕ) (db : Database) → IsDatabase db → IsDatabase (delete_all_peer_rules peer db)
unfolding delete_all_peer_rules
delete_all_peer_rules-IsDatabase peer db v = keep_rules-IsDatabase _ db v

keep_peers-IsDatabase :
    (p : PeerRow → Bool) (db : Database)
    → IsDatabase db
    → IsDatabase (record db { peers = keep p db.peers })
keep_peers-IsDatabase p db v = record {
  rules_once = v.rules_once;
  peers_once = OneEach-keep (λ (r : PeerRow). r.id) p db.peers v.peers_once;
  rules_below = v.rules_below;
  peers_below = λ r m. v.peers_below r (In-keep p r db.peers m).0;
}

-- What holds of both branches holds of the test.
pub if_both :
    {A : Type 0} (P : A → Type 0) (b : Bool) (x y : A) → P x → P y → P (if b then x else y)
if_both P true x y p q = p
if_both P false x y p q = q

pub delete_peer-IsDatabase :
    (id : ℕ) (db : Database) → IsDatabase db → IsDatabase (delete_peer id db)
unfolding delete_peer
delete_peer-IsDatabase id db v =
    let w = keep_peers-IsDatabase (λ p. not (p.id == id)) db v in
    if_both IsDatabase db.foreign_keys _ _ (delete_all_peer_rules-IsDatabase id _ w) w

pub create_peer_auto_id-IsDatabase :
    (now low : ℕ) (row : PeerRow) (db : Database)
    → IsDatabase db
    → IsDatabase (create_peer_auto_id now low row db).1
unfolding create_peer_auto_id
create_peer_auto_id-IsDatabase now low row db v = record {
  rules_once = v.rules_once;
  peers_once =
      OneEach-snoc (λ (r : PeerRow). r.id) db.peers (create_peer_auto_id now low row db).0
        v.peers_once v.peers_below;
  rules_below = v.rules_below;
  peers_below = λ r m. ground (
    arith,
    In-append_cases r db.peers ((create_peer_auto_id now low row db).0 ∷ []) m,
    v.peers_below r,
  );
}

pub next_virtual_ip_low : (low : ℕ) (ps : List PeerRow) → low ≤ next_virtual_ip low ps
unfolding next_virtual_ip
next_virtual_ip_low low [] = omega arith
next_virtual_ip_low low (p ∷ ps) = ground (arith, next_virtual_ip_low low ps)

pub next_virtual_ip_above :
    (low : ℕ) (ps : List PeerRow) (p : PeerRow)
    → In p ps
    → low ≤ p.virtual_ip
    → p.virtual_ip < next_virtual_ip low ps
unfolding next_virtual_ip
next_virtual_ip_above low [] p m h = elim m [ ]
next_virtual_ip_above low (q ∷ ps) p m h = ground (arith, next_virtual_ip_above low ps p)
