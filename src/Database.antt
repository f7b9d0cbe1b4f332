-- ===== src/Database.antt =====
-- The tables of internal/infra/repos (sqlc/migrations/001_database.sql) and its queries: what the
-- SQL of peers.sql.go and rules.sql.go does when the database carries it out. An int64 is kept as
-- its 64 bits, which the conversions from and to uint64 do not change, a float64 as its bits, and
-- a time as a number; sums are taken to stay below 2 ^ 63. A query that fails without having an effect is up to its caller. Whether
-- foreign keys are enforced is a setting of the connection.
pub mod Ids
pub mod Changes
use liberator_node_go.Prelude.{
  ℕ, zero, suc, ◌+◌, ◌-◌, ◌*◌, ◌/◌, ◌%◌, ◌^◌, ◌≤◌, ◌<◌, bit_and, bit_or, bit_xor, ◌≡◌, refl, sym,
  ap, subst, ◌∙◌, ◌≢◌, ◌↔◌, ◌⊎◌, inl, inr, Bool, true, false, not, ◌&&◌, ◌||◌, Option, none, some,
  List, [], ◌∷◌, ◌++◌, map, arith, if◌then◌else◌, ltb, leb, ◌==◌, bool_beq, bytes_ltb,
  bytes_ltb_flip, bytes_ltb_irrefl, Bytes, codes, bytes_beq, bytes_beq_iff, keep, length, nat_eq,
  bytes_eq, ==_iff, Bool-cases, Option-cases, In, All,
}

-- Peer of models.go, a row of the table peers
pub record PeerRow : Type 0 where
  pub id : ℕ
  pub kind : Bytes
  pub virtual_ip : ℕ
  pub last_seen : ℕ
  pub expiration_date : Option ℕ
  pub from_peer_total : ℕ
  pub to_peer_total : ℕ
  pub traffic_limit_gb : Option ℕ
  pub speed_limit_mbps : Option ℕ
  pub awg_private_key : Bytes
  pub awg_public_key : Bytes

-- PeersRule of models.go, a row of the table peers_rules
pub record RuleRow : Type 0 where
  pub id : ℕ
  pub peer_id : ℕ
  pub target_ip : Option ℕ
  pub protocol : Bytes
  pub port_range_start : ℕ
  pub port_range_end : Option ℕ

-- LoadAllRulesRow
pub record LoadAllRulesRow : Type 0 where
  pub id : ℕ
  pub peer_id : ℕ
  pub virtual_ip : ℕ
  pub target_ip : Option ℕ
  pub protocol : Bytes
  pub port_range_start : ℕ
  pub port_range_end : Option ℕ

-- The tables with the next ids of AUTOINCREMENT.
pub record Database : Type 0 where
  pub peers : List PeerRow
  pub rules : List RuleRow
  pub next_peer_id : ℕ
  pub next_rule_id : ℕ
  pub foreign_keys : Bool

-- The first row with a property.
unfoldable pub find_first : {A : Type 0} → (A → Bool) → List A → Option A
find_first p [] = none
find_first p (x ∷ xs) = let rest = find_first p xs in if p x then some x else rest

-- GetPeerByID
unfoldable pub get_peer_by_id : ℕ → Database → Option PeerRow
get_peer_by_id id db = find_first (λ p. p.id == id) db.peers

-- GetPeerByVirtualIP
unfoldable pub get_peer_by_virtual_ip : ℕ → Database → Option PeerRow
get_peer_by_virtual_ip ip db = find_first (λ p. p.virtual_ip == ip) db.peers

-- The rows of LoadAllRules for one rule: the JOIN with the peers.
unfoldable pub join_peer : RuleRow → List PeerRow → List LoadAllRulesRow
join_peer r [] = []
join_peer r (p ∷ ps) =
    let rest = join_peer r ps in
    if r.peer_id == p.id
    then record {
      id = r.id;
      peer_id = r.peer_id;
      virtual_ip = p.virtual_ip;
      target_ip = r.target_ip;
      protocol = r.protocol;
      port_range_start = r.port_range_start;
      port_range_end = r.port_range_end;
    }
      ∷ rest
    else rest

unfoldable pub join_rules : List PeerRow → List RuleRow → List LoadAllRulesRow
join_rules ps [] = []
join_rules ps (r ∷ rs) = join_peer r ps ++ join_rules ps rs

-- LoadAllRules
unfoldable pub load_all_rules : Database → List LoadAllRulesRow
load_all_rules db = join_rules db.peers db.rules

-- LoadRulesByPeerID; the rows are kept in the order of their ids.
unfoldable pub load_rules_by_peer_id : ℕ → Database → List RuleRow
load_rules_by_peer_id peer db = keep (λ r. r.peer_id == peer) db.rules

-- The UNIQUE index of peers_rules, in which no NULL equals another.
unfoldable pub same_target : Option ℕ → Option ℕ → Bool
same_target none none = false
same_target none (some b) = false
same_target (some a) none = false
same_target (some a) (some b) = a == b

unfoldable pub clashes : RuleRow → RuleRow → Bool
clashes a b =
    (a.peer_id == b.peer_id)
    && same_target a.target_ip b.target_ip
    && bytes_beq a.protocol b.protocol
    && (a.port_range_start == b.port_range_start)
    && same_target a.port_range_end b.port_range_end

-- The CHECK of peers_rules.
unfoldable pub is_protocol : Bytes → Bool
is_protocol p = bytes_beq p (codes "tcp") || bytes_beq p (codes "udp") || bytes_beq p (codes "both")

unfoldable pub is_some : {A : Type 0} → Option A → Bool
is_some none = false
is_some (some x) = true

-- InsertPeerRule, on a row whose id is chosen here: its id, unless a constraint forbids it.
unfoldable pub insert_peer_rule : RuleRow → Database → Option ℕ × Database
insert_peer_rule row db =
    if is_protocol row.protocol
      && not (is_some (find_first (clashes row) db.rules))
      && (not db.foreign_keys || is_some (get_peer_by_id row.peer_id db))
    then (
      some db.next_rule_id,
      record db {
        rules = db.rules ++ record row { id = db.next_rule_id } ∷ [];
        next_rule_id = db.next_rule_id + 1;
      },
    )
    else (none, db)

-- DeletePeerRule
unfoldable pub delete_peer_rule : ℕ → Database → Database
delete_peer_rule id db = record db { rules = keep (λ r. not (r.id == id)) db.rules }

-- DeleteAllPeerRules
unfoldable pub delete_all_peer_rules : ℕ → Database → Database
delete_all_peer_rules peer db = record db { rules = keep (λ r. not (r.peer_id == peer)) db.rules }

-- DeletePeer, with the rules of the peer when foreign keys are enforced (ON DELETE CASCADE)
unfoldable pub delete_peer : ℕ → Database → Database
delete_peer id db =
    let db' = record db { peers = keep (λ p. not (p.id == id)) db.peers } in
    if db.foreign_keys then delete_all_peer_rules id db' else db'

-- MAX(virtual_ip) + 1 among the addresses from `low` on, or `low`
unfoldable pub next_virtual_ip : ℕ → List PeerRow → ℕ
next_virtual_ip low [] = low
next_virtual_ip low (p ∷ ps) =
    let rest = next_virtual_ip low ps in
    if leb low p.virtual_ip
    then (if ltb p.virtual_ip rest then rest else p.virtual_ip + 1)
    else rest

-- CreatePeerAutoID at the time `now`, on a row whose id and address are chosen here; the counters
-- start at 0.
unfoldable pub create_peer_auto_id : ℕ → ℕ → PeerRow → Database → PeerRow × Database
create_peer_auto_id now low row db =
    let row' = record row {
      id = db.next_peer_id;
      virtual_ip = next_virtual_ip low db.peers;
      last_seen = now;
      from_peer_total = 0;
      to_peer_total = 0;
    } in
    (row', record db { peers = db.peers ++ row' ∷ []; next_peer_id = db.next_peer_id + 1 })

-- UpdatePeerStats
unfoldable pub update_stats : ℕ → ℕ → ℕ → ℕ → PeerRow → PeerRow
update_stats ip from_inc to_inc last_seen p =
    if p.virtual_ip == ip
    then record p {
      from_peer_total = p.from_peer_total + from_inc;
      to_peer_total = p.to_peer_total + to_inc;
      last_seen = (if ltb p.last_seen last_seen then last_seen else p.last_seen);
    }
    else p

unfoldable pub update_peer_stats : ℕ → ℕ → ℕ → ℕ → Database → Database
update_peer_stats ip from_inc to_inc last_seen db = record db {
  peers = map (update_stats ip from_inc to_inc last_seen) db.peers;
}
