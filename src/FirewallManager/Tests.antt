-- ===== src/FirewallManager/Tests.antt =====
-- The firewall manager of a node with one peer, over the router.
use liberator_node_go.Prelude.{
  ℕ, ◌+◌, ◌*◌, ◌^◌, ◌≡◌, refl, ◌∙◌, ◌≢◌, inl, true, false, none, some, List, [], ◌∷◌, arith, Bytes,
  codes, nat_eq, bytes_eq,
}
use liberator_node_go.Prelude.Map.{get}
use liberator_node_go.Firewall
use liberator_node_go.Router.{Router}
use liberator_node_go.Database.{PeerRow, RuleRow, Database, load_all_rules, join_rules}
use liberator_node_go.Database.Ids.{IsDatabase}
use liberator_node_go.FirewallManager.{Manager, ModelRule, run}
use liberator_node_go.FirewallManager.Laws.{Laws, Backed, Published, IsManager}
use liberator_node_go.FirewallManager.Backed.{Call, call_add, call_remove, call_remove_all, calls}
use liberator_node_go.FirewallManager.Calls.{calls-Backed}
use liberator_node_go.FirewallManager.Published.{calls-Published}
use liberator_node_go.FirewallManager.Restart.{run-Published}
use liberator_node_go.FirewallManager.Engine.{
  router_operations, router_laws, find_rule, IsReady, router_valid, router_find,
}

abbrev pub node : Bytes
node = codes "node-a"

pub named : node ≢ []
named e = cc

abbrev pub peer_row : PeerRow
peer_row = record {
  id = 1;
  kind = codes "awg";
  virtual_ip = 10 * 2 ^ 24 + 2;
  last_seen = 0;
  expiration_date = none;
  from_peer_total = 0;
  to_peer_total = 0;
  traffic_limit_gb = none;
  speed_limit_mbps = none;
  awg_private_key = codes "k";
  awg_public_key = codes "p";
}

abbrev rule_row : RuleRow
rule_row = record {
  id = 1;
  peer_id = 1;
  target_ip = none;
  protocol = codes "tcp";
  port_range_start = 80;
  port_range_end = none;
}

-- A database with the peer, and with these rules.
abbrev pub database : List RuleRow → ℕ → Database
database rules next = record {
  peers = peer_row ∷ [];
  rules = rules;
  next_peer_id = 2;
  next_rule_id = next;
  foreign_keys = true;
}

abbrev pub manager : List RuleRow → ℕ → Manager Router
manager rules next = record {
  db = database rules next;
  firewall = record { table = []; firewall = Firewall.new; routing_subs = []; firewall_subs = [] };
  node = node;
}

abbrev rule : ModelRule
rule = record {
  id = 0;
  target_address = some (10 * 2 ^ 24 + 3);
  protocol = codes "both";
  port_range_start = 8000;
  port_range_end = some 8010;
}

abbrev pub laws : Laws router_operations node
laws = router_laws node named

pub new-IsReady : IsReady node Firewall.new
unfolding Firewall.new get
new-IsReady = (
  record {
    below = omega arith;
    given = λ m s g. absurd (ground arith);
    one_each = λ m n s g h. absurd (ground arith);
    keyed = λ key r g. absurd (ground arith);
  },
  inl (omega arith),
)

pub empty-IsDatabase : IsDatabase (database [] 1)
empty-IsDatabase = record {
  rules_once = λ x y i j e. elim i [ ];
  peers_once = λ x y i j e. ground arith;
  rules_below = λ r i. elim i [ ];
  peers_below = λ p i. ground arith;
}

one-IsDatabase : IsDatabase (database (rule_row ∷ []) 2)
one-IsDatabase = record {
  rules_once = λ x y i j e. ground arith;
  peers_once = λ x y i j e. ground arith;
  rules_below = λ r i. ground arith;
  peers_below = λ p i. ground arith;
}

pub empty-IsManager : IsManager router_operations node laws (manager [] 1)
empty-IsManager = (
  refl,
  empty-IsDatabase,
  router_valid node named (manager [] 1).firewall new-IsReady,
  omega arith,
)

one-IsManager : IsManager router_operations node laws (manager (rule_row ∷ []) 2)
one-IsManager =
    (refl, one-IsDatabase, router_valid node named (manager [] 1).firewall new-IsReady, omega arith)

nothing_found :
    (rules : List RuleRow) (next j : ℕ) → laws.find j (manager rules next).firewall ≡ none
unfolding find_rule Firewall.new get
nothing_found rules next j = router_find node named j (manager rules next).firewall ∙ refl

pub empty-Backed : Backed router_operations node laws (database [] 1) (manager [] 1).firewall
empty-Backed id r small f = absurd (cc (nothing_found [] 1 id, f))

pub empty-Published : Published router_operations node laws (database [] 1) (manager [] 1).firewall
unfolding load_all_rules join_rules
empty-Published row i = elim i [ ]

-- An insert whose peer is not read, a whole AddRule, and a removal that stops halfway.
abbrev failing : List Call
failing =
    call_add true false 1 rule
    ∷ call_add true true 1 (record rule { port_range_start = 9000 })
    ∷ call_remove_all true false 1
    ∷ []

calls-Backed_example :
    IsManager router_operations node laws (calls router_operations failing (manager [] 1))
    × Backed router_operations node laws
        (calls router_operations failing (manager [] 1)).db
        (calls router_operations failing (manager [] 1)).firewall
calls-Backed_example =
    calls-Backed router_operations node laws failing (manager [] 1)
      (omega arith, (omega arith, (tt, tt))) (omega arith) empty-IsManager empty-Backed

abbrev clean : List Call
clean = call_add true true 1 rule ∷ call_remove false 1 ∷ call_remove_all true true 1 ∷ []

calls-Published_example :
    Backed router_operations node laws
      (calls router_operations clean (manager [] 1)).db
      (calls router_operations clean (manager [] 1)).firewall
    × Published router_operations node laws
        (calls router_operations clean (manager [] 1)).db
        (calls router_operations clean (manager [] 1)).firewall
calls-Published_example =
    calls-Published router_operations node laws clean (manager [] 1) (omega arith, (tt, (tt, tt)))
      (refl, (omega arith, (refl, tt))) (omega arith) empty-IsManager empty-Backed empty-Published

run-Published_example :
    ((run router_operations true (manager (rule_row ∷ []) 2)).0 ≡ true)
    × Backed router_operations node laws
        (run router_operations true (manager (rule_row ∷ []) 2)).1.db
        (run router_operations true (manager (rule_row ∷ []) 2)).1.firewall
    × Published router_operations node laws
        (run router_operations true (manager (rule_row ∷ []) 2)).1.db
        (run router_operations true (manager (rule_row ∷ []) 2)).1.firewall
run-Published_example =
    run-Published router_operations node laws (manager (rule_row ∷ []) 2) one-IsManager
      (λ j small. nothing_found (rule_row ∷ []) 2 j)
