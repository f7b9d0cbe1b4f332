-- ===== src/Database/Ids.antt =====
-- The ids of the tables of internal/infra/repos: every row keeps its own.
use liberator_node_go.Prelude.{
  ℕ, ◌<◌, ◌≡◌, refl, ap, inl, inr, Bool, true, false, none, some, List, [], ◌∷◌, arith, ◌==◌,
  nat_eq, bytes_eq, Bool-cases, In,
}
use liberator_node_go.Prelude.{In-append_left, In-append_right, In-append_cases}
use liberator_node_go.Database.{
  PeerRow, RuleRow, LoadAllRulesRow, Database, find_first, join_peer, join_rules, load_all_rules,
}

-- Rows with the same id are the same row.
abbrev pub OneEach : {A : Type 0} → (A → ℕ) → List A → Type 0
OneEach id xs = (x y : _) → In x xs → In y xs → id x ≡ id y → x ≡ y

-- The ids of the rows are those given out, and none was given out twice.
pub record IsDatabase (db : Database) : Type 0 where
  pub rules_once : OneEach (λ (r : RuleRow). r.id) db.rules
  pub peers_once : OneEach (λ (p : PeerRow). p.id) db.peers
  pub rules_below : (r : RuleRow) → In r db.rules → r.id < db.next_rule_id
  pub peers_below : (p : PeerRow) → In p db.peers → p.id < db.next_peer_id

pub find_first-In :
    {A : Type 0} (p : A → Bool) (xs : List A) (x : A)
    → find_first p xs ≡ some x
    → In x xs × (p x ≡ true)
unfolding find_first
find_first-In p [] x h = absurd (ground arith)
find_first-In p (y ∷ ys) x h = elim (Bool-cases (p y)) [
  | inl e ↦ ground arith
  | inr e ↦ let (m, t) = find_first-In p ys x (ground arith) in (inr m, t)
]

pub find_first-none :
    {A : Type 0} (p : A → Bool) (xs : List A) (x : A)
    → find_first p xs ≡ none
    → In x xs
    → p x ≡ false
unfolding find_first
find_first-none p [] x h m = elim m [ ]
find_first-none p (y ∷ ys) x h m = elim (Bool-cases (p y)) [
  | inl e ↦ absurd (ground arith)
  | inr e ↦ ground (arith, find_first-none p ys x)
]

-- The row of the JOIN for a rule and its peer.
abbrev pub joined : RuleRow → PeerRow → LoadAllRulesRow
joined r p = record {
  id = r.id;
  peer_id = r.peer_id;
  virtual_ip = p.virtual_ip;
  target_ip = r.target_ip;
  protocol = r.protocol;
  port_range_start = r.port_range_start;
  port_range_end = r.port_range_end;
}

pub In-join_peer :
    (r : RuleRow) (ps : List PeerRow) (x : LoadAllRulesRow)
    → In x (join_peer r ps)
    → (p : PeerRow) × In p ps × (r.peer_id ≡ p.id) × (joined r p ≡ x)
unfolding join_peer
In-join_peer r [] x h = elim h [ ]
In-join_peer r (p ∷ ps) x h = elim (Bool-cases (r.peer_id == p.id)) [
  | inr e ↦ let (q, m, i, rest) = In-join_peer r ps x (rw e at h) in (q, inr m, i, rest)
  | inl e ↦ elim (rw e at h) [
    | inl same ↦ (p, inl refl, ground arith, same)
    | inr later ↦ let (q, m, i, rest) = In-join_peer r ps x later in (q, inr m, i, rest)
  ]
]

pub join_peer-In :
    (r : RuleRow) (ps : List PeerRow) (p : PeerRow)
    → In p ps
    → r.peer_id ≡ p.id
    → In (joined r p) (join_peer r ps)
unfolding join_peer
join_peer-In r [] p m e = elim m [ ]
join_peer-In r (q ∷ ps) p (inl same) e =
    let t : (r.peer_id == q.id) ≡ true = ground arith in rw t (inl (ap (joined r) same))
join_peer-In r (q ∷ ps) p (inr m) e =
    let rest = join_peer-In r ps p m e in
    elim (Bool-cases (r.peer_id == q.id)) [ inl t ↦ rw t (inr rest) | inr t ↦ rw t rest ]

In-join_rules :
    (ps : List PeerRow) (rs : List RuleRow) (x : LoadAllRulesRow)
    → In x (join_rules ps rs)
    → (r : RuleRow) × In r rs × In x (join_peer r ps)
unfolding join_rules
In-join_rules ps [] x h = elim h [ ]
In-join_rules ps (r ∷ rs) x h = elim (In-append_cases x (join_peer r ps) (join_rules ps rs) h) [
  | inl m ↦ (r, inl refl, m)
  | inr m ↦ let (s, n, k) = In-join_rules ps rs x m in (s, inr n, k)
]

join_rules-In :
    (ps : List PeerRow) (rs : List RuleRow) (r : RuleRow) (x : LoadAllRulesRow)
    → In r rs
    → In x (join_peer r ps)
    → In x (join_rules ps rs)
unfolding join_rules
join_rules-In ps [] r x m k = elim m [ ]
join_rules-In ps (s ∷ rs) r x (inl e) k =
    In-append_left x (join_peer s ps) (join_rules ps rs) (rw e k)
join_rules-In ps (s ∷ rs) r x (inr m) k =
    In-append_right x (join_peer s ps) (join_rules ps rs) (join_rules-In ps rs r x m k)

-- A row of LoadAllRules is a rule with its peer.
abbrev pub Loads : Database → RuleRow → PeerRow → Type 0
Loads db r p = In r db.rules × In p db.peers × (r.peer_id ≡ p.id)

pub load_all_rules_sound :
    (db : Database) (x : LoadAllRulesRow)
    → In x (load_all_rules db)
    → (r : RuleRow) × (p : PeerRow) × Loads db r p × (joined r p ≡ x)
unfolding load_all_rules
load_all_rules_sound db x h =
    let (r, m, k) = In-join_rules db.peers db.rules x h in
    let (p, n, e, q) = In-join_peer r db.peers x k in (r, p, (m, n, e), q)

pub load_all_rules_complete :
    (db : Database) (r : RuleRow) (p : PeerRow) → Loads db r p → In (joined r p) (load_all_rules db)
unfolding load_all_rules
load_all_rules_complete db r p (m, n, e) =
    join_rules-In db.peers db.rules r (joined r p) m (join_peer-In r db.peers p n e)
