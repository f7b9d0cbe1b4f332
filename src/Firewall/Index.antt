-- ===== src/Firewall/Index.antt =====
-- The two maps of rules of pkg/firewall/firewall.go agree: rulesByAddr lists, under each address,
-- exactly the keys of the rules of that address.
pub mod Unlink
pub mod Operations
use liberator_node_go.Prelude.{
  ℕ, zero, suc, ◌+◌, ◌-◌, ◌*◌, ◌/◌, ◌%◌, ◌^◌, ◌≤◌, ◌<◌, bit_and, bit_or, ◌≡◌, refl, sym, ap, ◌∙◌,
  ◌≢◌, ◌↔◌, ◌⊎◌, inl, inr, Bool, true, false, not, ◌&&◌, ◌||◌, Option, none, some, List, [], ◌∷◌,
  ◌++◌, map, arith, if◌then◌else◌, ltb, leb, ◌==◌, Bytes, codes, bytes_beq, bytes_beq_iff, keep,
  length, nat_eq, bytes_eq, ==_iff, Bool-cases, Option-cases, In, All,
}
use liberator_node_go.Prelude.{Distinct, In-append_left, In-append_right, In-append_cases}
use liberator_node_go.Prelude.Map.{
  get, put, erase, Keys, put-Keys, erase-Keys, get-put, get-erase, get-put_self, get-erase_self,
  get-put_ne, get-erase_ne,
}
use liberator_node_go.Firewall.Keys.{make_global_key}
use liberator_node_go.Firewall.Types.{PortRuleIndex, PortRule, Firewall}
use liberator_node_go.Firewall.{
  new, ids_at, link_rule, insert_rule, get_or_create_short_id, get_short_id, add_rule, remove_rule,
  cut_id, unlink_rule, drop_unauthorized_holes,
}

-- Some rule is stored under the key and has the address.
abbrev pub Holds : Firewall → ℕ → ℕ → Type 0
Holds fw id address = (r : PortRule) × (get id fw.rules_by_id ≡ some r) × (r.address ≡ address)

pub record IsIndexed (fw : Firewall) : Type 0 where
  pub ids_once : Keys fw.rules_by_id
  pub addrs_once : Keys fw.rules_by_addr
  pub listed : (address id : ℕ) → In id (ids_at address fw.rules_by_addr) → Holds fw id address
  pub found : (address id : ℕ) → Holds fw id address → In id (ids_at address fw.rules_by_addr)
  pub distinct : (address : ℕ) → Distinct (ids_at address fw.rules_by_addr)

pub ids_at-put :
    (a b : ℕ) (ids : List ℕ) (m : List (ℕ × List ℕ))
    → ids_at b (put a ids m) ≡ (if a == b then ids else ids_at b m)
unfolding ids_at
ids_at-put a b ids m = ground (arith, get-put a b ids m)

pub ids_at-erase :
    (a b : ℕ) (m : List (ℕ × List ℕ)) → ids_at b (erase a m) ≡ (if a == b then [] else ids_at b m)
unfolding ids_at
ids_at-erase a b m = ground (arith, get-erase a b m)

Distinct-snoc : (x : ℕ) (xs : List ℕ) → Distinct xs → ¬ In x xs → Distinct (xs ++ x ∷ [])
Distinct-snoc x [] d h = ground arith
Distinct-snoc x (y ∷ ys) d h =
    (λ m. ground (arith, In-append_cases y ys (x ∷ []) m), Distinct-snoc x ys d.1 (λ m. h (inr m)))

pub In-cut_id : (id x : ℕ) (xs : List ℕ) → Distinct xs → In x (cut_id id xs) → In x xs × (x ≢ id)
unfolding cut_id
In-cut_id id x [] d h = elim h [ ]
In-cut_id id x (y ∷ ys) d h = ground (arith, d.0, In-cut_id id x ys d.1)

pub cut_id-In : (id x : ℕ) (xs : List ℕ) → In x xs → x ≢ id → In x (cut_id id xs)
unfolding cut_id
cut_id-In id x [] h n = elim h [ ]
cut_id-In id x (y ∷ ys) h n = ground (arith, cut_id-In id x ys)

pub cut_id-Distinct : (id : ℕ) (xs : List ℕ) → Distinct xs → Distinct (cut_id id xs)
unfolding cut_id
cut_id-Distinct id [] d = tt
cut_id-Distinct id (y ∷ ys) d =
    ground (arith, d.0, cut_id-Distinct id ys d.1, In-cut_id id y ys d.1)

pub new-IsIndexed : IsIndexed new
unfolding new ids_at get
new-IsIndexed = record {
  ids_once = tt;
  addrs_once = tt;
  listed = λ address id h. elim h [ ];
  found = λ address id h. cc (h.1);
  distinct = λ address. tt;
}

-- A rule stored under a new key is listed under its address, and nothing else changes.
module _ (fw : Firewall) (key : ℕ) (rule : PortRule) (v : IsIndexed fw)
    (fresh : get key fw.rules_by_id ≡ none) where
  key_unlisted : (address : ℕ) → ¬ In key (ids_at address fw.rules_by_addr)
  key_unlisted address m = ground (arith, v.listed address key m)

  link-listed :
      (address id : ℕ)
      → In id (ids_at address (link_rule key rule fw).rules_by_addr)
      → Holds (link_rule key rule fw) id address
  unfolding link_rule
  link-listed address id m = ground (
    arith,
    ids_at-put rule.address address (ids_at rule.address fw.rules_by_addr ++ key ∷ [])
        fw.rules_by_addr,
    In-append_cases id (ids_at rule.address fw.rules_by_addr) (key ∷ []),
    v.listed address id,
    get-put key id rule fw.rules_by_id,
  )

  link-found :
      (address id : ℕ)
      → Holds (link_rule key rule fw) id address
      → In id (ids_at address (link_rule key rule fw).rules_by_addr)
  unfolding link_rule
  link-found address id (r, g, e) = ground (
    arith,
    ids_at-put rule.address address (ids_at rule.address fw.rules_by_addr ++ key ∷ [])
        fw.rules_by_addr,
    In-append_left id (ids_at rule.address fw.rules_by_addr) (key ∷ []),
    In-append_right key (ids_at rule.address fw.rules_by_addr) (key ∷ []) (inl refl),
    λ (q : get id fw.rules_by_id ≡ some r). v.found address id (r, q, e),
    get-put key id rule fw.rules_by_id,
  )

  link-Distinct : (address : ℕ) → Distinct (ids_at address (link_rule key rule fw).rules_by_addr)
  unfolding link_rule
  link-Distinct address = ground (
    arith,
    ids_at-put rule.address address (ids_at rule.address fw.rules_by_addr ++ key ∷ [])
        fw.rules_by_addr,
    Distinct-snoc key (ids_at rule.address fw.rules_by_addr) (v.distinct rule.address)
        (key_unlisted rule.address),
    v.distinct address,
  )

  pub link_rule-IsIndexed : IsIndexed (link_rule key rule fw)
  link_rule-IsIndexed = record {
    ids_once = unfold link_rule in put-Keys key _ fw.rules_by_id v.ids_once;
    addrs_once = unfold link_rule in put-Keys rule.address _ fw.rules_by_addr v.addrs_once;
    listed = link-listed;
    found = link-found;
    distinct = link-Distinct;
  }

-- The invariant speaks of the two maps only.
pub IsIndexed-same :
    (f g : Firewall)
    → g.rules_by_id ≡ f.rules_by_id
    → g.rules_by_addr ≡ f.rules_by_addr
    → IsIndexed f
    → IsIndexed g
IsIndexed-same f g p q v = record {
  ids_once = rw p v.ids_once;
  addrs_once = rw q v.addrs_once;
  listed = λ address id m. rw p (v.listed address id (rw q at m));
  found = λ address id h. rw q (v.found address id (rw p at h));
  distinct = λ address. rw q (v.distinct address);
}
