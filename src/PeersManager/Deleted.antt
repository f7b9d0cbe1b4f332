-- ===== src/PeersManager/Deleted.antt =====
-- DeletePeer of pkg/services/peersmanager: what is left of a peer.
use liberator_node_go.Prelude.{
  ℕ, ◌%◌, ◌^◌, ◌≡◌, refl, subst, ◌≢◌, ◌⊎◌, inl, inr, Bool, true, false, not, some, List, arith,
  ◌==◌, Bytes, keep, nat_eq, bytes_eq, Bool-cases, Option-cases, In,
}
use liberator_node_go.Prelude.{In-keep, keep-In}
use liberator_node_go.Prelude.Map.{get, get-put_self}
use liberator_node_go.Database
use liberator_node_go.Database.{
  PeerRow, RuleRow, LoadAllRulesRow, Database, load_all_rules, delete_all_peer_rules,
}
use liberator_node_go.Database.Ids.{Loads, load_all_rules_sound, load_all_rules_complete}
use liberator_node_go.Database.Changes.{if_both}
use liberator_node_go.FirewallManager
use liberator_node_go.FirewallManager.{Manager}
use liberator_node_go.FirewallManager.Laws
use liberator_node_go.FirewallManager.Laws.{Backed, Published, IsManager}
use liberator_node_go.FirewallManager.Calls.{remove_all-Backed, shrink-Backed}
use liberator_node_go.FirewallManager.Published.{remove_all-Published}
use liberator_node_go.PeersManager.{PeersManager, Transport, drop_peer, find_and_drop, delete_peer}
use liberator_node_go.PeersManager.Laws.{Laws}

-- No row of a rule of the peer, whether or not there is a row of the peer.
abbrev pub HasNoRules : ℕ → Database → Type 0
HasNoRules id db = (r : RuleRow) → In r db.rules → r.peer_id ≢ id

delete_all-HasNoRules : (id : ℕ) (db : Database) → HasNoRules id (delete_all_peer_rules id db)
unfolding delete_all_peer_rules
delete_all-HasNoRules id db r i e =
    let (j, t) = In-keep (λ x. not (x.peer_id == id)) r db.rules i in ground arith

-- Without rules of the peer, the loaded rules do not change when it is deleted.
delete_peer-Loads :
    (id : ℕ) (db : Database) (r : RuleRow) (p : PeerRow)
    → HasNoRules id db
    → Loads db r p
    → Loads (Database.delete_peer id db) r p
unfolding Database.delete_peer delete_all_peer_rules
delete_peer-Loads id db r p h (i, j, e) =
    let other = h r i in
    let k = keep-In (λ (q : PeerRow). not (q.id == id)) p db.peers j (ground arith) in
    let l = keep-In (λ (x : RuleRow). not (x.peer_id == id)) r db.rules i (ground arith) in
    if_both (λ d. Loads d r p) db.foreign_keys _ _ (l, k, e) (i, k, e)

Loads-delete_peer :
    (id : ℕ) (db : Database) (r : RuleRow) (p : PeerRow)
    → Loads (Database.delete_peer id db) r p
    → Loads db r p
unfolding Database.delete_peer delete_all_peer_rules
Loads-delete_peer id db r p =
    if_both (λ d. Loads d r p → Loads db r p) db.foreign_keys _ _
      (λ (i, j, e). (
        (In-keep (λ (x : RuleRow). not (x.peer_id == id)) r db.rules i).0,
        (In-keep (λ (q : PeerRow). not (q.id == id)) p db.peers j).0,
        e,
      ))
      (λ (i, j, e). (i, (In-keep (λ (q : PeerRow). not (q.id == id)) p db.peers j).0, e))

delete_peer-HasNoRules :
    (id : ℕ) (db : Database) → HasNoRules id db → HasNoRules id (Database.delete_peer id db)
unfolding Database.delete_peer delete_all_peer_rules
delete_peer-HasNoRules id db h r =
    if_both (λ (d : Database). In r d.rules → r.peer_id ≢ id) db.foreign_keys _ _
      (λ i. h r (In-keep (λ (x : RuleRow). not (x.peer_id == id)) r db.rules i).0) (h r)

kept_other :
    (id : ℕ) (p : PeerRow) (ps : List PeerRow) → In p (keep (λ q. not (q.id == id)) ps) → p.id ≢ id
kept_other id p ps i e = let (j, t) = In-keep (λ q. not (q.id == id)) p ps i in ground arith

delete_peer-absent :
    (id : ℕ) (db : Database) (p : PeerRow) → In p (Database.delete_peer id db).peers → p.id ≢ id
unfolding Database.delete_peer delete_all_peer_rules
delete_peer-absent id db p =
    if_both (λ (d : Database). In p d.peers → p.id ≢ id) db.foreign_keys _ _
      (kept_other id p db.peers) (kept_other id p db.peers)

-- RemoveAllPeerRules that returns no error leaves no rule of the peer, and the peers alone.
remove_all-HasNoRules :
    {F : Type 0} (rules : FirewallManager.Operations F) (loaded : Bool) (id : ℕ) (mm : Manager F)
    → (FirewallManager.remove_all_peer_rules rules loaded true id mm).0 ≡ true
    → HasNoRules id (FirewallManager.remove_all_peer_rules rules loaded true id mm).1.db
unfolding FirewallManager.remove_all_peer_rules
remove_all-HasNoRules rules false id mm ok = absurd (ground arith)
remove_all-HasNoRules rules true id mm ok = delete_all-HasNoRules id mm.db

remove_all-peers :
    {F : Type 0} (rules : FirewallManager.Operations F) (loaded : Bool) (id : ℕ) (mm : Manager F)
    → (FirewallManager.remove_all_peer_rules rules loaded true id mm).1.db.peers ≡ mm.db.peers
unfolding FirewallManager.remove_all_peer_rules delete_all_peer_rules
remove_all-peers rules false id mm = refl
remove_all-peers rules true id mm = refl

module _ {F T : Type 0} (rules : FirewallManager.Operations F) (node : Bytes)
    (fw_laws : FirewallManager.Laws.Laws rules node) (ops : Transport T) (laws : Laws ops) where
  -- The firewall and the database hold the same rules of the node.
  abbrev pub IsSynced : Manager F → Type 0
  IsSynced m =
      Backed rules node fw_laws m.db m.firewall × Published rules node fw_laws m.db m.firewall

  -- The peer was there, no row is left of it or its rules, and the transport of its kind does not have it.
  abbrev pub IsGone : ℕ → PeersManager F T → PeersManager F T → Type 0
  IsGone id m m' =
      (row : PeerRow) × (Database.get_peer_by_id id m.rules.db ≡ some row)
      × ((p : PeerRow) → In p m'.rules.db.peers → p.id ≢ id)
      × HasNoRules id m'.rules.db
      × ((t : T)
          → get row.kind m'.transports ≡ some t
          → ops.exists_peer (row.virtual_ip % 2 ^ 32) t ≡ false)

  -- What a call leaves: the agreement of firewall and tables, and after a success no peer.
  abbrev DeleteOutcome : ℕ → PeersManager F T → Bool × PeersManager F T → Type 0
  DeleteOutcome id m (ok, m') = IsSynced m'.rules × ((ok ≡ false) ⊎ IsGone id m m')

  deleted-IsSynced :
      (id : ℕ) (mm : Manager F)
      → HasNoRules id mm.db
      → IsSynced mm
      → IsSynced (record mm { db = Database.delete_peer id mm.db })
  deleted-IsSynced id mm h (b, c) = (
    shrink-Backed rules node fw_laws mm.db (Database.delete_peer id mm.db) mm.firewall mm.firewall
        (λ j r small f. (f, λ x p e l. delete_peer-Loads id mm.db x p h l)) b,
    λ row i.
        let (r, p, l, q) = load_all_rules_sound (Database.delete_peer id mm.db) row i in
        c row (
          subst (λ x. In x (load_all_rules mm.db)) q
            (load_all_rules_complete mm.db r p (Loads-delete_peer id mm.db r p l))),
  )

  find_and_drop-DeleteOutcome :
      (got deleted ok : Bool) (id : ℕ) (mm : Manager F) (m : PeersManager F T)
      → IsSynced mm
      → (ok ≡ true → HasNoRules id mm.db)
      → mm.db.peers ≡ m.rules.db.peers
      → DeleteOutcome id m (find_and_drop rules ops got deleted id (ok, mm) m)
  unfolding find_and_drop drop_peer Database.get_peer_by_id
  find_and_drop-DeleteOutcome got deleted false id mm m s h e = (s, inl refl)
  find_and_drop-DeleteOutcome false deleted true id mm m s h e = (s, inl refl)
  find_and_drop-DeleteOutcome true deleted true id mm m s h e =
      let synced = deleted-IsSynced id mm (h refl) s in
      let no_rules = delete_peer-HasNoRules id mm.db (h refl) in
      elim (Option-cases (Database.get_peer_by_id id mm.db)) [
        | inl g ↦ rw (find_and_drop, g) (s, inl refl)
        | inr (row, g) ↦
            let found : Database.get_peer_by_id id m.rules.db ≡ some row = rw (← e) g in
            elim (Bool-cases deleted) [
              | inr f ↦ rw (find_and_drop, g, f, drop_peer) (s, inl refl)
              | inl f ↦ elim (Option-cases (get row.kind m.transports)) [
                | inl n ↦
                    rw (find_and_drop, g, f, drop_peer, n)
                      (
                        synced,
                        inr (
                          row,
                          found,
                          delete_peer-absent id mm.db,
                          no_rules,
                          λ t k. absurd (ground arith),
                        ),
                      )
                | inr (t, n) ↦
                    rw (find_and_drop, g, f, drop_peer, n)
                      (
                        synced,
                        inr (
                          row,
                          found,
                          delete_peer-absent id mm.db,
                          no_rules,
                          λ u k.
                              let same =
                                get-put_self row.kind (ops.kick_peer (row.virtual_ip % 2 ^ 32) t).1
                                  m.transports in
                              let gone = laws.kick_gone (row.virtual_ip % 2 ^ 32) t in ground arith,
                        ),
                      )
              ]
            ]
      ]

-- Take a firewall and transports that keep the laws of their interfaces, and a node whose
-- firewall holds exactly the rules of the database, with ids within 48 bits. Let DeletePeer be
-- called, with any failures of its queries but that of the rules' deletion once they left the
-- firewall. Then the firewall still holds exactly the rules of the database, and if no error is
-- returned, the peer was in the tables, no row of it or of a rule of it is left, and the
-- transport of its kind, if there is one, does not have its address.
pub delete_peer-IsGone :
    {F T : Type 0} (rules : FirewallManager.Operations F) (node : Bytes)
    (fw_laws : FirewallManager.Laws.Laws rules node) (ops : Transport T) (laws : Laws ops)
    (loaded got deleted : Bool) (id : ℕ) (m : PeersManager F T)
    → IsManager rules node fw_laws m.rules
    → IsSynced rules node fw_laws ops laws m.rules
    → let (ok, m') = delete_peer rules ops loaded true got deleted id m in
      IsSynced rules node fw_laws ops laws m'.rules
      × ((ok ≡ false) ⊎ IsGone rules node fw_laws ops laws id m m')
unfolding delete_peer
delete_peer-IsGone rules node fw_laws ops laws loaded got deleted id m w (b, c) =
    find_and_drop-DeleteOutcome rules node fw_laws ops laws got deleted _ id _ m
      (
        remove_all-Backed rules node fw_laws loaded true id m.rules w b,
        remove_all-Published rules node fw_laws loaded id m.rules w c,
      )
      (remove_all-HasNoRules rules loaded id m.rules) (remove_all-peers rules loaded id m.rules)
