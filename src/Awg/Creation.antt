-- ===== src/Awg/Creation.antt =====
-- CreatePeer of pkg/transport/awg/transport.go.
use liberator_node_go.Prelude.{
  ℕ, ◌<◌, ◌≡◌, refl, ap, ◌∙◌, ◌≢◌, ◌⊎◌, inl, inr, Bool, true, false, none, some, arith,
  if◌then◌else◌, ◌==◌, Bytes, nat_eq, bytes_eq, Bool-cases, Option-cases,
}
use liberator_node_go.Prelude.Map.{
  get, put, get-put, get-erase, get-put_self, get-put_ne, Keys, put-Keys, erase-Keys,
}
use liberator_node_go.RoutingTable
use liberator_node_go.RoutingTable.{Route, Table}
use liberator_node_go.Router
use liberator_node_go.Router.{Router, notify_routing_event}
use liberator_node_go.PeersManager.{Peer}
use liberator_node_go.Awg.{
  Awg, ipc_set, remove_peer_internal, kick_peer, attach, new_object, add_command, new_awg_peer,
}
use liberator_node_go.Awg.Invariant.{
  IsAt, IsAwg, ipc_set_keeps, get-delete_routing_object, remove_lem,
}

-- AddRoutingObject takes a free address, and else does nothing.
pub add_routing_object_cases :
    (obj : Route) (r : Router)
    → (((Router.add_routing_object obj r).0 ≡ true)
        × (get obj.virtual_ip r.table ≡ none)
        × ((Router.add_routing_object obj r).1.table ≡ put obj.virtual_ip obj r.table))
      ⊎ ((old : Route) × (get obj.virtual_ip r.table ≡ some old)
          × (Router.add_routing_object obj r ≡ (false, r)))
unfolding Router.add_routing_object RoutingTable.add notify_routing_event
add_routing_object_cases obj r = elim (Option-cases (get obj.virtual_ip r.table)) [
  | inl e ↦ inl (
    rw (Router.add_routing_object, RoutingTable.add, e) refl,
    e,
    rw (Router.add_routing_object, RoutingTable.add, e) refl,
  )
  | inr (old, e) ↦ inr (old, e, rw (Router.add_routing_object, RoutingTable.add, e) refl)
]

-- After KickPeer the address has no peer, and the others are as they were.
pub kick_peer_lem :
    (ipc : Bytes → Bool) (ip j : ℕ) (t : Awg)
    → IsAwg t
    → get j (kick_peer ipc ip t).1.peers_by_ip ≡ (if ip == j then none else get j t.peers_by_ip)
unfolding kick_peer
kick_peer_lem ipc ip j t v = elim (Option-cases (get ip t.peers_by_ip)) [
  | inl e ↦ rw (kick_peer, e) (ground arith)
  | inr (h, e) ↦
      let (a, b, c, d, f, g) = remove_lem ipc ip h t (v.keyed ip h e) in
      rw (kick_peer, e) (ap (λ m. get j m) a ∙ get-erase ip j t.peers_by_ip)
]

module _ (ipc : Bytes → Bool) (speed_bytes traffic_bytes : ℕ → ℕ) (now : ℕ) (p : Peer) where
  -- The object of a state whose handle is not given out yet.
  abbrev pub object_of : Awg → Awg
  object_of k =
      ipc_set ipc (add_command p.awg_public_key p.virtual_ip)
        (new_object ipc speed_bytes traffic_bytes now p k)

  pub new_object-IsAwg :
      (k : Awg) → IsAwg k → IsAwg (new_object ipc speed_bytes traffic_bytes now p k)
  unfolding new_object
  new_object-IsAwg k v = record {
    once = v.once;
    same_maps = v.same_maps;
    keyed = λ ip h g.
        let (q, m, e) = v.keyed ip h g in
        let below = v.given ip h g in
        let other : k.next_handle ≢ h = λ x. omega arith in
        (q, get-put_ne k.next_handle h (new_awg_peer now k.node_id p) k.objects other ∙ m, e);
    given = λ ip h g. omega (arith, v.given ip h g);
    routed = v.routed;
  }

  pub object_at : (k : Awg) → IsAt (object_of k) p.virtual_ip k.next_handle
  unfolding new_object new_awg_peer
  object_at k =
      let (a, b, c, d, e) =
        ipc_set_keeps ipc (add_command p.awg_public_key p.virtual_ip)
          (new_object ipc speed_bytes traffic_bytes now p k) in
      (
        new_awg_peer now k.node_id p,
        ap (λ m. get k.next_handle m) c
            ∙ get-put_self k.next_handle (new_awg_peer now k.node_id p) k.objects,
        refl,
      )

-- A new object of a free address goes into the maps and the routing table, or is taken out again.
module _ (ipc : Bytes → Bool) (h : ℕ) (p : Peer) (t : Awg) (v : IsAwg t)
    (at : IsAt t p.virtual_ip h) (below : h < t.next_handle) where
  added-IsAwg :
      (r : Router)
      → r.table
        ≡ put p.virtual_ip
            (record { handle = h; node_id = t.node_id; virtual_ip = p.virtual_ip })
            t.router.table
      → IsAwg (record t {
        peers_by_ip = put p.virtual_ip h t.peers_by_ip;
        tun_peers = put p.virtual_ip h t.tun_peers;
        router = r;
      })
  added-IsAwg r e =
      let obj : Route = record { handle = h; node_id = t.node_id; virtual_ip = p.virtual_ip } in
      record {
        once = put-Keys p.virtual_ip h t.peers_by_ip v.once;
        same_maps = rw v.same_maps;
        keyed = λ j k g. elim (Bool-cases (p.virtual_ip == j)) [
          | inl q ↦ ground (arith, get-put p.virtual_ip j h t.peers_by_ip)
          | inr q ↦ v.keyed j k (ground (arith, get-put p.virtual_ip j h t.peers_by_ip))
        ];
        given = λ j k g. ground (arith, get-put p.virtual_ip j h t.peers_by_ip, v.given j k);
        routed = λ j k g. elim (Bool-cases (p.virtual_ip == j)) [
          | inl q ↦
              let same : h ≡ k = ground (arith, get-put p.virtual_ip j h t.peers_by_ip) in
              (obj, rw e (get-put p.virtual_ip j obj t.router.table ∙ rw q), same)
          | inr q ↦
              let (s, m, w) =
                v.routed j k (ground (arith, get-put p.virtual_ip j h t.peers_by_ip)) in
              (s, rw e (get-put p.virtual_ip j obj t.router.table ∙ rw q m), w)
        ];
      }

  -- What the end of CreatePeer leaves.
  abbrev pub Attached : Bool × Awg → Type 0
  Attached (ok, t') =
      IsAwg t'
      × (((ok ≡ true)
            × (get p.virtual_ip t.router.table ≡ none)
            × (t'.peers_by_ip ≡ put p.virtual_ip h t.peers_by_ip))
          ⊎ ((ok ≡ false)
              × ((old : Route) × (get p.virtual_ip t.router.table ≡ some old))
              × ((j : ℕ)
                  → get j t'.peers_by_ip
                    ≡ (if p.virtual_ip == j then none else get j t.peers_by_ip))
              × (t'.router ≡ Router.delete_routing_object p.virtual_ip t.router)))

  refused-IsAwg :
      (u : Awg)
      → ((j : ℕ) → get j u.peers_by_ip ≡ (if p.virtual_ip == j then none else get j t.peers_by_ip))
      → Keys u.peers_by_ip
      → (u.tun_peers ≡ u.peers_by_ip)
      → (u.objects ≡ t.objects)
      → (u.next_handle ≡ t.next_handle)
      → (u.router ≡ Router.delete_routing_object p.virtual_ip t.router)
      → IsAwg u
  refused-IsAwg u m k a b c e =
      let before = λ (j k : ℕ) (g : get j u.peers_by_ip ≡ some k).
        let step = m j in
        let r : ((p.virtual_ip == j) ≡ false) × (get j t.peers_by_ip ≡ some k) = ground arith in
        r in
      record {
        once = k;
        same_maps = a;
        keyed = λ j k g. rw b (v.keyed j k (before j k g).1);
        given = λ j k g. rw c (v.given j k (before j k g).1);
        routed = λ j k g.
            let (ne, g') = before j k g in
            let (r, w, q) = v.routed j k g' in
            (r, rw e (get-delete_routing_object p.virtual_ip j t.router ∙ rw ne w), q);
      }

  pub attach-Attached : Attached (attach ipc h p t)
  unfolding attach
  attach-Attached =
      let obj : Route = record { handle = h; node_id = t.node_id; virtual_ip = p.virtual_ip } in
      elim (add_routing_object_cases obj t.router) [
        | inl (e, free, table) ↦
            rw (attach, e)
              (added-IsAwg (Router.add_routing_object obj t.router).1 table, inl (refl, free, refl))
        | inr (old, g, e) ↦
            let t1 = record t {
              peers_by_ip = put p.virtual_ip h t.peers_by_ip;
              tun_peers = put p.virtual_ip h t.tun_peers;
            } in
            let (a, b, c, d, f, k) = remove_lem ipc p.virtual_ip h t1 at in
            let gets = λ (j : ℕ).
              let q : get j (remove_peer_internal ipc h t1).peers_by_ip
                  ≡ (if p.virtual_ip == j then none else get j t.peers_by_ip) =
                ap (λ m. get j m) a
                ∙ ground (
                  arith,
                  get-erase p.virtual_ip j (put p.virtual_ip h t.peers_by_ip),
                  get-put p.virtual_ip j h t.peers_by_ip,
                ) in
              q in
            rw (attach, e)
              (
                refused-IsAwg (remove_peer_internal ipc h t1) gets
                    (rw a (
                      erase-Keys p.virtual_ip t1.peers_by_ip
                        (put-Keys p.virtual_ip h t.peers_by_ip v.once)))
                    (rw (a, b, v.same_maps)) c d f,
                inr (refl, (old, g), gets, f),
              )
      ]
