-- ===== src/Awg/Invariant.antt =====
-- The maps of pkg/transport/awg/transport.go agree with each other, with the objects and with the
-- routing table.
use liberator_node_go.Prelude.{
  ℕ, ◌<◌, ◌≡◌, refl, sym, ◌∙◌, inl, inr, Bool, false, none, some, arith, if◌then◌else◌, ◌==◌, Bytes,
  nat_eq, bytes_eq, Bool-cases, Option-cases,
}
use liberator_node_go.Prelude.Map.{get, erase, get-erase, Keys, erase-Keys}
use liberator_node_go.RoutingTable
use liberator_node_go.RoutingTable.{Route, Table}
use liberator_node_go.Router
use liberator_node_go.Router.{Router, notify_routing_event}
use liberator_node_go.Awg.{Awg, AwgPeer, ipc_set, remove_peer_internal, kick_peer, remove_command}

-- The object with this handle is of this address.
abbrev pub IsAt : Awg → ℕ → ℕ → Type 0
IsAt t ip h = (p : AwgPeer) × (get h t.objects ≡ some p) × (p.virtual_ip ≡ ip)

-- The routing table leads to the object.
abbrev pub IsRouted : Table → ℕ → ℕ → Type 0
IsRouted table ip h = (r : Route) × (get ip table ≡ some r) × (r.handle ≡ h)

-- The two maps are the same, each entry is an object of that address that was given out, and the
-- routing table leads to it.
pub record IsAwg (t : Awg) : Type 0 where
  pub once : Keys t.peers_by_ip
  pub same_maps : t.tun_peers ≡ t.peers_by_ip
  pub keyed : (ip h : ℕ) → get ip t.peers_by_ip ≡ some h → IsAt t ip h
  pub given : (ip h : ℕ) → get ip t.peers_by_ip ≡ some h → h < t.next_handle
  pub routed : (ip h : ℕ) → get ip t.peers_by_ip ≡ some h → IsRouted t.router.table ip h

-- The parts that the invariant speaks of are the same.
abbrev pub Alike : Awg → Awg → Type 0
Alike t u =
    (u.tun_peers ≡ t.tun_peers)
    × (u.peers_by_ip ≡ t.peers_by_ip)
    × (u.objects ≡ t.objects)
    × (u.next_handle ≡ t.next_handle)
    × (u.router ≡ t.router)

pub Alike-IsAwg : (t u : Awg) → Alike t u → IsAwg t → IsAwg u
Alike-IsAwg t u (a, b, c, d, e) v = record {
  once = rw b v.once;
  same_maps = a ∙ v.same_maps ∙ sym b;
  keyed = λ ip h g. rw c (v.keyed ip h (rw b at g));
  given = λ ip h g. rw d (v.given ip h (rw b at g));
  routed = λ ip h g. rw e (v.routed ip h (rw b at g));
}

pub ipc_set_keeps :
    (ipc : Bytes → Bool) (command : Bytes) (t : Awg) → Alike t (ipc_set ipc command t)
unfolding ipc_set
ipc_set_keeps ipc command t = elim (Bool-cases (ipc command)) [
  | inl e ↦ rw (ipc_set, e) (refl, refl, refl, refl, refl)
  | inr e ↦ rw (ipc_set, e) (refl, refl, refl, refl, refl)
]

get-delete :
    (ip j : ℕ) (table : Table)
    → get j (RoutingTable.delete ip table) ≡ (if ip == j then none else get j table)
unfolding RoutingTable.delete
get-delete ip j table = ground (arith, get-erase ip j table)

-- DeleteRoutingObject takes the route of one address away.
pub get-delete_routing_object :
    (ip j : ℕ) (r : Router)
    → get j (Router.delete_routing_object ip r).table ≡ (if ip == j then none else get j r.table)
unfolding Router.delete_routing_object RoutingTable.get_by_ip notify_routing_event
get-delete_routing_object ip j r = ground (arith, get-delete ip j r.table)

-- What removePeerInternal leaves of the maps, for the object of an address.
pub remove_lem :
    (ipc : Bytes → Bool) (ip h : ℕ) (t : Awg)
    → IsAt t ip h
    → let t' = remove_peer_internal ipc h t in
      (t'.peers_by_ip ≡ erase ip t.peers_by_ip)
      × (t'.tun_peers ≡ erase ip t.tun_peers)
      × (t'.objects ≡ t.objects)
      × (t'.next_handle ≡ t.next_handle)
      × (t'.router ≡ Router.delete_routing_object ip t.router)
      × (t'.delta_chan ≡ t.delta_chan)
unfolding remove_peer_internal ipc_set
remove_lem ipc ip h t (p, g, e) = elim (Bool-cases (ipc (remove_command p.pub_key))) [
  | inl b ↦ rw (remove_peer_internal, g, ipc_set, b, e) (refl, refl, refl, refl, refl, refl)
  | inr b ↦ rw (remove_peer_internal, g, ipc_set, b, e) (refl, refl, refl, refl, refl, refl)
]

-- A state without the peer of one address.
removed-IsAwg :
    (ip : ℕ) (t u : Awg)
    → (u.peers_by_ip ≡ erase ip t.peers_by_ip)
    → (u.tun_peers ≡ erase ip t.tun_peers)
    → (u.objects ≡ t.objects)
    → (u.next_handle ≡ t.next_handle)
    → (u.router ≡ Router.delete_routing_object ip t.router)
    → IsAwg t
    → IsAwg u
removed-IsAwg ip t u a b c d e v =
    let before = λ (j h : ℕ) (g : get j u.peers_by_ip ≡ some h).
      let g' : get j (erase ip t.peers_by_ip) ≡ some h = rw a at g in
      let step = get-erase ip j t.peers_by_ip in
      let r : ((ip == j) ≡ false) × (get j t.peers_by_ip ≡ some h) = ground arith in r in
    record {
      once = rw a (erase-Keys ip t.peers_by_ip v.once);
      same_maps = rw (a, b, v.same_maps);
      keyed = λ j h g. rw c (v.keyed j h (before j h g).1);
      given = λ j h g. rw d (v.given j h (before j h g).1);
      routed = λ j h g.
          let (ne, g') = before j h g in
          let (r, m, q) = v.routed j h g' in
          (r, rw e (get-delete_routing_object ip j t.router ∙ rw ne m), q);
    }

pub remove_peer_internal-IsAwg :
    (ipc : Bytes → Bool) (ip h : ℕ) (t : Awg)
    → IsAt t ip h
    → IsAwg t
    → IsAwg (remove_peer_internal ipc h t)
remove_peer_internal-IsAwg ipc ip h t at v =
    let (a, b, c, d, e, f) = remove_lem ipc ip h t at in removed-IsAwg ip t _ a b c d e v

pub kick_peer-IsAwg :
    (ipc : Bytes → Bool) (ip : ℕ) (t : Awg) → IsAwg t → IsAwg (kick_peer ipc ip t).1
unfolding kick_peer
kick_peer-IsAwg ipc ip t v = elim (Option-cases (get ip t.peers_by_ip)) [
  | inl e ↦ rw (kick_peer, e) v
  | inr (h, e) ↦ rw (kick_peer, e) (remove_peer_internal-IsAwg ipc ip h t (v.keyed ip h e) v)
]
