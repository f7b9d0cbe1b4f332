-- ===== src/Router/Mirror.antt =====
-- A subscriber of routing events (pkg/router/events.go) that applies them in order knows the
-- table of the clients that came and went through AddRoutingObject and DeleteRoutingObject.
use liberator_node_go.Prelude.{
  ℕ, suc, ◌+◌, ◌≤◌, ◌<◌, ◌≡◌, refl, inl, inr, Option, none, some, List, [], ◌∷◌, ◌++◌, map, arith,
  ◌==◌, Bytes, length, nat_eq, bytes_eq, Bool-cases, Option-cases,
}
use liberator_node_go.Prelude.{length-append}
use liberator_node_go.Prelude.Map.{get, put, erase, get-put, get-erase, get-put_self}
use liberator_node_go.RoutingTable
use liberator_node_go.RoutingTable.{Route, Table}
use liberator_node_go.Router.{
  Router, RouterEvent, client_added, client_removed, offer, subscribe_routing_events,
  notify_routing_event, add_routing_object, delete_routing_object,
}

-- The nodes by address that a subscriber arrives at.
pub apply : RouterEvent → List (ℕ × Bytes) → List (ℕ × Bytes)
apply ev m = elim ev.kind [
  | client_added ↦ put ev.virtual_ip ev.node_id m
  | client_removed ↦ erase ev.virtual_ip m
]

pub replay : List RouterEvent → List (ℕ × Bytes) → List (ℕ × Bytes)
replay [] m = m
replay (ev ∷ evs) m = replay evs (apply ev m)

replay-snoc :
    (evs : List RouterEvent) (ev : RouterEvent) (m : List (ℕ × Bytes))
    → replay (evs ++ ev ∷ []) m ≡ apply ev (replay evs m)
unfolding replay
replay-snoc [] ev m = refl
replay-snoc (x ∷ evs) ev m = replay-snoc evs ev (apply x m)

abbrev pub node_at : ℕ → Table → Option Bytes
node_at ip t = elim (get ip t) [ none ↦ none | some obj ↦ some obj.node_id ]

-- The channel holds `queue`, and replaying it gives the nodes of the table.
abbrev pub Mirrors : ℕ → List RouterEvent → Router → Type 0
Mirrors ch queue r =
    (get ch r.routing_subs ≡ some queue)
    × ((ip : ℕ) → get ip (replay queue []) ≡ node_at ip r.table)

get-offer :
    (event : RouterEvent) (ch : ℕ) (queue : List RouterEvent) (subs : List (ℕ × List RouterEvent))
    → get ch subs ≡ some queue
    → length queue < 200
    → get ch (map (offer event) subs) ≡ some (queue ++ event ∷ [])
unfolding get offer
get-offer event ch queue [] g h = cc
get-offer event ch queue ((j, q) ∷ subs) g h = elim (Bool-cases (j == ch)) [
  | inl e ↦ ground arith
  | inr e ↦ ground (arith, get-offer event ch queue subs)
]

-- A local change, as the transports make it.
pub data Change : Type 0 where
  adds : Route → Change
  deletes : ℕ → Change

pub step : Router → Change → Router
step r (adds obj) = (add_routing_object obj r).1
step r (deletes ip) = delete_routing_object ip r

pub run : Router → List Change → Router
run r [] = r
run r (c ∷ cs) = run (step r c) cs

-- One more event, that describes the change of the table.
notify-Mirrors :
    (ev : RouterEvent) (ch : ℕ) (queue : List RouterEvent) (r : Router)
    → get ch r.routing_subs ≡ some queue
    → length queue < 200
    → ((ip : ℕ) → get ip (apply ev (replay queue [])) ≡ node_at ip r.table)
    → Mirrors ch (queue ++ ev ∷ []) (notify_routing_event ev r)
unfolding notify_routing_event
notify-Mirrors ev ch queue r g h m =
    (get-offer ev ch queue r.routing_subs g h, λ ip. rw (replay-snoc queue ev []) (m ip))

abbrev pub Follows : ℕ → ℕ → Router → Type 0
Follows n ch r = (queue : List RouterEvent) × (length queue ≤ n) × Mirrors ch queue r

delete_stored :
    (ip : ℕ) (t : Table) (obj : Route) → get ip t ≡ some obj → RoutingTable.delete ip t ≡ erase ip t
unfolding RoutingTable.delete
delete_stored ip t obj e = rw (e, RoutingTable.delete) refl

step-Follows :
    (n ch : ℕ) (r : Router) (c : Change) → n < 200 → Follows n ch r → Follows (suc n) ch (step r c)
unfolding step add_routing_object delete_routing_object RoutingTable.add RoutingTable.get_by_ip
    apply
step-Follows n ch r (adds obj) h (queue, l, (g, m)) =
    elim (Option-cases (get obj.virtual_ip r.table)) [
      | inr (old, e) ↦
          rw (e, step, add_routing_object, RoutingTable.add) (queue, omega arith, (g, m))
      | inl e ↦
          let ev : RouterEvent = record {
            kind = client_added;
            virtual_ip = obj.virtual_ip;
            node_id = obj.node_id;
          } in
          rw (e, step, add_routing_object, RoutingTable.add)
            (
              queue ++ ev ∷ [],
              omega (arith, length-append queue (ev ∷ [])),
              notify-Mirrors ev ch queue (record r { table = put obj.virtual_ip obj r.table }) g
                  (omega arith)
                  (λ ip. ground (
                    arith,
                    get-put obj.virtual_ip ip obj.node_id (replay queue []),
                    get-put obj.virtual_ip ip obj r.table,
                    m ip,
                  )),
            )
    ]
step-Follows n ch r (deletes ip) h (queue, l, (g, m)) = elim (Option-cases (get ip r.table)) [
  | inl e ↦ rw (e, step, delete_routing_object, RoutingTable.get_by_ip) (queue, omega arith, (g, m))
  | inr (obj, e) ↦
      let ev : RouterEvent = record {
        kind = client_removed;
        virtual_ip = ip;
        node_id = obj.node_id;
      } in
      rw (e, step, delete_routing_object, RoutingTable.get_by_ip)
        (
          queue ++ ev ∷ [],
          omega (arith, length-append queue (ev ∷ [])),
          notify-Mirrors ev ch queue (record r { table = RoutingTable.delete ip r.table }) g
              (omega arith)
              (λ j. ground (
                arith,
                delete_stored ip r.table obj e,
                get-erase ip j (replay queue []),
                get-erase ip j r.table,
                m j,
              )),
        )
]

run-Follows :
    (n ch : ℕ) (r : Router) (cs : List Change)
    → n + length cs ≤ 200
    → Follows n ch r
    → Follows (n + length cs) ch (run r cs)
unfolding run
run-Follows n ch r [] h f = let e : n + 0 ≡ n = omega arith in rw e f
run-Follows n ch r (c ∷ cs) h f =
    let e : n + suc (length cs) ≡ suc n + length cs = omega arith in
    rw e
      (run-Follows (suc n) ch (step r c) cs (omega arith) (step-Follows n ch r c (omega arith) f))

-- A subscriber from the start that applies its events in order arrives at the node of every
-- client in the table, after at most 200 local changes, the size of its buffer, on a table that
-- was empty, whether each change succeeds or not.
pub run-Mirrors :
    (ch : ℕ) (r : Router) (cs : List Change)
    → r.table ≡ []
    → length cs ≤ 200
    → (queue : List RouterEvent) × Mirrors ch queue (run (subscribe_routing_events ch r) cs)
unfolding subscribe_routing_events replay
run-Mirrors ch r cs empty h =
    let start : Follows 0 ch (record r { routing_subs = put ch [] r.routing_subs }) =
      ([], omega arith, (get-put_self ch [] r.routing_subs, λ ip. rw empty (unfold get in refl))) in
    let (queue, l, m) = run-Follows 0 ch _ cs (omega arith) start in (queue, m)
