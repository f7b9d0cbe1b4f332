-- ===== src/Router/Packets/Buffers.antt =====
-- How often the handlers of pkg/router/router.go give the buffer of a packet back that goes to a
-- client: packet.Free() puts it into the pool once more at each call.
use liberator_node_go.Prelude.{
  ℕ, zero, suc, ◌≡◌, refl, sym, ap, ◌∙◌, ◌⊎◌, inl, inr, Bool, ◌||◌, true, false, none, some, List,
  [], ◌∷◌, ◌++◌, arith, if◌then◌else◌, length, nat_eq, bytes_eq, Bool-cases, Option-cases,
}
use mathlib.Core.List.{append-nil}
use liberator_node_go.Prelude.Map.{get, put}
use liberator_node_go.Dgmessage.{HoleInfo}
use liberator_node_go.RoutingTable
use liberator_node_go.RoutingTable.{Route}
use liberator_node_go.RoutingTable.Shaped.{
  Packet, Shape, Push, spend, is_spent, is_negative, push_limited, offer_packet,
}
use liberator_node_go.Router.Packets.{
  Env, Plane, free_packet, free_times, send_and_free, push_and_check, deliver,
}
use liberator_node_go.Router.Packets.Outcome.{Exhausted}

abbrev pub copies : ℕ → ℕ → List ℕ
copies zero b = []
copies (suc n) b = b ∷ copies n b

append-copies : (n b : ℕ) (xs : List ℕ) → (xs ++ b ∷ []) ++ copies n b ≡ xs ++ copies (suc n) b
append-copies n b [] = refl
append-copies n b (x ∷ xs) = ap (λ ys. x ∷ ys) (append-copies n b xs)

-- The frees that a shaped route causes, and whether it panics.
abbrev pub ShapedFrees : Env → ℕ → Packet → Shape → ℕ → Bool → Type 0
ShapedFrees env h pk s n panics =
    (Exhausted s (length pk.payload) × (n ≡ 0) × (panics ≡ false))
    ⊎ ((¬ Exhausted s (length pk.payload))
        × (s.speed_limited ≡ true)
        × (env.done h ≡ false)
        × (n ≡ 0)
        × (panics ≡ s.closed))
    ⊎ ((¬ Exhausted s (length pk.payload))
        × (s.speed_limited ≡ true)
        × (env.done h ≡ true)
        × (n ≡ 1)
        × (panics ≡ false))
    ⊎ ((¬ Exhausted s (length pk.payload))
        × (s.speed_limited ≡ false)
        × (env.send_ok h ≡ true)
        × (env.done h ≡ false)
        × (n ≡ 1)
        × (panics ≡ false))
    ⊎ ((¬ Exhausted s (length pk.payload))
        × (s.speed_limited ≡ false)
        × ((env.send_ok h ≡ false) ⊎ (env.done h ≡ true))
        × (n ≡ 2)
        × (panics ≡ false))

abbrev pub Frees : Env → Packet → HoleInfo → Plane → ℕ → Bool → Type 0
Frees env pk info p n panics =
    ((get info.dst_ip p.router.table ≡ none) × (n ≡ 1) × (panics ≡ false))
    ⊎ ((obj : Route) × (get info.dst_ip p.router.table ≡ some obj)
        × (((get obj.handle p.shapes ≡ none) × (n ≡ 1) × (panics ≡ false))
            ⊎ ((s : Shape) × (get obj.handle p.shapes ≡ some s)
                × ShapedFrees env obj.handle pk s n panics)))

free_times-freed :
    (n : ℕ) (pk : Packet) (p : Plane) → (free_times n pk p).freed ≡ p.freed ++ copies n pk.buffer
unfolding free_times free_packet
free_times-freed zero pk p = sym (append-nil p.freed)
free_times-freed (suc n) pk p =
    free_times-freed n pk (free_packet pk p) ∙ append-copies n pk.buffer p.freed

free_packet-free_times :
    (n : ℕ) (pk : Packet) (p : Plane) → free_packet pk (free_times n pk p) ≡ free_times (suc n) pk p
unfolding free_times
free_packet-free_times zero pk p = refl
free_packet-free_times (suc n) pk p = free_packet-free_times n pk (free_packet pk p)

-- The number of calls of Free, of PushLimited and after it.
abbrev all_frees : Push → ℕ
all_frees push = if push.failed then suc push.frees else push.frees

push_and_check-freed :
    (env : Env) (obj : Route) (s : Shape) (pk : Packet) (p : Plane)
    → (push_and_check env obj s pk p).freed
      ≡ p.freed
        ++ copies
            (all_frees (push_limited (env.send_ok obj.handle) (env.done obj.handle) pk s))
            pk.buffer
unfolding push_and_check
push_and_check-freed env obj s pk p =
    let push = push_limited (env.send_ok obj.handle) (env.done obj.handle) pk s in
    let p' : Plane = record p {
      shapes = put obj.handle push.shape p.shapes;
      sent = (if push.sent then p.sent ++ (obj.handle, pk.payload) ∷ [] else p.sent);
      panicked = p.panicked || push.panicked;
    } in
    elim (Bool-cases push.failed) [
      | inl e ↦
          rw (e, push_and_check, free_packet-free_times push.frees pk p')
            (free_times-freed (suc push.frees) pk p')
      | inr e ↦ rw (e, push_and_check) (free_times-freed push.frees pk p')
    ]

free_times-panicked : (n : ℕ) (pk : Packet) (p : Plane) → (free_times n pk p).panicked ≡ p.panicked
unfolding free_times free_packet
free_times-panicked zero pk p = refl
free_times-panicked (suc n) pk p = free_times-panicked n pk (free_packet pk p)

push_and_check-panicked :
    (env : Env) (obj : Route) (s : Shape) (pk : Packet) (p : Plane)
    → (push_and_check env obj s pk p).panicked
      ≡ (p.panicked || (push_limited (env.send_ok obj.handle) (env.done obj.handle) pk s).panicked)
unfolding push_and_check free_packet
push_and_check-panicked env obj s pk p =
    let push = push_limited (env.send_ok obj.handle) (env.done obj.handle) pk s in
    let p' : Plane = record p {
      shapes = put obj.handle push.shape p.shapes;
      sent = (if push.sent then p.sent ++ (obj.handle, pk.payload) ∷ [] else p.sent);
      panicked = p.panicked || push.panicked;
    } in
    elim (Bool-cases push.failed) [
      | inl e ↦ rw (e, push_and_check) (free_times-panicked push.frees pk p')
      | inr e ↦ rw (e, push_and_check) (free_times-panicked push.frees pk p')
    ]

push_limited-frees :
    (env : Env) (h : ℕ) (pk : Packet) (s : Shape)
    → let push = push_limited (env.send_ok h) (env.done h) pk s in
      ShapedFrees env h pk s (all_frees push) push.panicked
unfolding push_limited offer_packet spend is_spent is_negative
push_limited-frees env h pk s = ground arith

-- The end of the handlers of packets from the interface and from the mesh gives the buffer back
-- once where the destination has no object or one without limits. At a shaped route whose speed is
-- limited it gives it back once where the select takes the case of the context, and otherwise not:
-- then the traffic is used up, the packet is queued or dropped, or, exactly where the worker has
-- closed the queue and the traffic is not used up, the send panics. Where the speed is not limited
-- and the traffic is not used up, it gives the buffer back once if the send succeeds and the select
-- does not take the case of the context, and else twice. Nothing else panics.
pub deliver-Frees :
    (env : Env) (pk : Packet) (info : HoleInfo) (p : Plane)
    → (n : ℕ) × (b : Bool) × Frees env pk info p n b
      × ((deliver env pk info p).freed ≡ p.freed ++ copies n pk.buffer)
      × ((deliver env pk info p).panicked ≡ (p.panicked || b))
unfolding deliver RoutingTable.get_by_ip free_packet send_and_free
deliver-Frees env pk info p = elim (Option-cases (get info.dst_ip p.router.table)) [
  | inl e ↦ (
    1,
    false,
    inl (e, refl, refl),
    rw (deliver, RoutingTable.get_by_ip, e) refl,
    rw (deliver, RoutingTable.get_by_ip, e) (ground arith),
  )
  | inr (obj, e) ↦ elim (Option-cases (get obj.handle p.shapes)) [
    | inl g ↦ (
      1,
      false,
      inr (obj, e, inl (g, refl, refl)),
      rw (deliver, RoutingTable.get_by_ip, e, g) refl,
      rw (deliver, RoutingTable.get_by_ip, e, g) (ground arith),
    )
    | inr (s, g) ↦
        let push = push_limited (env.send_ok obj.handle) (env.done obj.handle) pk s in
        (
          all_frees push,
          push.panicked,
          inr (obj, e, inr (s, g, push_limited-frees env obj.handle pk s)),
          rw (deliver, RoutingTable.get_by_ip, e, g) (push_and_check-freed env obj s pk p),
          rw (deliver, RoutingTable.get_by_ip, e, g) (push_and_check-panicked env obj s pk p),
        )
  ]
]
