-- ===== src/RoutingTable/Shaped.antt =====
-- pkg/routingtable/shaped.go: a routing object with a limit on its traffic and on its speed. The
-- rate limiter of golang.org/x/time/rate is a parameter: what it answers to a call.
use liberator_node_go.Prelude.{
  ℕ, ◌+◌, ◌-◌, ◌%◌, ◌^◌, Bool, true, false, ◌&&◌, Option, none, some, List, [], ◌∷◌, ◌++◌,
  if◌then◌else◌, ltb, leb, Bytes, length, nat_eq, bytes_eq,
}

-- A message in a buffer of the pool; `buffer` tells the buffers apart.
pub record Packet : Type 0 where
  pub buffer : ℕ
  pub payload : Bytes

-- ShapedRoute, less the object under it; `total_limit` is the int64 as a bit pattern. The worker
-- closes the queue when it ends.
pub record Shape : Type 0 where
  pub total_limit : ℕ
  pub traffic_limited : Bool
  pub speed_limited : Bool
  pub queue : List Packet
  pub closed : Bool

-- Whether an int64 is negative.
unfoldable pub is_negative : ℕ → Bool
is_negative w = leb (2 ^ 63) w

-- NewShapedRoute; a missing limit is a nil pointer.
unfoldable pub new_shaped_route : Option ℕ → Option ℕ → Shape
new_shaped_route speed traffic = record {
  total_limit = elim traffic [ none ↦ 0 | some n ↦ n % 2 ^ 64 ];
  traffic_limited = elim traffic [ none ↦ false | some n ↦ true ];
  speed_limited = elim speed [ none ↦ false | some n ↦ true ];
  queue = [];
  closed = false;
}

-- totalLimit.Add(-int64(size)), where the traffic is limited
unfoldable pub spend : ℕ → Shape → Shape
spend size s =
    if s.traffic_limited
    then record s { total_limit = (s.total_limit + (2 ^ 64 - size % 2 ^ 64)) % 2 ^ 64 }
    else s

-- The limit on the traffic is used up.
unfoldable pub is_spent : Shape → Bool
is_spent s = s.traffic_limited && is_negative s.total_limit

-- IsAllowed; `allow` is the answer of AllowN.
unfoldable pub is_allowed : Bool → ℕ → Shape → Bool × Shape
is_allowed allow size s =
    let s' = spend size s in
    if is_spent s' then (false, s') else if s'.speed_limited then (allow, s') else (true, s')

-- What PushLimited did: it panicked or not, it returns an error or nil, it sent the packet or not,
-- and it freed it so many times.
pub record Push : Type 0 where
  pub panicked : Bool
  pub failed : Bool
  pub sent : Bool
  pub frees : ℕ
  pub shape : Shape

-- The select at the end of PushLimited: whether it panics, whether it returns an error. `done` tells
-- that it takes the case of the context. Else a send on the closed queue panics. A route without a
-- limit on its speed has a nil queue, on which nothing is ever sent.
unfoldable pub offer_packet : Bool → Packet → Shape → Bool × Bool × Shape
offer_packet done pk s =
    if done
    then (false, true, s)
    else if s.speed_limited && s.closed
    then (true, false, s)
    else if s.speed_limited && ltb (length s.queue) 500
    then (false, false, record s { queue = s.queue ++ pk ∷ [] })
    else (false, false, s)

-- PushLimited; `send_ok` tells that SendDatagram returns no error.
unfoldable pub push_limited : Bool → Bool → Packet → Shape → Push
push_limited send_ok done pk s =
    let s' = spend (length pk.payload) s in
    let (panicked, failed, s'') = offer_packet done pk s' in
    if is_spent s'
    then record { panicked = false; failed = false; sent = false; frees = 0; shape = s' }
    else if s'.speed_limited
    then record { panicked = panicked; failed = failed; sent = false; frees = 0; shape = s'' }
    else if send_ok
    then record { panicked = panicked; failed = failed; sent = true; frees = 1; shape = s'' }
    else record { panicked = false; failed = true; sent = true; frees = 1; shape = s' }

-- close(sr.queue), which startWorker defers
unfoldable pub close_queue : Shape → Shape
close_queue s = record s { closed = true }

-- One turn of startWorker: the packet that is sent, the one that is freed, and whether the worker
-- goes on. `done` tells that its select takes the case of the context, `wait_ok` that WaitN returns
-- no error. With neither the context done nor a packet there it waits.
unfoldable pub worker_turn : Bool → Bool → Shape → Option Packet × Option Packet × Bool × Shape
worker_turn done wait_ok s = if done then (none, none, false, close_queue s) else elim s.queue [
  | [] ↦ (none, none, true, s)
  | pk ∷ rest ↦
      let s' = record s { queue = rest } in
      if wait_ok then (some pk, some pk, true, s') else (none, some pk, false, close_queue s')
]
