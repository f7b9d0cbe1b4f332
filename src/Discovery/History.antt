-- ===== src/Discovery/History.antt =====
-- The peers that a node knows, through any calls of pkg/mesh/topology and pkg/mesh/discovery.
use liberator_node_go.Prelude.{ℕ, List, [], ◌∷◌, arith, Bytes, nat_eq, bytes_eq}
use liberator_node_go.Prelude.Map.{get}
use liberator_node_go.Topology.{new, insert_merge, remove}
use liberator_node_go.Topology.Types.{PeerInfo, State}
use liberator_node_go.Topology.Conflict.{IsClean}
use liberator_node_go.Topology.Ownership.{insert_merge-IsClean, remove-IsClean}
use liberator_node_go.Session.{Session, Registry}
use liberator_node_go.Discovery.{StreamEvent, refresh_peers, handle_peer_event}
use liberator_node_go.Discovery.Expiry.{refresh_peers-IsClean, handle_peer_event-IsClean}

-- A call of InsertMerge or of Remove, a round of refreshPeers with the sessions and the time that
-- it finds, and an event of the stream of a peer.
pub data Step : Type 0 where
  merged : PeerInfo → Step
  removed : Bytes → Step
  refreshed : ℕ → Registry → Step
  streamed : Registry → StreamEvent → Step

module _ (local : Bytes) (remote : Session → Bytes) where
  abbrev step : Step → State → State
  step (merged p) st = (insert_merge p st).1
  step (removed id) st = remove id st
  step (refreshed now reg) st = (refresh_peers local remote now reg st).1
  step (streamed reg ev) st = handle_peer_event reg ev st

  abbrev pub run : List Step → State → State
  run [] st = st
  run (s ∷ ss) st = run ss (step s st)

  step-IsClean : (s : Step) (st : State) → IsClean st.peers → IsClean (step s st).peers
  step-IsClean (merged p) st v = insert_merge-IsClean p st v
  step-IsClean (removed id) st v = remove-IsClean id st v
  step-IsClean (refreshed now reg) st v = refresh_peers-IsClean local remote now reg st v
  step-IsClean (streamed reg ev) st v = handle_peer_event-IsClean reg ev st v

  run-IsClean : (ss : List Step) (st : State) → IsClean st.peers → IsClean (run ss st).peers
  run-IsClean [] st v = v
  run-IsClean (s ∷ ss) st v = run-IsClean ss (step s st) (step-IsClean s st v)

  new-IsClean : IsClean new.peers
  unfolding new get
  new-IsClean = record {
    keys = tt;
    own_id = λ id p g. absurd (ground arith);
    one_owner = λ i j p q g h a e. absurd (ground arith);
  }

-- From an empty store, through any sequence of merges, removals, rounds of refreshPeers with any
-- sessions and times, and events of the streams of peers with any contents, the store of peers
-- stays clean: no id stands twice, every record stands under its own id, and two records with the
-- same address, if it is not empty, were seen at the same time.
pub run-new-IsClean :
    (local : Bytes) (remote : Session → Bytes) (ss : List Step)
    → IsClean (run local remote ss new).peers
run-new-IsClean local remote ss = run-IsClean local remote ss new (new-IsClean local remote)
