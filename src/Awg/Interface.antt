-- ===== src/Awg/Interface.antt =====
-- AWGTransport as the transport of pkg/services/peersmanager, in the states whose maps agree.
use liberator_node_go.Prelude.{
  ℕ, ◌≡◌, ◌∙◌, Bool, false, Option, arith, if◌then◌else◌, ◌==◌, Bytes, nat_eq, bytes_eq,
}
use liberator_node_go.Prelude.Map.{get}
use liberator_node_go.PeersManager.{Peer, Transport}
use liberator_node_go.PeersManager.Laws.{Laws}
use liberator_node_go.Awg.{Awg, kick_peer, create_peer, exists_peer}
use liberator_node_go.Awg.Invariant.{IsAwg, kick_peer-IsAwg}
use liberator_node_go.Awg.Creation.{kick_peer_lem}
use liberator_node_go.Awg.Created.{create_peer-CreateOutcome}

-- A transport whose maps agree.
abbrev pub ValidAwg : Type 0
ValidAwg = (t : Awg) × IsAwg t

-- The device, the conversions of limits, the time, and the generation of keys and links are
-- parameters.
module _ (ipc : Bytes → Bool) (speed_bytes traffic_bytes : ℕ → ℕ) (now : ℕ)
    (link : Peer → Bytes → Bytes → Awg → Option Bytes) (keys : Peer → Awg → Option Peer) where
  unfoldable pub awg_operations : Transport ValidAwg
  awg_operations = record {
    kick_peer =
        λ ip (t, v). ((kick_peer ipc ip t).0, ((kick_peer ipc ip t).1, kick_peer-IsAwg ipc ip t v));
    create_peer = λ p (t, v).
        let (w, others, here) = create_peer-CreateOutcome ipc speed_bytes traffic_bytes now p t v in
        (
          (create_peer ipc speed_bytes traffic_bytes now p t).0,
          ((create_peer ipc speed_bytes traffic_bytes now p t).1, w),
        );
    exists_peer = λ ip (t, v). exists_peer ip t;
    generate_client_connection_string = λ p addr name (t, v). link p addr name t;
    generate_peer_keys = λ p (t, v). keys p t;
  }

  exists_same :
      (j : ℕ) (t u : Awg)
      → get j t.peers_by_ip ≡ get j u.peers_by_ip
      → exists_peer j t ≡ exists_peer j u
  unfolding exists_peer
  exists_same j t u e = rw (exists_peer, e)

  kick-exists :
      (ip j : ℕ) (t : Awg)
      → IsAwg t
      → exists_peer j (kick_peer ipc ip t).1 ≡ (if ip == j then false else exists_peer j t)
  unfolding exists_peer
  kick-exists ip j t v = ground (arith, kick_peer_lem ipc ip j t v)

  -- The transport keeps the laws that the manager of peers relies on.
  pub awg_laws : Laws awg_operations
  unfolding awg_operations
  awg_laws = record {
    create_exists = λ p (t, v) ok.
        let (w, others, here) = create_peer-CreateOutcome ipc speed_bytes traffic_bytes now p t v in
        here ∙ ok;
    create_keeps = λ p (t, v) ip ne.
        let (w, others, here) = create_peer-CreateOutcome ipc speed_bytes traffic_bytes now p t v in
        exists_same ip (create_peer ipc speed_bytes traffic_bytes now p t).1 t (others ip ne);
    kick_gone = λ ip (t, v). ground (arith, kick-exists ip ip t v);
    kick_keeps = λ ip other (t, v) ne. ground (arith, kick-exists ip other t v);
  }
