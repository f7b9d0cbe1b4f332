-- ===== src/Awg/Traffic.antt =====
-- The traffic that pkg/transport/awg counts, and what watchPeers reports of it.
use liberator_node_go.Prelude.{
  ℕ, ◌+◌, ◌≤◌, ◌<◌, ◌≡◌, refl, sym, subst, ◌∙◌, ◌≢◌, ◌⊎◌, inl, inr, Bool, true, some, List, [], ◌∷◌,
  arith, ltb, leb, ◌==◌, Bytes, length, nat_eq, bytes_eq, Bool-cases, Option-cases, In,
}
use liberator_node_go.Prelude.{In-append_left, In-append_right, length-append}
use liberator_node_go.Prelude.Map.{get, get-put, get-put_self, get-put_ne}
use liberator_node_go.PeersManager.{TransportPeerStats}
use liberator_node_go.Awg.{
  Awg, AwgPeer, report, report_all, stats_of, reset_totals, offer_stats, to_delete, remove_all,
  remove_peer_internal, watch_peers, ipc_set,
}

-- The counters of the object start from 0 again.
abbrev pub IsReset : ℕ → Awg → Type 0
IsReset h t =
    (p : AwgPeer) × (get h t.objects ≡ some p) × (p.total_to_peer ≡ 0) × (p.total_from_peer ≡ 0)

report_resets : (h : ℕ) (t : Awg) (p : AwgPeer) → get h t.objects ≡ some p → IsReset h (report h t)
unfolding report reset_totals
report_resets h t p g =
    rw (report, g) (reset_totals p, get-put_self h (reset_totals p) t.objects, refl, refl)

report-IsReset : (h k : ℕ) (t : Awg) → IsReset h t → IsReset h (report k t)
unfolding report reset_totals
report-IsReset h k t (p, g, a, b) = elim (Bool-cases (k == h)) [
  | inl e ↦
      let same : k ≡ h = ground arith in
      subst (λ j. IsReset h (report j t)) (sym same) (report_resets h t p g)
  | inr e ↦ elim (Option-cases (get k t.objects)) [
    | inl n ↦ rw (report, n) (p, g, a, b)
    | inr (q, n) ↦ rw (report, n) (p, get-put k h (reset_totals q) t.objects ∙ rw e g, a, b)
  ]
]

report_other : (h k : ℕ) (t : Awg) → k ≢ h → get h (report k t).objects ≡ get h t.objects
unfolding report
report_other h k t ne = elim (Option-cases (get k t.objects)) [
  | inl n ↦ rw (report, n) refl
  | inr (q, n) ↦ rw (report, n) (get-put_ne k h (reset_totals q) t.objects ne)
]

-- A report adds to the channel one place at most, and takes nothing out.
report_queue :
    (s : TransportPeerStats) (k : ℕ) (t : Awg)
    → (length (report k t).delta_chan ≤ length t.delta_chan + 1)
      × (In s t.delta_chan → In s (report k t).delta_chan)
unfolding report offer_stats
report_queue s k t = elim (Option-cases (get k t.objects)) [
  | inl n ↦ rw (report, n) (omega arith, λ i. i)
  | inr (q, n) ↦ elim (Bool-cases (ltb (length t.delta_chan) 100)) [
    | inl b ↦
        rw (report, n, offer_stats, b)
          (
            omega (arith, length-append t.delta_chan (stats_of q ∷ [])),
            λ i. In-append_left s t.delta_chan (stats_of q ∷ []) i,
          )
    | inr b ↦ rw (report, n, offer_stats, b) (omega arith, λ i. i)
  ]
]

report_sends :
    (h : ℕ) (t : Awg) (p : AwgPeer)
    → get h t.objects ≡ some p
    → length t.delta_chan < 100
    → In (stats_of p) (report h t).delta_chan
unfolding report offer_stats
report_sends h t p g room =
    let b : ltb (length t.delta_chan) 100 ≡ true = ground arith in
    rw (report, g, offer_stats, b)
      (In-append_right (stats_of p) t.delta_chan (stats_of p ∷ []) (inl refl))

report_all-IsReset : (m : List (ℕ × ℕ)) (h : ℕ) (t : Awg) → IsReset h t → IsReset h (report_all m t)
unfolding report_all
report_all-IsReset [] h t r = r
report_all-IsReset ((ip, k) ∷ m) h t r = report_all-IsReset m h _ (report-IsReset h k t r)

report_all_keeps :
    (m : List (ℕ × ℕ)) (s : TransportPeerStats) (t : Awg)
    → In s t.delta_chan
    → In s (report_all m t).delta_chan
unfolding report_all
report_all_keeps [] s t i = i
report_all_keeps ((ip, k) ∷ m) s t i = report_all_keeps m s _ ((report_queue s k t).1 i)

-- With room for all, what each listed object counted goes into the channel and its counters
-- start again.
report_all_sends :
    (m : List (ℕ × ℕ)) (ip h : ℕ) (t : Awg) (p : AwgPeer)
    → In (ip, h) m
    → get h t.objects ≡ some p
    → length t.delta_chan + length m ≤ 100
    → In (stats_of p) (report_all m t).delta_chan × IsReset h (report_all m t)
unfolding report_all
report_all_sends [] ip h t p i g room = elim i [ ]
report_all_sends ((jp, k) ∷ m) ip h t p i g room = elim (Bool-cases (k == h)) [
  | inl e ↦
      let same : k ≡ h = ground arith in
      rw same (
        report_all_keeps m (stats_of p) _ (report_sends h t p g (omega arith)),
        report_all-IsReset m h _ (report_resets h t p g),
      )
  | inr e ↦
      let ne : k ≢ h = λ q. ground arith in
      let grows = (report_queue (stats_of p) k t).0 in
      report_all_sends m ip h (report k t) p (ground arith) (report_other h k t ne ∙ g)
        (omega arith)
]

report_full : (k : ℕ) (t : Awg) → 100 ≤ length t.delta_chan → (report k t).delta_chan ≡ t.delta_chan
unfolding report offer_stats
report_full k t full = ground arith

report_full_still :
    (k : ℕ) (t : Awg) → 100 ≤ length t.delta_chan → 100 ≤ length (report k t).delta_chan
report_full_still k t full = rw (report_full k t full) full

report_all_same :
    (m : List (ℕ × ℕ)) (t : Awg)
    → 100 ≤ length t.delta_chan
    → (report_all m t).delta_chan ≡ t.delta_chan
unfolding report_all
report_all_same [] t full = refl
report_all_same ((ip, k) ∷ m) t full =
    report_all_same m _ (report_full_still k t full) ∙ report_full k t full

report_all_resets :
    (m : List (ℕ × ℕ)) (ip h : ℕ) (t : Awg) (p : AwgPeer)
    → In (ip, h) m
    → get h t.objects ≡ some p
    → IsReset h (report_all m t)
unfolding report_all
report_all_resets [] ip h t p i g = elim i [ ]
report_all_resets ((jp, k) ∷ m) ip h t p i g = elim (Bool-cases (k == h)) [
  | inl e ↦
      let eq : k ≡ h = ground arith in rw eq (report_all-IsReset m h _ (report_resets h t p g))
  | inr e ↦
      let ne : k ≢ h = λ q. ground arith in
      report_all_resets m ip h (report k t) p (ground arith) (report_other h k t ne ∙ g)
]

remove_keeps :
    (ipc : Bytes → Bool) (h : ℕ) (t : Awg)
    → ((remove_peer_internal ipc h t).objects ≡ t.objects)
      × ((remove_peer_internal ipc h t).delta_chan ≡ t.delta_chan)
unfolding remove_peer_internal ipc_set
remove_keeps ipc h t = ground arith

remove_all_keeps :
    (ipc : Bytes → Bool) (hs : List ℕ) (t : Awg)
    → ((remove_all ipc hs t).objects ≡ t.objects)
      × ((remove_all ipc hs t).delta_chan ≡ t.delta_chan)
unfolding remove_all
remove_all_keeps ipc [] t = (refl, refl)
remove_all_keeps ipc (h ∷ hs) t =
    let (a, b) = remove_keeps ipc h t in
    let (c, d) = remove_all_keeps ipc hs (remove_peer_internal ipc h t) in (c ∙ a, d ∙ b)

-- For every peer in the map of the transport, watchPeers starts the counters of its object from 0
-- again. Unless deltaChan lacks room for the stats of all peers, what the object counted is in
-- the channel then; if the channel is full, it is as it was.
pub watch_peers-reports :
    (ipc : Bytes → Bool) (now ip h : ℕ) (t : Awg) (p : AwgPeer)
    → In (ip, h) t.peers_by_ip
    → get h t.objects ≡ some p
    → let t' = watch_peers ipc now t in
      IsReset h t'
      × ((100 < length t.delta_chan + length t.peers_by_ip) ⊎ In (stats_of p) t'.delta_chan)
      × ((length t.delta_chan < 100) ⊎ (t'.delta_chan ≡ t.delta_chan))
unfolding watch_peers
watch_peers-reports ipc now ip h t p i g =
    let m = t.peers_by_ip in
    let (a, b) = remove_all_keeps ipc (to_delete now m t) (report_all m t) in
    (
      rw a (report_all_resets m ip h t p i g),
      elim (Bool-cases (leb (length t.delta_chan + length m) 100)) [
        | inl room ↦ inr (rw b (report_all_sends m ip h t p i g (ground arith)).0)
        | inr crowded ↦ inl (ground arith)
      ],
      elim (Bool-cases (leb 100 (length t.delta_chan))) [
        | inl full ↦ inr (b ∙ report_all_same m t (ground arith))
        | inr room ↦ inl (ground arith)
      ],
    )
