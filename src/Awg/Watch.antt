-- ===== src/Awg/Watch.antt =====
-- watchPeers of pkg/transport/awg/transport.go: who is left.
use liberator_node_go.Prelude.{
  ℕ, ◌≡◌, refl, sym, ap, ◌∙◌, ◌↔◌, ◌⊎◌, inl, inr, Bool, true, false, none, some, List, [], ◌∷◌,
  arith, ◌==◌, Bytes, nat_eq, bytes_eq, Bool-cases, Option-cases, In,
}
use liberator_node_go.Prelude.Map.{get, erase, get-put, get-erase, In-get, get-In}
use liberator_node_go.Awg.{
  Awg, AwgPeer, report, report_all, reset_totals, to_delete, is_over, remove_all,
  remove_peer_internal, watch_peers, exists_peer,
}
use liberator_node_go.Awg.Invariant.{IsAt, IsAwg, remove_lem, remove_peer_internal-IsAwg}

-- A report changes nothing but counters: the addresses of the objects and the maps stay.
report_keeps :
    (k : ℕ) (t : Awg)
    → ((report k t).peers_by_ip ≡ t.peers_by_ip)
      × ((report k t).tun_peers ≡ t.tun_peers)
      × ((report k t).next_handle ≡ t.next_handle)
      × ((report k t).router ≡ t.router)
unfolding report
report_keeps k t = ground arith

report-IsAt : (k ip h : ℕ) (t : Awg) → IsAt t ip h → IsAt (report k t) ip h
unfolding report reset_totals
report-IsAt k ip h t (p, g, e) = elim (Option-cases (get k t.objects)) [
  | inl n ↦ rw (report, n) (p, g, e)
  | inr (q, n) ↦ elim (Bool-cases (k == h)) [
    | inl b ↦
        let same : q ≡ p = ground arith in
        rw (report, n)
          (
            reset_totals q,
            get-put k h (reset_totals q) t.objects ∙ rw b,
            ap (λ (x : AwgPeer). x.virtual_ip) same ∙ e,
          )
    | inr b ↦ rw (report, n) (p, get-put k h (reset_totals q) t.objects ∙ rw b g, e)
  ]
]

report-IsAwg : (k : ℕ) (t : Awg) → IsAwg t → IsAwg (report k t)
report-IsAwg k t v =
    let (a, b, c, d) = report_keeps k t in
    record {
      once = rw a v.once;
      same_maps = b ∙ v.same_maps ∙ sym a;
      keyed = λ ip h g. report-IsAt k ip h t (v.keyed ip h (rw a at g));
      given = λ ip h g. rw c (v.given ip h (rw a at g));
      routed = λ ip h g. rw d (v.routed ip h (rw a at g));
    }

report_all-IsAwg :
    (m : List (ℕ × ℕ)) (t : Awg)
    → IsAwg t
    → IsAwg (report_all m t) × ((report_all m t).peers_by_ip ≡ t.peers_by_ip)
unfolding report_all
report_all-IsAwg [] t v = (v, refl)
report_all-IsAwg ((ip, k) ∷ m) t v =
    let (a, b, c, d) = report_keeps k t in
    let (w, e) = report_all-IsAwg m (report k t) (report-IsAwg k t v) in (w, e ∙ a)

report_all-IsAt : (m : List (ℕ × ℕ)) (ip h : ℕ) (t : Awg) → IsAt t ip h → IsAt (report_all m t) ip h
unfolding report_all
report_all-IsAt [] ip h t i = i
report_all-IsAt ((jp, k) ∷ m) ip h t i = report_all-IsAt m ip h _ (report-IsAt k ip h t i)

-- The peer of the entry is over.
abbrev IsOver : ℕ → Awg → ℕ → Type 0
IsOver now t h = (p : AwgPeer) × (get h t.objects ≡ some p) × (is_over now p ≡ true)

to_delete_sound :
    (now : ℕ) (m : List (ℕ × ℕ)) (t : Awg) (h : ℕ)
    → In h (to_delete now m t)
    → (ip : ℕ) × In (ip, h) m × IsOver now t h
unfolding to_delete
to_delete_sound now [] t h i = elim i [ ]
to_delete_sound now ((ip, k) ∷ m) t h i = elim (Option-cases (get k t.objects)) [
  | inl n ↦
      let (jp, j, o) = to_delete_sound now m t h (rw (In, to_delete, n) at i) in (jp, inr j, o)
  | inr (p, n) ↦ elim (Bool-cases (is_over now p)) [
    | inr b ↦
        let (jp, j, o) = to_delete_sound now m t h (rw (In, to_delete, n, b) at i) in (jp, inr j, o)
    | inl b ↦ elim (rw (In, to_delete, n, b) at i) [
      | inl same ↦ (ip, inl (ap (λ x. (ip, x)) same), (p, ground arith, b))
      | inr later ↦ let (jp, j, o) = to_delete_sound now m t h later in (jp, inr j, o)
    ]
  ]
]

to_delete_complete :
    (now : ℕ) (m : List (ℕ × ℕ)) (t : Awg) (ip h : ℕ)
    → In (ip, h) m
    → IsOver now t h
    → In h (to_delete now m t)
unfolding to_delete
to_delete_complete now [] t ip h i o = elim i [ ]
to_delete_complete now ((jp, k) ∷ m) t ip h (inl e) (p, g, b) =
    let same : k ≡ h = ap (λ x. x.1) e in
    let g' : get k t.objects ≡ some p = rw same g in rw (In, to_delete, g', b) (inl same)
to_delete_complete now ((jp, k) ∷ m) t ip h (inr i) o =
    let rest = to_delete_complete now m t ip h i o in ground arith

-- An object has one address.
at_once : (t : Awg) (ip j k h : ℕ) → IsAt t ip k → k ≡ h → IsAt t j h → ip ≡ j
at_once t ip j k h (p, g, e) same (q, f, d) =
    let eq : some p ≡ some q = sym g ∙ ap (λ x. get x t.objects) same ∙ f in ground arith

module _ (ipc : Bytes → Bool) where
  -- Each of these objects leaves the maps, and no other.
  remove_all_lem :
      (hs : List ℕ) (t : Awg)
      → IsAwg t
      → ((h : ℕ) → In h hs → (ip : ℕ) × IsAt t ip h)
      → IsAwg (remove_all ipc hs t)
        × ((j : ℕ)
            → ((get j (remove_all ipc hs t).peers_by_ip ≡ get j t.peers_by_ip)
                × ((h : ℕ) → In h hs → ¬ IsAt t j h))
              ⊎ ((get j (remove_all ipc hs t).peers_by_ip ≡ none)
                  × ((h : ℕ) × In h hs × IsAt t j h)))
  unfolding remove_all
  remove_all_lem [] t v at = (v, λ j. inl (refl, λ h i. elim i [ ]))
  remove_all_lem (k ∷ hs) t v at =
      let (ip, (p, g, e)) = at k (inl refl) in
      let t' = remove_peer_internal ipc k t in
      let (a, b, c, d, r, q) = remove_lem ipc ip k t (p, g, e) in
      let same = λ (j h : ℕ) (x : IsAt t j h). let y : IsAt t' j h = rw c x in y in
      let back = λ (j h : ℕ) (x : IsAt t' j h). let y : IsAt t j h = rw c at x in y in
      let (w, rest) =
        remove_all_lem hs t' (remove_peer_internal-IsAwg ipc ip k t (p, g, e) v)
          (λ h i. let (jp, x) = at h (inr i) in (jp, same jp h x)) in
      (
        w,
        λ j.
            let step = get-erase ip j t.peers_by_ip in
            let here : get j t'.peers_by_ip ≡ get j (erase ip t.peers_by_ip) =
              ap (λ m. get j m) a in
            elim (rest j) [
              | inr (gone, (h, i, x)) ↦ inr (gone, (h, inr i, back j h x))
              | inl (kept, others) ↦ elim (Bool-cases (ip == j)) [
                | inl b ↦
                    let eq : ip ≡ j = ground arith in
                    inr (kept ∙ here ∙ step ∙ rw b refl, (k, inl refl, (p, g, e ∙ eq)))
                | inr b ↦ inl (
                  kept ∙ here ∙ step ∙ rw b refl,
                  λ h i x. elim i [
                    | inl f ↦ ground (arith, at_once t ip j k h (p, g, e) f x)
                    | inr l ↦ others h l (same j h x)
                  ],
                )
              ]
            ],
      )

-- In a transport whose maps agree, watchPeers keeps them in agreement, and a peer is left exactly if
-- the transport had it and its time, if it has one, is not over.
pub watch_peers-IsAwg :
    (ipc : Bytes → Bool) (now j : ℕ) (t : Awg)
    → IsAwg t
    → IsAwg (watch_peers ipc now t)
      × ((exists_peer j (watch_peers ipc now t) ≡ true) ↔ (
          (h : ℕ) × (p : AwgPeer) × (get j t.peers_by_ip ≡ some h)
          × (get h t.objects ≡ some p)
          × (is_over now p ≡ false)))
unfolding watch_peers exists_peer
watch_peers-IsAwg ipc now j t v =
    let m = t.peers_by_ip in
    let hs = to_delete now m t in
    let u = report_all m t in
    let (w, maps) = report_all-IsAwg m t v in
    let at = λ (h : ℕ) (i : In h hs).
      let (ip, k, o) = to_delete_sound now m t h i in
      let r : (x : ℕ) × IsAt u x h =
        (ip, report_all-IsAt m ip h t (v.keyed ip h (In-get ip h m v.once k))) in
      r in
    let (final, left) = remove_all_lem ipc hs u w at in
    let map : get j u.peers_by_ip ≡ get j m = ap (λ x. get j x) maps in
    (
      final,
      elim (left j) [
        | inr (gone, (h, i, x)) ↦ (
          λ e. absurd (ground arith),
          λ (k, p, g, f, b).
              let (ip, l, (q, d, o)) = to_delete_sound now m t h i in
              let here = report_all-IsAt m ip h t (v.keyed ip h (In-get ip h m v.once l)) in
              let same : ip ≡ j = at_once u ip j h h here refl x in
              let known = In-get ip h m v.once l in absurd (ground arith),
        )
        | inl (kept, others) ↦ (
          λ e. elim (Option-cases (get j m)) [
            | inl n ↦ absurd (ground arith)
            | inr (h, n) ↦
                let (p, g, a) = v.keyed j h n in
                elim (Bool-cases (is_over now p)) [
                  | inr b ↦ (h, p, n, g, b)
                  | inl b ↦ absurd (
                      others h (to_delete_complete now m t j h (get-In j h m n) (p, g, b))
                        (report_all-IsAt m j h t (v.keyed j h n)))
                ]
          ],
          λ (k, p, g, f, b). ground arith,
        )
      ],
    )
