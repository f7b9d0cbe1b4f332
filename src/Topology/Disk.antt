-- ===== src/Topology/Disk.antt =====
-- pkg/mesh/topology/disk.go: the peers in a JSON file. The encoder of JSON is a parameter, and so
-- is what the file system answers: how far WriteFile came, and whether Rename, Remove and
-- ReadFile succeed. A rename replaces the file at once.
use liberator_node_go.Prelude.{
  ◌≡◌, refl, sym, ◌∙◌, ◌≢◌, ◌⊎◌, inl, inr, Bool, true, false, not, ◌&&◌, Option, none, some, List,
  [], ◌∷◌, ◌++◌, arith, if◌then◌else◌, Bytes, codes, bytes_beq, bytes_beq_iff, keep, nat_eq,
  bytes_eq, Bool-cases, Option-cases,
}
use liberator_node_go.Prelude.Map.{
  get, put, erase, get-put_self, get-put_ne, get-erase_ne, get-keep,
}
use liberator_node_go.Topology.Types.{PeerInfo}

-- A map of pointers to peers: nil is none.
abbrev pub Peers : Type 0
Peers = List (Bytes × Option PeerInfo)

-- json.MarshalIndent and json.Unmarshal
pub record Codec : Type 0 where
  pub marshal : Peers → Option Bytes
  pub unmarshal : Bytes → Option Peers

-- What is on the disk by file name.
abbrev pub Files : Type 0
Files = List (Bytes × Bytes)

-- What one Save meets: a failed WriteFile leaves some bytes.
pub record Disk : Type 0 where
  pub partial : Option Bytes
  pub rename_ok : Bool
  pub remove_ok : Bool

unfoldable pub tmp_file : Bytes → Bytes
tmp_file filename = filename ++ codes ".tmp"

-- Save from WriteFile on.
unfoldable pub write_peers : Disk → Bytes → Bytes → Files → Bool × Files
write_peers disk filename bytes files = elim disk.partial [
  | some left ↦ (false, put (tmp_file filename) left files)
  | none ↦
      let written = put (tmp_file filename) bytes files in
      if disk.rename_ok
      then (true, put filename bytes (erase (tmp_file filename) written))
      else (false, if disk.remove_ok then erase (tmp_file filename) written else written)
]

-- Save: whether it returns no error, and the files
unfoldable pub save : Codec → Disk → Bytes → Peers → Files → Bool × Files
save codec disk filename peers files =
    if bytes_beq filename [] then (true, files) else elim (codec.marshal peers) [
      | none ↦ (false, files)
      | some bytes ↦ write_peers disk filename bytes files
    ]

-- The entries that Load keeps.
unfoldable pub is_usable : Bytes × Option PeerInfo → Bool
is_usable (id, none) = false
is_usable (id, some p) = not (bytes_beq id []) && not (bytes_beq p.id [])

-- Load: `read_ok` tells that ReadFile reads a file that is there
unfoldable pub load : Codec → Bool → Bytes → Files → Option Peers
load codec read_ok filename files =
    if bytes_beq filename [] then some [] else elim (get filename files) [
      | none ↦ some []
      | some bytes ↦ if not read_ok then none else elim (codec.unmarshal bytes) [
        | none ↦ none
        | some peers ↦ some (keep is_usable peers)
      ]
    ]

tmp_file-ne : (filename : Bytes) → tmp_file filename ≢ filename
unfolding tmp_file
tmp_file-ne [] e = ground arith
tmp_file-ne (c ∷ cs) e = tmp_file-ne cs (ground arith)

-- The file of the peers after the writes: the new bytes, or what it was.
write_peers_lem :
    (disk : Disk) (filename bytes : Bytes) (files : Files)
    → (((write_peers disk filename bytes files).0 ≡ true)
        × (get filename (write_peers disk filename bytes files).1 ≡ some bytes))
      ⊎ (((write_peers disk filename bytes files).0 ≡ false)
          × (get filename (write_peers disk filename bytes files).1 ≡ get filename files))
unfolding write_peers
write_peers_lem disk filename bytes files =
    let ne = tmp_file-ne filename in
    let kept = λ (left : Bytes). get-put_ne (tmp_file filename) filename left files ne in
    let gone = λ (m : Files). get-erase_ne (tmp_file filename) filename m ne in
    elim (Option-cases disk.partial) [
      | inr (left, e) ↦ rw (write_peers, e) (inr (refl, kept left))
      | inl e ↦ elim (Bool-cases disk.rename_ok) [
        | inl r ↦ rw (write_peers, e, r) (inl (refl, get-put_self filename bytes _))
        | inr r ↦ elim (Bool-cases disk.remove_ok) [
          | inl m ↦ rw (write_peers, e, r, m) (inr (refl, gone _ ∙ kept bytes))
          | inr m ↦ rw (write_peers, e, r, m) (inr (refl, kept bytes))
        ]
      ]
    ]

load_file :
    (codec : Codec) (filename bytes : Bytes) (files : Files) (peers : Peers)
    → filename ≢ []
    → get filename files ≡ some bytes
    → codec.unmarshal bytes ≡ some peers
    → load codec true filename files ≡ some (keep is_usable peers)
unfolding load
load_file codec filename bytes files peers named g d =
    let n : bytes_beq filename [] ≡ false = ground (arith, bytes_beq_iff filename []) in
    rw (load, n, g, d) refl

load_same :
    (codec : Codec) (read_ok : Bool) (filename : Bytes) (files files' : Files)
    → get filename files' ≡ get filename files
    → load codec read_ok filename files' ≡ load codec read_ok filename files
unfolding load
load_same codec read_ok filename files files' g = rw (load, g) refl

-- Two lists stand for the same map: JSON has the names in an order of its own.
abbrev pub SameMap : Peers → Peers → Type 0
SameMap m n = (id : Bytes) → get id m ≡ get id n

-- Every entry has a peer with an id, under a name.
abbrev pub IsNamed : Peers → Type 0
IsNamed m =
    (id : Bytes) (v : Option PeerInfo)
    → get id m ≡ some v
    → (id ≢ []) × ((p : PeerInfo) × (v ≡ some p) × (p.id ≢ []))

IsNamed-usable :
    (m : Peers) (id : Bytes) (v : Option PeerInfo)
    → IsNamed m
    → get id m ≡ some v
    → is_usable (id, v) ≡ true
unfolding is_usable
IsNamed-usable m id v h g =
    let (named, (p, e, n)) = h id v g in
    let a : bytes_beq id [] ≡ false = ground (arith, bytes_beq_iff id []) in
    let b : bytes_beq p.id [] ≡ false = ground (arith, bytes_beq_iff p.id []) in
    rw (e, is_usable, a, b) refl

-- Take an encoder whose output decodes to the same map, a file name that is not empty, and a map
-- in which every name is not empty and has a peer, not nil, whose own id is not empty. After a Save
-- that returns no error, Load of a file that can be read gives this map. After a Save that returns
-- an error, whatever failed and however much was written, Load gives what it gave before.
pub load-save :
    (codec : Codec) (disk : Disk) (filename : Bytes) (peers : Peers) (files : Files)
    → ((m : Peers) (bytes : Bytes)
        → codec.marshal m ≡ some bytes
        → (m' : Peers) × (codec.unmarshal bytes ≡ some m') × SameMap m' m)
    → filename ≢ []
    → IsNamed peers
    → let (saved, files') = save codec disk filename peers files in
      ((saved ≡ true)
        × ((loaded : Peers) × (load codec true filename files' ≡ some loaded)
            × SameMap loaded peers))
      ⊎ ((saved ≡ false)
          × ((read_ok : Bool)
              → load codec read_ok filename files' ≡ load codec read_ok filename files))
unfolding save
load-save codec disk filename peers files decodes named usable =
    let n : bytes_beq filename [] ≡ false = ground (arith, bytes_beq_iff filename []) in
    elim (Option-cases (codec.marshal peers)) [
      | inl e ↦ rw (save, n, e) (inr (refl, λ read_ok. refl))
      | inr (bytes, e) ↦ elim (write_peers_lem disk filename bytes files) [
        | inl (ok, g) ↦
            let (m, d, same) = decodes peers bytes e in
            let kept = λ (id : Bytes).
              get-keep is_usable id m
                (λ v h. IsNamed-usable peers id v usable (sym (same id) ∙ h)) in
            rw (save, n, e)
              (inl (
                ok,
                (
                  keep is_usable m,
                  load_file codec filename bytes _ m named g d,
                  λ id. kept id ∙ same id,
                ),
              ))
        | inr (failed, g) ↦
            rw (save, n, e) (inr (failed, λ read_ok. load_same codec read_ok filename files _ g))
      ]
    ]
