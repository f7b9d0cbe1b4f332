-- ===== src/Topology/DiskTests.antt =====
-- A file of one peer, with an encoder for all maps.
use liberator_node_go.Prelude.{
  ℕ, zero, suc, ◌≡◌, refl, sym, ap, ◌⊎◌, inl, inr, Bool, true, false, Option, none, some, [], ◌∷◌,
  ◌++◌, arith, if◌then◌else◌, ◌==◌, Bytes, codes, bytes_beq, bytes_beq_iff, length, nat_eq,
  bytes_eq, Bool-cases,
}
use liberator_node_go.Prelude.Map.{get}
use liberator_node_go.Topology.Types.{PeerInfo}
use liberator_node_go.Topology.Disk.{Peers, Codec, Disk, SameMap, IsNamed, save, load, load-save}

-- The parts of a text: a number, and a string after its length.
abbrev split : ℕ → Bytes → Bytes × Bytes
split zero bs = ([], bs)
split (suc n) [] = ([], [])
split (suc n) (b ∷ bs) = let (xs, rest) = split n bs in (b ∷ xs, rest)

abbrev number : Bytes → ℕ × Bytes
number [] = (0, [])
number (b ∷ bs) = (b, bs)

abbrev string : Bytes → Bytes × Bytes
string bs = let (n, rest) = number bs in split n rest

split-length : (xs ys : Bytes) → split (length xs) (xs ++ ys) ≡ (xs, ys)
split-length [] ys = refl
split-length (x ∷ xs) ys = rw (split-length xs ys) refl

-- One entry and what comes after it.
abbrev write : Bytes × Option PeerInfo → Bytes → Bytes
write (id, none) rest = length id ∷ (id ++ (0 ∷ rest))
write (id, some p) rest =
    length id
    ∷ (id
        ++ (1 ∷ (length p.id ∷ (p.id ++ (length p.address ∷ (p.address ++ (p.last_seen ∷ rest)))))))

abbrev read_peer : Bytes → PeerInfo × Bytes
read_peer bs =
    let (id, r1) = string bs in
    let (address, r2) = string r1 in
    let (seen, r3) = number r2 in (record { id = id; address = address; last_seen = seen }, r3)

abbrev read : Bytes → (Bytes × Option PeerInfo) × Bytes
read bs =
    let (id, r1) = string bs in
    let (tag, r2) = number r1 in
    let (p, r3) = read_peer r2 in if tag == 0 then ((id, none), r2) else ((id, some p), r3)

read-write : (e : Bytes × Option PeerInfo) (rest : Bytes) → read (write e rest) ≡ (e, rest)
read-write (id, none) rest = rw (split-length id (0 ∷ rest)) refl
read-write (id, some p) rest =
    rw
      (
        split-length id (
            1 ∷ (length p.id ∷ (p.id ++ (length p.address ∷ (p.address ++ (p.last_seen ∷ rest)))))),
        split-length p.id (length p.address ∷ (p.address ++ (p.last_seen ∷ rest))),
        split-length p.address (p.last_seen ∷ rest),
      )
      refl

abbrev write_all : Peers → Bytes
write_all [] = []
write_all (e ∷ es) = write e (write_all es)

abbrev read_all : ℕ → Bytes → Peers
read_all zero bs = []
read_all (suc n) bs = let (e, rest) = read bs in e ∷ read_all n rest

read_all-write_all : (m : Peers) → read_all (length m) (write_all m) ≡ m
read_all-write_all [] = refl
read_all-write_all (e ∷ es) =
    rw (read-write e (write_all es)) (ap (λ ys. e ∷ ys) (read_all-write_all es))

abbrev codec : Codec
codec = record {
  marshal = λ m. some (length m ∷ write_all m);
  unmarshal = λ bytes. let (n, rest) = number bytes in some (read_all n rest);
}

decodes :
    (m : Peers) (bytes : Bytes)
    → codec.marshal m ≡ some bytes
    → (m' : Peers) × (codec.unmarshal bytes ≡ some m') × SameMap m' m
decodes m bytes e =
    let b : length m ∷ write_all m ≡ bytes = ground arith in
    (m, rw (← b, read_all-write_all m) refl, λ id. refl)

abbrev peer : PeerInfo
peer = record { id = codes "b"; address = codes "x:1"; last_seen = 7 }

abbrev peers : Peers
peers = (codes "b", some peer) ∷ []

peers-IsNamed : IsNamed peers
unfolding get
peers-IsNamed id v g = elim (Bool-cases (bytes_beq (codes "b") id)) [
  | inl e ↦
      let same : codes "b" ≡ id = (bytes_beq_iff (codes "b") id).0 e in
      let here : some peer ≡ v = ground arith in (λ q. cc (same, q), (peer, sym here, λ q. cc (q)))
  | inr e ↦ absurd (ground arith)
]

abbrev disk : Disk
disk = record { partial = none; rename_ok = true; remove_ok = true }

load-save_example :
    let (saved, files') = save codec disk (codes "peers.json") peers [] in
    ((saved ≡ true)
      × ((loaded : Peers) × (load codec true (codes "peers.json") files' ≡ some loaded)
          × SameMap loaded peers))
    ⊎ ((saved ≡ false)
        × ((read_ok : Bool)
            → load codec read_ok (codes "peers.json") files'
              ≡ load codec read_ok (codes "peers.json") []))
load-save_example =
    load-save codec disk (codes "peers.json") peers [] decodes (λ e. cc) peers-IsNamed
