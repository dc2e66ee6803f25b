-- ===== src/Tgzfs/Roots/Package.antt =====
-- internal/tools/tgzfs/fs.go, New: the archive of a package, whose members all lie below one directory.
use core_provider.Base.{
  ℕ, ◌<◌, String, List, [], ◌∷◌, Bool, true, false, ◌≡◌, refl, ◌⊎◌, inl, inr, Bool-cases, arith,
  length,
}
use mathlib.Core.Path.{subst}
use core_provider.Base.Result.{Result, ok, err}
use core_provider.Base.Exec.{◌>>=◌}
use core_provider.Tgzfs.Paths.{FilePath, file_path, is_here, clean}
use core_provider.Tgzfs.Nodes.{Header, DirEntry, entry, Heap, write, allocate, lookup}
use core_provider.Tgzfs.{
  Member, member, broken, Tarfs, append_parts, append, add_entry, add_members, new, empty,
}
use core_provider.Tgzfs.Build.{IsBound, Added}
use core_provider.Tgzfs.Build.Append.{append_parts-Added}
use core_provider.Tgzfs.Described.{Listing, listed, contents, stream_contents}
use core_provider.Tgzfs.Described.Loop.{
  IsBuilt, empty-IsBuilt, add_entry-Built, allocate-IsBound, here-round, entry-round,
}
use core_provider.Tgzfs.Roots.{Under, top, NoRoot, OneRoot, OneRoot-known, OneRoot-new}

-- every member lies below the directory
abbrev pub AllUnder : String → Listing → Type 0
AllUnder x [] = Unit {0}
AllUnder x ((p, v) ∷ ns) = (p.rooted ≡ false) × Under x p.parts × AllUnder x ns

-- what a round starts from
abbrev pub Start : String → Listing → Tarfs × Heap → Type 0
Start x ns s = (NoRoot x s.0 × (0 < length ns)) ⊎ OneRoot x s

fresh : (v : DirEntry) (h : Heap) → h.next < (allocate v h).next
unfolding allocate
fresh v h = omega arith

module _ (x : String) (v : DirEntry) (t : Tarfs) (h : Heap) where
  OneRoot-allocate : IsBound (t, h) → OneRoot x (t, h) → OneRoot x (t, allocate v h)
  unfolding allocate write
  OneRoot-allocate b one = record {
    address = one.address;
    roots = one.roots;
    there = one.there;
    no_entry = one.no_entry;
    looks = ground (arith, one.looks, b.bound (top x) one.address one.there);
  }

  round-OneRoot :
      (ns : Listing) (r : Bool) (ps : List String)
      → r ≡ false
      → Under x ps
      → IsBuilt (t, h)
      → Start x ns (t, h)
      → OneRoot x (append_parts r ps h.next (t, allocate v h))
  round-OneRoot ns r [] e u i start = absurd u
  round-OneRoot ns r (y ∷ []) e u i start = absurd u
  round-OneRoot ns true (y ∷ z ∷ ps) e u i start = cc
  round-OneRoot ns false (y ∷ z ∷ ps) e u i start = elim start [
    | inl (new, _) ↦ OneRoot-new x y z ps h.next t (allocate v h) u added i.closed new
    | inr one ↦
        OneRoot-known x y z ps h.next t (allocate v h) u added (OneRoot-allocate i.bounds one)
  ]
    where
      added :
          Added
            (file_path false (y ∷ z ∷ ps))
            h.next
            (t, allocate v h)
            (append_parts false (y ∷ z ∷ ps) h.next (t, allocate v h))
      added =
          append_parts-Added false (y ∷ z ∷ ps) h.next t (allocate v h)
            (allocate-IsBound v t h i.bounds) (fresh v h) (i.closed _)

-- the state after a member
abbrev after : Header → List ℕ → Tarfs → Heap → Tarfs × Heap
after hdr b t h = append (clean hdr.name) h.next (t, allocate (entry hdr b []) h)

after-IsBuilt :
    (hdr : Header) (b : List ℕ) (t : Tarfs) (h : Heap) → IsBuilt (t, h) → IsBuilt (after hdr b t h)
unfolding add_entry
after-IsBuilt hdr b t h i =
    let one = add_entry-Built hdr b t h i in
    let same : one.made ≡ (after hdr b t h).0 = ok_injective _ _ one.returns in
    subst (λ u. IsBuilt (u, (after hdr b t h).1)) same one.built
  where
    ok_injective : (u w : Tarfs) → ◌≡◌ {A = Result Tarfs} (ok u) (ok w) → w ≡ u
    ok_injective u w e = cc

after-OneRoot :
    (x : String) (hdr : Header) (b : List ℕ) (t : Tarfs) (h : Heap) (ns : Listing)
    → (clean hdr.name).rooted ≡ false
    → Under x (clean hdr.name).parts
    → IsBuilt (t, h)
    → Start x ns (t, h)
    → OneRoot x (after hdr b t h)
unfolding append
after-OneRoot x hdr b t h ns rel u i start =
    round-OneRoot x (entry hdr b []) t h ns (clean hdr.name).rooted (clean hdr.name).parts rel u i
      start

after-round :
    (hdr : Header) (b : List ℕ) (t : Tarfs) (h : Heap) (ms : List Member)
    → is_here (clean hdr.name) ≡ false
    → add_members (member hdr (ok b) ∷ ms) t h
      ≡ add_members ms (after hdr b t h).0 (after hdr b t h).1
unfolding add_entry
after-round hdr b t h ms named = entry-round hdr t h ms b (after hdr b t h).0 named refl

-- a file system with the one entry at its root
pub record Package (x : String) (outcome : Result Tarfs × Heap) : Type 0 where
  pub made : Tarfs
  pub returns : outcome.0 ≡ ok made
  pub root : OneRoot x (made, outcome.1)

listed-cons :
    (hdr : Header) (b : List ℕ) (rest : Result Listing) (ns : Listing)
    → is_here (clean hdr.name) ≡ false
    → listed hdr (ok b) rest ≡ ok ns
    → (ns' : Listing) × (rest ≡ ok ns') × (ns ≡ (clean hdr.name, entry hdr b []) ∷ ns')
unfolding listed
listed-cons hdr b (ok ns') ns named e = (ns', refl, ground arith)
listed-cons hdr b (err problem) ns named e = absurd (ground arith)

nil-round : (t : Tarfs) (h : Heap) → add_members [] t h ≡ (ok t, h)
unfolding add_members
nil-round t h = refl

AllUnder-cons :
    (x : String) (p : FilePath) (v : DirEntry) (ns ns' : Listing)
    → ns ≡ (p, v) ∷ ns'
    → AllUnder x ns
    → (p.rooted ≡ false) × Under x p.parts × AllUnder x ns'
AllUnder-cons x p v ns ns' is all = subst (AllUnder x) is all

pub add_members-Package :
    (x : String) (ms : List Member) (t : Tarfs) (h : Heap) (ns : Listing)
    → contents ms ≡ ok ns
    → AllUnder x ns
    → IsBuilt (t, h)
    → Start x ns (t, h)
    → Package x (add_members ms t h)
unfolding contents listed
add_members-Package x [] t h ns e all i (inl (new, some_member)) = absurd (ground arith)
add_members-Package x [] t h ns e all i (inr one) =
    rw (nil-round t h) (record { made = t; returns = refl; root = one })
add_members-Package x (broken problem ∷ ms) t h ns e all i start = cc
add_members-Package x (member hdr (err problem) ∷ ms) t h ns e all i start =
    elim (Bool-cases (is_here (clean hdr.name))) [
      | inl here ↦
          rw (here-round hdr t h ms (err problem) here)
            (add_members-Package x ms t h ns (rw here at e) all i start)
      | inr named ↦ absurd (ground arith)
    ]
add_members-Package x (member hdr (ok b) ∷ ms) t h ns e all i start =
    elim (Bool-cases (is_here (clean hdr.name))) [
      | inl here ↦
          rw (here-round hdr t h ms (ok b) here)
            (add_members-Package x ms t h ns (rw here at e) all i start)
      | inr named ↦
          let (ns', rest, is) = listed-cons hdr b (contents ms) ns named e in
          let (rel, u, all') = AllUnder-cons x (clean hdr.name) (entry hdr b []) ns ns' is all in
          rw (after-round hdr b t h ms named) (
            add_members-Package x ms (after hdr b t h).0 (after hdr b t h).1 ns' rest all'
              (after-IsBuilt hdr b t h i) (inr (after-OneRoot x hdr b t h ns rel u i start)))
    ]

-- Where all members of the stream lie below the directory `x`, and there are some, New makes a file system
-- with one entry at its root, the directory `x`.
pub new-Package :
    (x : String) (stream : Result (List Member)) (h : Heap) (ns : Listing)
    → stream_contents stream ≡ ok ns
    → AllUnder x ns
    → 0 < length ns
    → Package x (new stream h)
unfolding new stream_contents ◌>>=◌ lookup
new-Package x (err e) h ns c all some_member = cc
new-Package x (ok ms) h ns c all some_member =
    add_members-Package x ms empty h ns c all (empty-IsBuilt h)
      (inl (record { roots = refl; absent = refl; no_entry = refl }, some_member))
