-- ===== src/Tgzfs/Build/Steps.antt =====
-- The steps of one call of append in internal/tools/tgzfs/fs.go: what each leaves under the names.
use core_provider.Base.{
  ℕ, suc, ◌≤◌, ◌<◌, String, List, [], ◌∷◌, ◌++◌, Bool, true, false, not, ◌&&◌, ◌||◌, Option, none,
  some, ◌≡◌, refl, ◌⊎◌, inl, inr, ap, Bool-cases, arith, if◌then◌else◌, length,
}
use core_provider.Tgzfs.Paths.{FilePath, file_path, dir, tail, base, is_here, path_eq, path_eq_iff}
use core_provider.Tgzfs.Nodes.{
  DirEntry, entry, fake_dir_entry, children, with_children, Heap, write, allocate, append_child,
  lookup, insert, lookup-insert,
}
use core_provider.Tgzfs.{Tarfs}
use core_provider.Tgzfs.Build.{shape, shape_at, view, above_parts, above, put, IsBound, IsClosed}

shape-with_children : (cs : List ℕ) (e : DirEntry) → shape (with_children cs e) ≡ shape e
unfolding shape
shape-with_children cs (entry h b ds) = refl
shape-with_children cs (fake_dir_entry n ds) = refl

pub append_child-shape :
    (p c : ℕ) (h : Heap) (a : ℕ) → shape ((append_child p c h).cell a) ≡ shape (h.cell a)
unfolding append_child write
append_child-shape p c h a =
    ground (arith, shape-with_children (children (h.cell p) ++ c ∷ []) (h.cell p))

pub append_child-view :
    (q : FilePath) (p c : ℕ) (t : Tarfs) (h : Heap) → view q (t, append_child p c h) ≡ view q (t, h)
unfolding view shape_at
append_child-view q p c t h = go (lookup q t.entries)
  where
    go : (o : Option ℕ) → shape_at (append_child p c h) o ≡ shape_at h o
    go none = refl
    go (some a) = ap some (append_child-shape p c h a)

-- the next directory on the way
closed-dir :
    (r : Bool) (x : String) (ps : List String) (t : Tarfs) (n a : ℕ)
    → IsClosed n t
    → suc (length ps) < n
    → lookup (file_path r (x ∷ ps)) t.entries ≡ some a
    → (is_here (file_path r ps) ≡ true) ⊎ ((b : ℕ) × (lookup (file_path r ps) t.entries ≡ some b))
unfolding dir tail
closed-dir r x ps t n a c h here = elim (c.closed (file_path r (x ∷ ps)) h) [
  | inl out ↦ absurd (ground (arith, out))
  | inr (inl top) ↦ inl top
  | inr (inr b) ↦ inr b
]

-- Below a name that is in the map every directory on the way is.
pub closed-above :
    (q : FilePath) (r : Bool) (ps : List String) (t : Tarfs) (n a : ℕ)
    → IsClosed n t
    → length ps < n
    → lookup (file_path r ps) t.entries ≡ some a
    → above_parts q r ps ≡ true
    → is_here q ≡ false
    → (b : ℕ) × (lookup q t.entries ≡ some b)
unfolding above_parts is_here
closed-above q r [] t n a c h here up away = cc
closed-above q r (x ∷ ps) t n a c h here up away = elim (closed-dir r x ps t n a c h here) [
  | inl top ↦ absurd (at_top ps top up)
  | inr (b, e) ↦ elim (Bool-cases (path_eq q (file_path r ps))) [
    | inl same ↦ (b, ground (arith, path_eq_iff q (file_path r ps)))
    | inr other ↦ closed-above q r ps t n b c (omega arith) e (rw other at up) away
  ]
]
  where
    at_top :
        (ps : List String)
        → is_here (file_path r ps) ≡ true
        → (path_eq q (file_path r ps) || above_parts q r ps) ≡ true
        → ⊥
    at_top [] top up = ground (arith, path_eq_iff q (file_path r []))
    at_top (y ∷ ps) top up = cc

module _ (r : Bool) (x : String) (ps : List String) (e : ℕ) (t : Tarfs) (h : Heap) where
  -- the name and its directory, and the state when append calls itself for the directory
  abbrev pub name : FilePath
  name = file_path r (x ∷ ps)

  abbrev pub up : FilePath
  up = file_path r ps

  abbrev pub with_name : Tarfs
  with_name = record t { entries = insert name e t.entries }

  abbrev pub with_dir : Heap
  with_dir = allocate (fake_dir_entry (base up) []) h

  -- a name with fewer parts is another name
  pub name_other : (q : FilePath) → length q.parts ≤ length ps → path_eq q name ≡ false
  name_other q short = elim (Bool-cases (path_eq q name)) [
    | inl same ↦
        absurd (omega (arith, ap (λ (p : FilePath). length p.parts) ((path_eq_iff q name).0 same)))
    | inr other ↦ other
  ]

  pub lookup-with_name :
      (q : FilePath) → length q.parts ≤ length ps → lookup q with_name.entries ≡ lookup q t.entries
  lookup-with_name q short = rw (lookup-insert name q e t.entries, name_other q short)

  length-dir : (q : FilePath) → length (dir q).parts ≤ length q.parts
  unfolding dir tail
  length-dir q = go q.parts
    where
      go : (qs : List String) → length (tail qs) ≤ length qs
      go [] = omega arith
      go (y ∷ qs) = omega arith

  pub with_name-IsClosed : IsClosed (suc (length ps)) t → IsClosed (length ps) with_name
  with_name-IsClosed c = record {
    closed = λ q short.
        rw
          (lookup-with_name q (omega arith), lookup-with_name (dir q) (omega (arith, length-dir q)))
          (c.closed q (omega arith));
  }

  pub with_dir-IsBound : IsBound (t, h) → e < h.next → IsBound (with_name, with_dir)
  unfolding allocate
  with_dir-IsBound b fresh = record {
    bound = λ q a there. ground (arith, lookup-insert name q e t.entries, b.bound q a);
  }

  pub with_dir-view :
      (q : FilePath)
      → IsBound (t, h)
      → e < h.next
      → view q (with_name, with_dir)
        ≡ (if path_eq q name then some (shape (h.cell e)) else view q (t, h))
  unfolding view shape_at allocate write
  with_dir-view q b fresh =
      rw (lookup-insert name q e t.entries) (go (path_eq q name) (lookup q t.entries) (b.bound q))
    where
      go :
          (same : Bool) (old : Option ℕ)
          → ((a : ℕ) → old ≡ some a → a < h.next)
          → shape_at with_dir (if same then some e else old)
            ≡ (if same then some (shape (h.cell e)) else shape_at h old)
      go true old bound = ground arith
      go false none bound = refl
      go false (some a) bound = ground (arith, bound a refl)

  -- where the directory is "." nothing lies above the name
  pub top-above : (q : FilePath) → is_here up ≡ true → above q name ≡ false
  unfolding above above_parts is_here
  top-above q top = go ps top
    where
      go :
          (qs : List String)
          → is_here (file_path r qs) ≡ true
          → ((path_eq q (file_path r qs) || above_parts q r qs) && not (is_here q)) ≡ false
      go [] top = ground (arith, path_eq_iff q (file_path r []))
      go (y ∷ qs) top = cc

  -- where the directory is in the map, all that lies above the name is
  pub known-above :
      (q : FilePath) (a : ℕ)
      → IsClosed (suc (length ps)) t
      → lookup up t.entries ≡ some a
      → view q (t, h) ≡ none
      → above q name ≡ false
  unfolding above above_parts view shape_at
  known-above q a c there unseen = elim (Bool-cases (above q name)) [
    | inr none_above ↦ none_above
    | inl is_above ↦ absurd (elim (Bool-cases (path_eq q up)) [
      | inl same ↦ seen a (ground (arith, path_eq_iff q up))
      | inr other ↦
          let way =
            closed-above q r ps t (suc (length ps)) a c (omega arith) there (ground arith)
              (ground arith) in
          seen way.0 way.1
    ])
  ]
    where
      seen : (b : ℕ) → lookup q t.entries ≡ some b → ⊥
      seen b e = ground arith

-- the pointer is put under a name that has nothing new above it
module _ (p : FilePath) (e : ℕ) (t : Tarfs) (h : Heap) where
  abbrev pub inserted : Tarfs
  inserted = record t { entries = insert p e t.entries }

  pub put-old :
      (q : FilePath) (v : DirEntry) (old : Option DirEntry)
      → (old ≡ none → above q p ≡ false)
      → put p v q old ≡ (if path_eq q p then some v else old)
  unfolding put
  put-old q v none nothing_new = ground (arith, nothing_new refl)
  put-old q v (some w) nothing_new = refl

  pub inserted-view :
      (q : FilePath)
      → view q (inserted, h) ≡ (if path_eq q p then some (shape (h.cell e)) else view q (t, h))
  unfolding view shape_at
  inserted-view q = rw (lookup-insert p q e t.entries) (go (path_eq q p))
    where
      go :
          (same : Bool)
          → shape_at h (if same then some e else lookup q t.entries)
            ≡ (if same then some (shape (h.cell e)) else shape_at h (lookup q t.entries))
      go true = refl
      go false = refl

  pub inserted-IsBound : IsBound (t, h) → e < h.next → IsBound (inserted, h)
  inserted-IsBound b fresh = record {
    bound = λ q a there. ground (arith, lookup-insert p q e t.entries, b.bound q a);
  }
