-- ===== src/Tgzfs/Build/Closed.antt =====
-- internal/tools/tgzfs/fs.go, append: the directory of every name in the map is in the map.
use core_provider.Base.{
  ℕ, suc, String, List, [], ◌∷◌, Bool, true, false, not, ◌&&◌, ◌||◌, Option, none, some, ◌≡◌, refl,
  ◌∙◌, ◌⊎◌, inl, inr, ap, ap, Bool-cases, Option-cases, arith, if◌then◌else◌, length,
}
use core_provider.Tgzfs.Paths.{FilePath, file_path, dir, tail, is_here, path_eq, path_eq_iff}
use core_provider.Tgzfs.Nodes.{DirEntry, Heap, lookup}
use core_provider.Tgzfs.{Tarfs}
use core_provider.Tgzfs.Build.{
  shape, shape_at, view, above_parts, above, implied, put, IsClosed, Added,
}

-- a name in the map stands for something, and the other way round
view-some :
    (q : FilePath) (a : ℕ) (s : Tarfs × Heap)
    → lookup q s.0.entries ≡ some a
    → (v : DirEntry) × (view q s ≡ some v)
unfolding view shape_at
view-some q a (t, h) there = (shape (h.cell a), rw there refl)

lookup-some :
    (q : FilePath) (v : DirEntry) (s : Tarfs × Heap)
    → view q s ≡ some v
    → (a : ℕ) × (lookup q s.0.entries ≡ some a)
unfolding view shape_at
lookup-some q v (t, h) seen = go (lookup q t.entries) seen
  where
    go : (o : Option ℕ) → shape_at h o ≡ some v → (a : ℕ) × (o ≡ some a)
    go none e = cc
    go (some a) e = (a, refl)

lookup-none : (q : FilePath) (s : Tarfs × Heap) → view q s ≡ none → lookup q s.0.entries ≡ none
unfolding view shape_at
lookup-none q (t, h) unseen = go (lookup q t.entries) unseen
  where
    go : (o : Option ℕ) → shape_at h o ≡ none → o ≡ none
    go none e = refl
    go (some a) e = cc

Bool-or : (b : Bool) → (b || true) ≡ true
Bool-or true = refl
Bool-or false = refl

-- The directory of what lies above a name lies above it too, or is "." or "/".
above_parts-dir :
    (q : FilePath) (r : Bool) (ps : List String)
    → above_parts q r ps ≡ true
    → (dir q ≡ q) ⊎ (above_parts (dir q) r ps ≡ true)
unfolding above_parts dir tail
above_parts-dir q r [] up = cc
above_parts-dir q r (x ∷ []) up = inl (ground (arith, path_eq_iff q (file_path r [])))
above_parts-dir q r (x ∷ y ∷ ps) up = elim (Bool-cases (path_eq q (file_path r (y ∷ ps)))) [
  | inl same ↦
      let parent : dir q ≡ file_path r ps =
        ap dir ((path_eq_iff q (file_path r (y ∷ ps))).0 same) in
      inr (ground (arith, path_eq_iff (dir q) (file_path r ps), parent))
  | inr other ↦ elim (above_parts-dir q r (y ∷ ps) (rw other at up)) [
    | inl stays ↦ inl stays
    | inr higher ↦ inr (rw higher (Bool-or (path_eq (dir q) (file_path r (y ∷ ps)))))
  ]
]

-- The directory of a name: it is the name, it is ".", or it lies above.
dir-above : (p : FilePath) → (dir p ≡ p) ⊎ (is_here (dir p) ≡ true) ⊎ (above (dir p) p ≡ true)
unfolding above above_parts dir tail
dir-above p = go p.rooted p.parts
  where
    go :
        (r : Bool) (ps : List String)
        → (file_path r (tail ps) ≡ file_path r ps)
          ⊎ (is_here (file_path r (tail ps)) ≡ true)
          ⊎ ((above_parts (file_path r (tail ps)) r ps && not (is_here (file_path r (tail ps))))
              ≡ true)
    go r [] = inl refl
    go r (x ∷ ps) = elim (Bool-cases (is_here (file_path r ps))) [
      | inl top ↦ inr (inl top)
      | inr deep ↦ inr (inr (ground (arith, path_eq_iff (file_path r ps) (file_path r ps))))
    ]

above-dir :
    (q p : FilePath)
    → above q p ≡ true
    → (dir q ≡ q) ⊎ (is_here (dir q) ≡ true) ⊎ (above (dir q) p ≡ true)
unfolding above
above-dir q p way = elim (above_parts-dir q p.rooted p.parts (ground arith)) [
  | inl stays ↦ inl stays
  | inr higher ↦ elim (Bool-cases (is_here (dir q))) [
    | inl top ↦ inr (inl top)
    | inr deep ↦ inr (inr (rw (higher, deep) refl))
  ]
]

some-if : (b : Bool) (v w : DirEntry) → (x : DirEntry) × ((if b then some v else some w) ≡ some x)
some-if true v w = (v, refl)
some-if false v w = (w, refl)

module _ (p : FilePath) (e : ℕ) (s s' : Tarfs × Heap) (added : Added p e s s') where
  -- what was there, what lies above the name, and the name itself are there
  still : (q : FilePath) (v : DirEntry) → view q s ≡ some v → (w : DirEntry) × (view q s' ≡ some w)
  unfolding put
  still q v seen = rw (added.views q, seen) (some-if (path_eq q p) (shape (s.1.cell e)) v)

  on_the_way : (q : FilePath) → above q p ≡ true → (w : DirEntry) × (view q s' ≡ some w)
  unfolding put
  on_the_way q way = elim (Option-cases (view q s)) [
    | inl unseen ↦
        rw (added.views q, unseen, way) (some-if (path_eq q p) (shape (s.1.cell e)) (implied q))
    | inr (v, seen) ↦ still q v seen
  ]

  itself : view p s' ≡ some (shape (s.1.cell e))
  unfolding put
  itself = added.views p ∙ ground (arith, path_eq_iff p p)

  -- where a name comes from
  origin :
      (q : FilePath) (w : DirEntry)
      → view q s' ≡ some w
      → (q ≡ p) ⊎ (above q p ≡ true) ⊎ ((v : DirEntry) × (view q s ≡ some v))
  unfolding put
  origin q w seen = go (Option-cases (view q s))
    where
      go :
          (view q s ≡ none) ⊎ ((v : DirEntry) × (view q s ≡ some v))
          → (q ≡ p) ⊎ (above q p ≡ true) ⊎ ((v : DirEntry) × (view q s ≡ some v))
      go (inr old) = inr (inr old)
      go (inl unseen) = elim (Bool-cases (path_eq q p)) [
        | inl same ↦ inl ((path_eq_iff q p).0 same)
        | inr other ↦ elim (Bool-cases (above q p)) [
          | inl way ↦ inr (inl way)
          | inr off ↦ absurd (ground (arith, added.views q))
        ]
      ]

  -- the directory of each of them is there, or is "."
  dir_there :
      (q : FilePath)
      → ((n : ℕ) → IsClosed n s.0)
      → (w : DirEntry) → view q s' ≡ some w
      → (is_here (dir q) ≡ true) ⊎ ((v : DirEntry) × (view (dir q) s' ≡ some v))
  dir_there q c w seen = elim (origin q w seen) [
    | inl same ↦ rw same (elim (dir-above p) [
      | inl stays ↦ inr (shape (s.1.cell e), rw stays itself)
      | inr (inl top) ↦ inl top
      | inr (inr way) ↦ inr (on_the_way (dir p) way)
    ])
    | inr (inl way) ↦ elim (above-dir q p way) [
      | inl stays ↦ inr (w, rw stays seen)
      | inr (inl top) ↦ inl top
      | inr (inr higher) ↦ inr (on_the_way (dir q) higher)
    ]
    | inr (inr (v, old)) ↦
        let a = lookup-some q v s old in
        elim ((c (suc (length q.parts))).closed q (omega arith)) [
          | inl out ↦ absurd (ground (arith, a.1))
          | inr (inl top) ↦ inl top
          | inr (inr (b, there)) ↦
              let u = view-some (dir q) b s there in inr (still (dir q) u.0 u.1)
        ]
  ]

  -- So the closedness goes on.
  pub append-IsClosed : ((n : ℕ) → IsClosed n s.0) → (n : ℕ) → IsClosed n s'.0
  append-IsClosed c n = record { closed = λ q short. go q (Option-cases (view q s')) }
    where
      go :
          (q : FilePath)
          → (view q s' ≡ none) ⊎ ((v : DirEntry) × (view q s' ≡ some v))
          → (lookup q s'.0.entries ≡ none)
            ⊎ (is_here (dir q) ≡ true)
            ⊎ ((a : ℕ) × (lookup (dir q) s'.0.entries ≡ some a))
      go q (inl unseen) = inl (lookup-none q s' unseen)
      go q (inr (w, seen)) = elim (dir_there q c w seen) [
        | inl top ↦ inr (inl top)
        | inr (v, there) ↦ inr (inr (lookup-some (dir q) v s' there))
      ]
