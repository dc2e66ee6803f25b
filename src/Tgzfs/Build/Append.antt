-- ===== src/Tgzfs/Build/Append.antt =====
-- internal/tools/tgzfs/fs.go, append: all the calls for a name, down to a directory that is there.
use core_provider.Base.{
  ℕ, suc, ◌≤◌, ◌<◌, String, List, [], ◌∷◌, Bool, true, false, Option, none, some, ◌≡◌, refl, sym,
  ◌∙◌, inl, inr, ap, ap, Bool-cases, Option-cases, arith, if◌then◌else◌, length,
}
use core_provider.Tgzfs.Paths.{FilePath, file_path, dir, tail, is_here, path_eq, path_eq_iff}
use core_provider.Tgzfs.Nodes.{
  DirEntry, Heap, write, allocate, append_child, lookup, insert, lookup-insert,
}
use core_provider.Tgzfs.{Tarfs, append_with, append_parts}
use core_provider.Tgzfs.Build.{
  shape, shape_at, view, above_parts, above, implied, put, IsBound, IsClosed, Added,
}
use core_provider.Tgzfs.Build.Steps.{
  append_child-shape, append_child-view, name_other, lookup-with_name, with_name-IsClosed,
  with_dir-IsBound, with_dir-view, top-above, known-above, put-old, inserted, inserted-view,
  inserted-IsBound, with_name, with_dir,
}

module _ (p : FilePath) (e : ℕ) (t : Tarfs) (h : Heap) (b : IsBound (t, h)) (fresh : e < h.next)
    (nothing_new : (q : FilePath) → view q (t, h) ≡ none → above q p ≡ false) where
  known_views :
      (q : FilePath) → view q (inserted p e t h, h) ≡ put p (shape (h.cell e)) q (view q (t, h))
  known_views q =
      inserted-view p e t h q
      ∙ sym (put-old p e t h q (shape (h.cell e)) (view q (t, h)) (nothing_new q))

  -- the name is put there, and its parent, which is there, learns of it
  known-Added : (parent : ℕ) → Added p e (t, h) (inserted p e t h, append_child parent e h)
  unfolding append_child write
  known-Added parent = record {
    views = λ q. append_child-view q parent e (inserted p e t h) h ∙ known_views q;
    bounds = record { bound = (inserted-IsBound p e t h b fresh).bound };
    grows = omega arith;
    keeps = λ a old. append_child-shape parent e h a;
  }

  -- the name is put there, and is listed at the root
  root-Added :
      (roots : List ℕ) → Added p e (t, h) (record (inserted p e t h) { root_entries = roots }, h)
  unfolding view
  root-Added roots = record {
    views = λ q. known_views q;
    bounds = record { bound = (inserted-IsBound p e t h b fresh).bound };
    grows = omega arith;
    keeps = λ a old. refl;
  }

module _ (r : Bool) (x : String) (ps : List String) (e : ℕ) (t : Tarfs) (h : Heap)
    (b : IsBound (t, h)) (fresh : e < h.next) (s : Tarfs × Heap)
    (dir_added : Added (file_path r ps) h.next (with_name r x ps e t h, with_dir r x ps e t h) s)
    (top : is_here (file_path r ps) ≡ false)
    (absent : lookup (file_path r ps) t.entries ≡ none) where
  new_dir : shape ((with_dir r x ps e t h).cell h.next) ≡ implied (file_path r ps)
  unfolding allocate write shape
  new_dir = ground arith

  old_cell : (a : ℕ) → a < h.next → shape ((with_dir r x ps e t h).cell a) ≡ shape (h.cell a)
  unfolding allocate write
  old_cell a old = ground arith

  next_grows : (with_dir r x ps e t h).next ≡ suc h.next
  unfolding allocate
  next_grows = refl

  -- what is under the name's directory is new, and the rest lies above both
  put-put :
      (q : FilePath) (v : DirEntry) (old : Option DirEntry)
      → (path_eq q (file_path r ps) ≡ true → old ≡ none)
      → put
          (file_path r ps)
          (implied (file_path r ps))
          q
          (if path_eq q (file_path r (x ∷ ps)) then some v else old)
        ≡ put (file_path r (x ∷ ps)) v q old
  unfolding put above above_parts
  put-put q v old new = elim (Bool-cases (path_eq q (file_path r ps))) [
    | inl same ↦
        rw (new same, same, name_other r x ps e t h q (shorter q same))
          (ground (arith, path_eq_iff q (file_path r ps)))
    | inr other ↦ rw other (elim (Bool-cases (path_eq q (file_path r (x ∷ ps)))) [
      | inl itself ↦ rw itself refl
      | inr another ↦
          rw another (elim (Option-cases old) [ inl e ↦ rw e refl | inr (w, e) ↦ rw e refl ])
    ])
  ]
    where
      shorter : (q : FilePath) → path_eq q (file_path r ps) ≡ true → length q.parts ≤ length ps
      shorter q same =
          omega
            (arith, ap (λ (p : FilePath). length p.parts) ((path_eq_iff q (file_path r ps)).0 same))

  dir_views :
      (q : FilePath) → view q s ≡ put (file_path r (x ∷ ps)) (shape (h.cell e)) q (view q (t, h))
  unfolding view shape_at
  dir_views q =
      dir_added.views q
      ∙ rw (new_dir, with_dir-view r x ps e t h q b fresh)
          (put-put q (shape (h.cell e)) (view q (t, h))
            λ same. rw ((path_eq_iff q (file_path r ps)).0 same, absent) refl)

  -- the directory has been made, and learns of the name
  new_dir-Added : Added (file_path r (x ∷ ps)) e (t, h) (s.0, append_child h.next e s.1)
  unfolding append_child write
  new_dir-Added = record {
    views = λ q. append_child-view q h.next e s.0 s.1 ∙ dir_views q;
    bounds = record { bound = dir_added.bounds.bound };
    grows = omega (arith, dir_added.grows, next_grows);
    keeps = λ a old.
        append_child-shape h.next e s.1 a
        ∙ dir_added.keeps a (omega (arith, next_grows))
        ∙ old_cell a old;
  }

next-fresh :
    (r : Bool) (x : String) (ps : List String) (e : ℕ) (t : Tarfs) (h : Heap)
    → h.next < (with_dir r x ps e t h).next
unfolding allocate
next-fresh r x ps e t h = omega arith

itself : (p : FilePath) (e : ℕ) (t : Tarfs) → lookup p (insert p e t.entries) ≡ some e
itself p e t = ground (arith, lookup-insert p p e t.entries, path_eq_iff p p)

nothing-above : (r : Bool) (q : FilePath) → above q (file_path r []) ≡ false
unfolding above above_parts
nothing-above r q = refl

-- The whole of append, by the parts of the name.
pub append_parts-Added :
    (r : Bool) (ps : List String) (e : ℕ) (t : Tarfs) (h : Heap)
    → IsBound (t, h)
    → e < h.next
    → IsClosed (length ps) t
    → Added (file_path r ps) e (t, h) (append_parts r ps e (t, h))
unfolding append_parts append_with dir tail is_here
append_parts-Added true [] e t h b fresh c =
    rw found (known-Added (file_path true []) e t h b fresh (λ q _. nothing-above true q) e)
  where
    found : lookup (file_path true []) (insert (file_path true []) e t.entries) ≡ some e
    found = itself (file_path true []) e t
append_parts-Added false [] e t h b fresh c =
    root-Added (file_path false []) e t h b fresh (λ q _. nothing-above false q) _
append_parts-Added r (x ∷ ps) e t h b fresh c = elim (Bool-cases (is_here (file_path r ps))) [
  | inl top ↦
      rw top
        (root-Added (file_path r (x ∷ ps)) e t h b fresh (λ q _. top-above r x ps e t h q top) _)
  | inr deep ↦ rw deep (elim (Option-cases (lookup (file_path r ps) t.entries)) [
    | inl absent ↦ rw (lookup-with_name r x ps e t h (file_path r ps) (omega arith) ∙ absent) (
        new_dir-Added r x ps e t h b fresh _
          (append_parts-Added r ps h.next (with_name r x ps e t h) (with_dir r x ps e t h)
            (with_dir-IsBound r x ps e t h b fresh) (next-fresh r x ps e t h)
            (with_name-IsClosed r x ps e t h c))
          deep absent)
    | inr (a, there) ↦ rw (lookup-with_name r x ps e t h (file_path r ps) (omega arith) ∙ there) (
        known-Added (file_path r (x ∷ ps)) e t h b fresh
          (λ q unseen. known-above r x ps e t h q a c there unseen) a)
  ])
]
