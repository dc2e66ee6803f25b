-- ===== src/Tgzfs/Roots.antt =====
-- internal/tools/tgzfs/fs.go, the entries at the root: what New lists there when every member of an
-- archive lies below one directory, as in the package of a chart.
pub mod Package
use native.Mathlib.Nat.{zero-add}
use core_provider.Base.{
  ℕ, suc, ◌+◌, ◌≤◌, ◌<◌, String, List, [], ◌∷◌, ◌++◌, Bool, true, false, not, ◌&&◌, ◌||◌, Option,
  none, some, ◌≡◌, refl, sym, ◌∙◌, ◌⊎◌, inl, inr, ap, Bool-cases, Option-cases, arith,
  if◌then◌else◌, length,
}
use core_provider.Tgzfs.Paths.{FilePath, file_path, dir, tail, base, is_here, path_eq, path_eq_iff}
use core_provider.Tgzfs.Nodes.{
  DirEntry, entry, fake_dir_entry, children, with_children, Heap, write, allocate, append_child,
  lookup, insert, lookup-insert,
}
use core_provider.Tgzfs.{Tarfs, append_with, append_parts, append}
use core_provider.Tgzfs.Build.{
  shape, shape_at, view, above_parts, above, implied, or_else, put, IsBound, IsClosed, Added,
}
use core_provider.Tgzfs.Build.Steps.{
  name_other, lookup-with_name, with_name-IsClosed, with_name, with_dir, closed-above,
}

-- the parts of a path that goes through the top directory `x`, at least one part below it
abbrev pub Under : String → List String → Type 0
Under x [] = ⊥
Under x (y ∷ []) = ⊥
Under x (y ∷ z ∷ []) = z ≡ x
Under x (y ∷ z ∷ w ∷ ps) = Under x (z ∷ w ∷ ps)

abbrev pub top : String → FilePath
top x = file_path false (x ∷ [])

Bool-or : (b : Bool) → (b || true) ≡ true
Bool-or true = refl
Bool-or false = refl

-- append leaves the entry of the root alone
pub append_parts-root_entry :
    (r : Bool) (ps : List String) (e : ℕ) (t : Tarfs) (h : Heap)
    → (append_parts r ps e (t, h)).0.root_entry ≡ t.root_entry
unfolding append_parts append_with
append_parts-root_entry r [] e t h = ground arith
append_parts-root_entry r (x ∷ ps) e t h =
    elim (Bool-cases (is_here (dir (file_path r (x ∷ ps))))) [
      | inl here ↦ rw here refl
      | inr deep ↦
          rw deep
            (elim (Option-cases
              (lookup (dir (file_path r (x ∷ ps))) (insert (file_path r (x ∷ ps)) e t.entries))) [
                | inr (a, found) ↦ rw found refl
                | inl absent ↦ rw absent (append_parts-root_entry r ps h.next _ _)
              ])
    ]

module _ (x : String) where
  -- with the directory in the map, it stays, and nothing is added at the root
  roots-known :
      (y z : String) (ps : List String) (e a : ℕ) (t : Tarfs) (h : Heap)
      → Under x (y ∷ z ∷ ps)
      → lookup (top x) t.entries ≡ some a
      → ((append_parts false (y ∷ z ∷ ps) e (t, h)).0.root_entries ≡ t.root_entries)
        × (lookup (top x) (append_parts false (y ∷ z ∷ ps) e (t, h)).0.entries ≡ some a)
  unfolding append_parts append_with dir tail is_here
  roots-known y z [] e a t h u there =
      let found : lookup (file_path false (z ∷ [])) t.entries ≡ some a = rw u there in
      rw (lookup-with_name false y (z ∷ []) e t h (file_path false (z ∷ [])) (omega arith), found)
        (refl, lookup-with_name false y (z ∷ []) e t h (top x) (omega arith) ∙ there)
  roots-known y z (w ∷ ps) e a t h u there =
      let still = lookup-with_name false y (z ∷ w ∷ ps) e t h (top x) (omega arith) ∙ there in
      rw (lookup-with_name false y (z ∷ w ∷ ps) e t h (file_path false (z ∷ w ∷ ps)) (omega arith))
        (elim (Option-cases (lookup (file_path false (z ∷ w ∷ ps)) t.entries)) [
          | inr (b, found) ↦ rw found (refl, still)
          | inl absent ↦ rw absent (
              roots-known z w ps h.next a (with_name false y (z ∷ w ∷ ps) e t h)
                (with_dir false y (z ∷ w ∷ ps) e t h) u still)
        ])

  -- below the top directory lies every name under it
  Under-above :
      (y z : String) (ps : List String)
      → Under x (y ∷ z ∷ ps)
      → above_parts (top x) false (y ∷ z ∷ ps) ≡ true
  unfolding above_parts
  Under-above y z [] u = ground (arith, path_eq_iff (top x) (file_path false (z ∷ [])))
  Under-above y z (w ∷ ps) u = rw (Under-above z w ps u) (Bool-or _)

  -- without it, it is made, and is the one new entry at the root
  record Made (t : Tarfs) (s : Tarfs × Heap) : Type 0 where
    address : ℕ
    roots : s.0.root_entries ≡ t.root_entries ++ address ∷ []
    there : lookup (top x) s.0.entries ≡ some address

  Under-tail :
      (y z : String) (ps : List String)
      → Under x (y ∷ z ∷ ps)
      → (z ∷ ps ≡ x ∷ []) ⊎ Under x (z ∷ ps)
  Under-tail y z [] u = inl (rw u refl)
  Under-tail y z (w ∷ ps) u = inr u

  -- where the top directory is not in the map, none of the directories below it is
  absent-below :
      (z : String) (ps : List String) (t : Tarfs) (b : ℕ)
      → (z ∷ ps ≡ x ∷ []) ⊎ Under x (z ∷ ps)
      → IsClosed (suc (length (z ∷ ps))) t
      → lookup (top x) t.entries ≡ none
      → lookup (file_path false (z ∷ ps)) t.entries ≡ some b
      → ⊥
  unfolding is_here
  absent-below z ps t b (inl same) c absent found =
      let e : file_path false (z ∷ ps) ≡ top x = ap (file_path false) same in ground (arith, e)
  absent-below z [] t b (inr u) c absent found = u
  absent-below z (w ∷ ps) t b (inr u) c absent found =
      let way =
        closed-above (top x) false (z ∷ w ∷ ps) t _ b c (omega arith) found (Under-above z w ps u)
          refl in
      ground (arith, way.1)

  roots-new :
      (y : String) (ps : List String) (e : ℕ) (t : Tarfs) (h : Heap)
      → (y ∷ ps ≡ x ∷ []) ⊎ Under x (y ∷ ps)
      → IsClosed (length (y ∷ ps)) t
      → lookup (top x) t.entries ≡ none
      → Made t (append_parts false (y ∷ ps) e (t, h))
  unfolding append_parts append_with dir tail is_here
  roots-new y [] e t h (inl same) c absent =
      let is_top : file_path false (y ∷ []) ≡ top x = ap (file_path false) same in
      record {
        address = e;
        roots = refl;
        there = ground (
          arith,
          is_top,
          lookup-insert (file_path false (y ∷ [])) (top x) e t.entries,
          path_eq_iff (top x) (file_path false (y ∷ [])),
        );
      }
  roots-new y [] e t h (inr u) c absent = absurd u
  roots-new y (z ∷ ps) e t h (inl same) c absent = cc
  roots-new y (z ∷ ps) e t h (inr u) c absent =
      rw (lookup-with_name false y (z ∷ ps) e t h (file_path false (z ∷ ps)) (omega arith))
        (elim (Option-cases (lookup (file_path false (z ∷ ps)) t.entries)) [
          | inr (b, found) ↦ absurd (absent-below z ps t b (Under-tail y z ps u) c absent found)
          | inl new ↦
              let made =
                roots-new z ps h.next (with_name false y (z ∷ ps) e t h)
                  (with_dir false y (z ∷ ps) e t h) (Under-tail y z ps u)
                  (with_name-IsClosed false y (z ∷ ps) e t h c)
                  (lookup-with_name false y (z ∷ ps) e t h (top x) (omega arith) ∙ absent) in
              rw new (record { address = made.address; roots = made.roots; there = made.there })
        ])

  -- The root holds nothing yet, or the top directory alone, which no member describes.
  pub record NoRoot (t : Tarfs) : Type 0 where
    pub roots : t.root_entries ≡ []
    pub absent : lookup (top x) t.entries ≡ none
    pub no_entry : t.root_entry ≡ none

  pub record OneRoot (s : Tarfs × Heap) : Type 0 where
    pub address : ℕ
    pub roots : s.0.root_entries ≡ address ∷ []
    pub there : lookup (top x) s.0.entries ≡ some address
    pub looks : shape (s.1.cell address) ≡ implied (top x)
    pub no_entry : s.0.root_entry ≡ none

  view-at :
      (a : ℕ) (v : DirEntry) (s : Tarfs × Heap)
      → lookup (top x) s.0.entries ≡ some a
      → view (top x) s ≡ some v
      → shape (s.1.cell a) ≡ v
  unfolding view shape_at
  view-at a v (t, h) there seen = ground arith

  view-of :
      (a : ℕ) (s : Tarfs × Heap)
      → lookup (top x) s.0.entries ≡ some a
      → view (top x) s ≡ some (shape (s.1.cell a))
  unfolding view shape_at
  view-of a (t, h) there = rw there refl

  unseen : (s : Tarfs × Heap) → lookup (top x) s.0.entries ≡ none → view (top x) s ≡ none
  unfolding view shape_at
  unseen (t, h) absent = rw absent refl

  Under-other :
      (y z : String) (ps : List String) → path_eq (top x) (file_path false (y ∷ z ∷ ps)) ≡ false
  Under-other y z ps = ground (arith, path_eq_iff (top x) (file_path false (y ∷ z ∷ ps)))

  module _ (y z : String) (ps : List String) (e : ℕ) (t : Tarfs) (h : Heap)
      (u : Under x (y ∷ z ∷ ps)) (s' : Tarfs × Heap)
      (added : Added (file_path false (y ∷ z ∷ ps)) e (t, h) s') where
    -- the top directory is made, or was there
    known_view :
        view (top x) (t, h) ≡ some (implied (top x)) → view (top x) s' ≡ some (implied (top x))
    unfolding put
    known_view old = added.views (top x) ∙ rw (old, Under-other y z ps) refl

    new_view : view (top x) (t, h) ≡ none → view (top x) s' ≡ some (implied (top x))
    unfolding put above is_here
    new_view new = added.views (top x) ∙ rw (new, Under-other y z ps, Under-above y z ps u) refl

-- A member under the top directory leaves one entry at the root, if there was none or this one.
module _ (x y z : String) (ps : List String) (e : ℕ) (t : Tarfs) (h : Heap)
    (u : Under x (y ∷ z ∷ ps))
    (added : Added
      (file_path false (y ∷ z ∷ ps))
      e
      (t, h)
      (append_parts false (y ∷ z ∷ ps) e (t, h))) where
  pub OneRoot-known : OneRoot x (t, h) → OneRoot x (append_parts false (y ∷ z ∷ ps) e (t, h))
  OneRoot-known one =
      let (same, still) = roots-known x y z ps e one.address t h u one.there in
      record {
        address = one.address;
        roots = same ∙ one.roots;
        there = still;
        looks = view-at x one.address _ _ still (
            known_view x y z ps e t h u _ added
              (view-of x one.address (t, h) one.there ∙ ap some one.looks));
        no_entry = append_parts-root_entry false (y ∷ z ∷ ps) e t h ∙ one.no_entry;
      }

  pub OneRoot-new :
      ((n : ℕ) → IsClosed n t) → NoRoot x t → OneRoot x (append_parts false (y ∷ z ∷ ps) e (t, h))
  OneRoot-new c none_yet =
      let made = roots-new x y (z ∷ ps) e t h (inr u) (c _) none_yet.absent in
      record {
        address = made.address;
        roots = made.roots ∙ ap (λ (xs : List ℕ). xs ++ made.address ∷ []) none_yet.roots;
        there = made.there;
        looks =
            view-at x made.address _ _ made.there
              (new_view x y z ps e t h u _ added (unseen x (t, h) none_yet.absent));
        no_entry = append_parts-root_entry false (y ∷ z ∷ ps) e t h ∙ none_yet.no_entry;
      }
