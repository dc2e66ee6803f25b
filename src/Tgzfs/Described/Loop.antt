-- ===== src/Tgzfs/Described/Loop.antt =====
-- internal/tools/tgzfs/fs.go, the loop of New: what it leaves is what the members describe.
use core_provider.Base.{
  ℕ, ◌<◌, List, [], ◌∷◌, true, false, Option, none, some, ◌≡◌, refl, sym, ◌∙◌, inl, inr, Bool-cases,
  arith, length,
}
use core_provider.Tgzfs.Paths.{FilePath, is_here}
use core_provider.Tgzfs.Nodes.{DirEntry, entry, Heap, write, allocate, lookup}
use core_provider.Tgzfs.{Tarfs, append}
use core_provider.Base.Result.{Error, Result, ok, err}
use core_provider.Base.Exec.{◌>>=◌}
use core_provider.Tgzfs.Paths.{clean}
use core_provider.Tgzfs.Nodes.{Header}
use core_provider.Tgzfs.{Member, member, broken, empty, add_entry, add_member, add_members}
use core_provider.Tgzfs.Build.{shape, shape_at, view, put, IsBound, IsClosed, Added}
use core_provider.Tgzfs.Build.Append.{append_parts-Added}
use core_provider.Tgzfs.Build.Closed.{append-IsClosed}
use core_provider.Tgzfs.Described.{
  Listing, listed, contents, described_after, described-put, described-nil, described-cons,
}

-- What the loop of New keeps.
pub record IsBuilt (s : Tarfs × Heap) : Type 0 where
  pub bounds : IsBound s
  pub closed : (n : ℕ) → IsClosed n s.0

pub empty-IsBuilt : (h : Heap) → IsBuilt (empty, h)
unfolding lookup
empty-IsBuilt h = record {
  bounds = record { bound = λ q a there. cc };
  closed = λ n. record { closed = λ q short. inl refl };
}

-- a run of the loop: the file system it leaves, and what that holds
pub record Built (old : Tarfs × Heap) (ns : Listing) (outcome : Result Tarfs × Heap) : Type 0 where
  pub made : Tarfs
  pub returns : outcome.0 ≡ ok made
  pub built : IsBuilt (made, outcome.1)
  pub views : (q : FilePath) → view q (made, outcome.1) ≡ described_after (view q old) q ns

-- the same beside an error
unfoldable pub Outcome : Tarfs × Heap → Result Listing → Result Tarfs × Heap → Type 0
Outcome old (err e) outcome = outcome.0 ≡ err e
Outcome old (ok ns) outcome = Built old ns outcome

module _ (e : DirEntry) (t : Tarfs) (h : Heap) (b : IsBound (t, h)) where
  pub allocate-IsBound : IsBound (t, allocate e h)
  unfolding allocate
  allocate-IsBound = record { bound = λ q a there. omega (arith, b.bound q a there) }

  allocate-view : (q : FilePath) → view q (t, allocate e h) ≡ view q (t, h)
  unfolding view shape_at allocate write
  allocate-view q = go (lookup q t.entries) (b.bound q)
    where
      go :
          (o : Option ℕ)
          → ((a : ℕ) → o ≡ some a → a < h.next)
          → shape_at (allocate e h) o ≡ shape_at h o
      go none old = refl
      go (some a) old = ground (arith, old a refl)

pub add_entry-Built :
    (hdr : Header) (b : List ℕ) (t : Tarfs) (h : Heap)
    → IsBuilt (t, h)
    → Built (t, h) ((clean hdr.name, entry hdr b []) ∷ []) (add_entry hdr b t h)
unfolding add_entry append allocate write shape
add_entry-Built hdr b t h i = record {
  made = _;
  returns = refl;
  built = record {
    bounds = added.bounds;
    closed = append-IsClosed name h.next (t, allocate v h) _ added i.closed;
  };
  views = λ q.
      added.views q
      ∙ rw (allocate-view v t h i.bounds q) (
          sym (described-nil q (put name _ q (view q (t, h))))
          ∙ rw fresh (described-put q name v (view q (t, h)) []));
}
  where
    name : FilePath
    name = clean hdr.name

    v : DirEntry
    v = entry hdr b []

    fresh : shape ((allocate v h).cell h.next) ≡ v
    fresh = ground arith

    added : Added name h.next (t, allocate v h) (append name h.next (t, allocate v h))
    added =
        append_parts-Added name.rooted name.parts h.next t (allocate v h)
          (allocate-IsBound v t h i.bounds) (omega arith) (i.closed (length name.parts))

Built-cons :
    (old : Tarfs × Heap) (n : FilePath × DirEntry) (ns : Listing) (first : Result Tarfs × Heap)
    (one : Built old (n ∷ []) first) (last : Result Tarfs × Heap)
    → Built (one.made, first.1) ns last
    → Built old (n ∷ ns) last
Built-cons old n ns first one last rest = record {
  made = rest.made;
  returns = rest.returns;
  built = rest.built;
  views = λ q. rest.views q ∙ rw (one.views q) (described-cons q n (view q old) ns);
}

Outcome-cons :
    (old : Tarfs × Heap) (n : FilePath × DirEntry) (first : Result Tarfs × Heap)
    (one : Built old (n ∷ []) first) (rest : Result Listing) (last : Result Tarfs × Heap)
    → Outcome (one.made, first.1) rest last
    → Outcome old (elim rest [ err e ↦ err e | ok ns ↦ ok (n ∷ ns) ]) last
unfolding Outcome
Outcome-cons old n first one (err e) last h = h
Outcome-cons old n first one (ok ns) last h = Built-cons old n ns first one last h

module _ (hdr : Header) (t : Tarfs) (h : Heap) (ms : List Member) where
  -- a round of the loop, by what it does with the member
  pub here-round :
      (body : Result (List ℕ))
      → is_here (clean hdr.name) ≡ true
      → add_members (member hdr body ∷ ms) t h ≡ add_members ms t h
  unfolding add_members add_member ◌>>=◌
  here-round body here = rw here refl

  pub error-round :
      (e : Error)
      → is_here (clean hdr.name) ≡ false
      → add_members (member hdr (err e) ∷ ms) t h ≡ (err e, h)
  unfolding add_members add_member ◌>>=◌
  error-round e named = rw named refl

  pub entry-round :
      (b : List ℕ) (made : Tarfs)
      → is_here (clean hdr.name) ≡ false
      → (add_entry hdr b t h).0 ≡ ok made
      → add_members (member hdr (ok b) ∷ ms) t h ≡ add_members ms made (add_entry hdr b t h).1
  unfolding add_members add_member ◌>>=◌
  entry-round b made named returns = rw (named, returns) refl

-- the loop of New
pub add_members-Outcome :
    (ms : List Member) (t : Tarfs) (h : Heap)
    → IsBuilt (t, h)
    → Outcome (t, h) (contents ms) (add_members ms t h)
unfolding contents listed Outcome add_members
add_members-Outcome [] t h i = record {
  made = t;
  returns = refl;
  built = i;
  views = λ q. sym (described-nil q (view q (t, h)));
}
add_members-Outcome (broken e ∷ ms) t h i = refl
add_members-Outcome (member hdr (err e) ∷ ms) t h i = elim (Bool-cases (is_here (clean hdr.name))) [
  | inl here ↦ rw (here-round hdr t h ms (err e) here, here) (add_members-Outcome ms t h i)
  | inr named ↦ rw (error-round hdr t h ms e named, named) refl
]
add_members-Outcome (member hdr (ok b) ∷ ms) t h i = elim (Bool-cases (is_here (clean hdr.name))) [
  | inl here ↦ rw (here-round hdr t h ms (ok b) here, here) (add_members-Outcome ms t h i)
  | inr named ↦
      let one = add_entry-Built hdr b t h i in
      rw (entry-round hdr t h ms b one.made named one.returns, named)
        (Outcome-cons (t, h) (clean hdr.name, entry hdr b []) (add_entry hdr b t h) one
          (contents ms) (add_members ms one.made (add_entry hdr b t h).1)
          (add_members-Outcome ms one.made (add_entry hdr b t h).1 one.built))
]
