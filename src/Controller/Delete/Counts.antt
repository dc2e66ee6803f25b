-- ===== src/Controller/Delete/Counts.antt =====
-- The definitions of a kind or of a version, as Delete counts them.
use core_provider.Base.{
  ℕ, suc, List, [], ◌∷◌, Bool, ◌&&◌, ◌≡◌, refl, sym, ap, ◌∙◌, arith, length, str_eq, if◌then◌else◌,
}
use core_provider.Base.Result.{Error, ok, err}
use core_provider.Base.Exec.{pure, on_error, on_error-ok, >>=-ok, ◌>>=◌}
use core_provider.Schema.{GroupVersionKind}
use core_provider.Types.{CompositionDefinition}
use core_provider.Composition.{
  of_group_kind, of_group_version_kind, get_composition_definitions,
  get_composition_definitions_with_version,
}
use core_provider.Controller.{External}
use core_provider.Controller.Delete.{kind_of}

-- how many definitions of a list pass a test
abbrev pub number : (CompositionDefinition → Bool) → List CompositionDefinition → ℕ
number test [] = 0
number test (cd ∷ cds) = let rest = number test cds in if test cd then suc rest else rest

module _ {W A L : Type 0} (x : External W A L) where
  -- the status of a definition names a group and a kind, and also a version
  abbrev pub names_kind : GroupVersionKind → CompositionDefinition → Bool
  names_kind gvk cd =
      str_eq (x.parse_kind cd.status.api_version cd.status.kind).group gvk.group
      && str_eq (x.parse_kind cd.status.api_version cd.status.kind).kind gvk.kind

  abbrev pub names_version : GroupVersionKind → CompositionDefinition → Bool
  names_version gvk cd =
      str_eq (x.parse_kind cd.status.api_version cd.status.kind).version gvk.version
      && names_kind gvk cd

  length-of_group_version_kind :
      (gvk : GroupVersionKind) (cds : List CompositionDefinition)
      → length (of_group_version_kind (kind_of x) gvk cds) ≡ number (names_version gvk) cds
  unfolding of_group_version_kind
  length-of_group_version_kind gvk [] = refl
  length-of_group_version_kind gvk (cd ∷ cds) = ground (arith, length-of_group_version_kind gvk cds)

  length-of_group_kind :
      (gvk : GroupVersionKind) (cds : List CompositionDefinition)
      → length (of_group_kind (kind_of x) gvk.group gvk.kind cds) ≡ number (names_kind gvk) cds
  unfolding of_group_kind
  length-of_group_kind gvk [] = refl
  length-of_group_kind gvk (cd ∷ cds) = ground (arith, length-of_group_kind gvk cds)

  -- a filtered listing, of which the length is known
  listed-number :
      (chosen : List CompositionDefinition → List CompositionDefinition)
      (test : CompositionDefinition → Bool) (f : Error → Error) (w v : W)
      (cds : List CompositionDefinition)
      → ((all : List CompositionDefinition) → length (chosen all) ≡ number test all)
      → (do all ← on_error f x.list_definitions; pure (chosen all)) w ≡ (ok cds, v)
      → (all : List CompositionDefinition) × (x.list_definitions w ≡ (ok all, v))
        × (length cds ≡ number test all)
  listed-number chosen test f w v cds counts h =
      let (all, u, e, h1) = >>=-ok _ _ w cds v h in
      let found = on_error-ok _ _ w u all e in
      (
        all,
        ground arith,
        ap length (ap (λ o. elim o.0 [ ok l ↦ l | err m ↦ cds ]) (sym h1)) ∙ counts all,
      )

  pub definitions_with_version :
      (gvk : GroupVersionKind) (w v : W) (cds : List CompositionDefinition)
      → get_composition_definitions_with_version x.list_definitions (kind_of x) gvk w ≡ (ok cds, v)
      → (all : List CompositionDefinition) × (x.list_definitions w ≡ (ok all, v))
        × (length cds ≡ number (names_version gvk) all)
  unfolding get_composition_definitions_with_version
  definitions_with_version gvk w v cds h =
      listed-number (of_group_version_kind (kind_of x) gvk) (names_version gvk) _ w v cds
        (length-of_group_version_kind gvk) h

  pub definitions_of_kind :
      (gvk : GroupVersionKind) (w v : W) (cds : List CompositionDefinition)
      → get_composition_definitions x.list_definitions (kind_of x) gvk.group gvk.kind w
        ≡ (ok cds, v)
      → (all : List CompositionDefinition) × (x.list_definitions w ≡ (ok all, v))
        × (length cds ≡ number (names_kind gvk) all)
  unfolding get_composition_definitions
  definitions_of_kind gvk w v cds h =
      listed-number (of_group_kind (kind_of x) gvk.group gvk.kind) (names_kind gvk) _ w v cds
        (length-of_group_kind gvk) h
