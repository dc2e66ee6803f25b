-- ===== src/Defaults/Extension.antt =====
-- Defaults never replace what is set.
use mathlib.Core.Path.{subst}
use core_provider.Base.{
  ℕ, zero, suc, String, List, [], ◌∷◌, Option, none, some, Bool, true, false, ◌&&◌, ◌≡◌, refl, sym,
  ◌∙◌, arith, str_eq, eq_iff, if◌then◌else◌, Bool-cases, Option-cases, inl, inr,
}
use core_provider.Base.Result.{Result, ok, err, Result-split}
use core_provider.Defaults.{
  Json, object, array, float, int, string, boolean, null, Members, no_members, member, Schema,
  schema, Properties, no_properties, property, ItemSchema, value_at, set_value, has_properties,
  as_integer, add_nested, apply_default, array_of, apply_set, apply_missing, apply_property,
  apply_defaults, replicate,
}

-- the value at the end of a path of keys
unfoldable pub value_on : List String → Json → Option Json
value_on [] v = some v
value_on (k ∷ path) (object m) = elim (value_at k m) [ none ↦ none | some v ↦ value_on path v ]
value_on (k ∷ path) _ = none

abbrev pub is_object : Json → Bool
is_object (object m) = true
is_object _ = false

-- The values of the first that are no objects are in the second, on the same paths.
abbrev Kept : Json → Json → Type 0
Kept a b =
    (path : List String) (v : Json)
    → value_on path a ≡ some v
    → is_object v ≡ false
    → value_on path b ≡ some v

pub value_at-set_value :
    (k n : String) (w : Json) (m : Members)
    → value_at k (set_value n w m) ≡ (if str_eq n k then some w else value_at k m)
unfolding value_at set_value
value_at-set_value k n w no_members = refl
value_at-set_value k n w (member j u m) =
    ground (arith, value_at-set_value k n w m, eq_iff j n, eq_iff j k, eq_iff n k)

value_on-some :
    (k : String) (path : List String) (m : Members) (u : Json)
    → value_at k m ≡ some u
    → value_on (k ∷ path) (object m) ≡ value_on path u
unfolding value_on
value_on-some k path m u e = rw (e, value_on)

-- A value of an object may be replaced by one that keeps what it has.
Kept-set :
    (n : String) (w : Json) (m : Members)
    → ((u : Json) → value_at n m ≡ some u → Kept u w)
    → Kept (object m) (object (set_value n w m))
unfolding value_on
Kept-set n w m old [] v h leaf = ground arith
Kept-set n w m old (k ∷ path) v h leaf = elim (Option-cases (value_at k m)) [
  | inl missing ↦ ground arith
  | inr (u, there) ↦
      let h' : value_on path u ≡ some v = sym (value_on-some k path m u there) ∙ h in
      elim (Bool-cases (str_eq n k)) [
        | inl here ↦
            value_on-some k path (set_value n w m) w (ground (arith, value_at-set_value k n w m))
            ∙ old u (ground (arith, eq_iff n k)) path v h' leaf
        | inr other ↦
            value_on-some k path (set_value n w m) u (ground (arith, value_at-set_value k n w m))
            ∙ h'
      ]
]

Kept-set_new :
    (n : String) (w : Json) (m : Members)
    → value_at n m ≡ none
    → Kept (object m) (object (set_value n w m))
Kept-set_new n w m missing = Kept-set n w m (λ u e. absurd (apart (sym missing ∙ e)))
  where
    apart : {u : Json} → ◌≡◌ {A = Option Json} none (some u) → ⊥
    apart q = cc

Kept-same : (m m' : Members) → m ≡ m' → Kept (object m) (object m')
Kept-same m m' e = subst (λ (x : Members). Kept (object m) (object x)) e (λ path v h leaf. h)

Kept-made :
    (n : String) (w : Json) (m m' : Members)
    → value_at n m ≡ none
    → set_value n w m ≡ m'
    → Kept (object m) (object m')
Kept-made n w m m' missing e =
    subst (λ (x : Members). Kept (object m) (object x)) e (Kept-set_new n w m missing)

Kept-add_nested :
    (n : String) (sub m : Members)
    → value_at n m ≡ none
    → Kept (object m) (object (add_nested n sub m))
Kept-add_nested n no_members m missing = Kept-same m m refl
Kept-add_nested n (member k u sub) m missing = Kept-set_new n (object (member k u sub)) m missing

module _ (unmarshal : String → Result Json) (truncate : String → String) where
  apply_default-Kept :
      (n type raw : String) (m m' : Members)
      → value_at n m ≡ none
      → apply_default unmarshal truncate n type raw m ≡ ok m'
      → Kept (object m) (object m')
  unfolding apply_default
  apply_default-Kept n type raw m m' missing h = elim (Result-split (unmarshal raw)) [
    | inl (v, e) ↦ Kept-made n (as_integer unmarshal truncate type v) m m' missing (ground arith)
    | inr (x, e) ↦ ground arith
  ]

  array_of-Kept :
      (n : String) (items : Option ItemSchema) (min : Option ℕ) (m m' : Members)
      → value_at n m ≡ none
      → array_of unmarshal truncate n items min m ≡ ok m'
      → Kept (object m) (object m')
  unfolding array_of
  array_of-Kept n none min m m' missing h = Kept-same m m' (ground arith)
  array_of-Kept n (some item) none m m' missing h = Kept-same m m' (ground arith)
  array_of-Kept n (some item) (some zero) m m' missing h = Kept-same m m' (ground arith)
  array_of-Kept n (some item) (some (suc k)) m m' missing h = elim (Option-cases item.fallback) [
    | inl e ↦ Kept-same m m' (ground arith)
    | inr (raw, e) ↦ elim (Result-split (unmarshal raw)) [
      | inl (v, q) ↦
          Kept-made n (array (replicate (suc k) (as_integer unmarshal truncate item.type v))) m m'
            missing (ground arith)
      | inr (x, q) ↦ ground arith
    ]
  ]

  apply_set-Kept :
      (n : String) (u : Json) (nested : Members → Result Members) (m m' : Members)
      → value_at n m ≡ some u
      → ((a b : Members) → nested a ≡ ok b → Kept (object a) (object b))
      → apply_set unmarshal truncate n u nested m ≡ ok m'
      → Kept (object m) (object m')
  apply_set-Kept n (object sub) nested m m' there ih h = elim (Result-split (nested sub)) [
    | inl (sub', e) ↦
        subst (λ (x : Members). Kept (object m) (object x)) (ground arith)
          (Kept-set n (object sub') m
            (λ u q. subst (λ (x : Json). Kept x (object sub')) (ground arith) (ih sub sub' e)))
    | inr (x, e) ↦ ground arith
  ]
  apply_set-Kept n (array es) nested m m' there ih h = Kept-same m m' (ground arith)
  apply_set-Kept n (float x) nested m m' there ih h = Kept-same m m' (ground arith)
  apply_set-Kept n (int x) nested m m' there ih h = Kept-same m m' (ground arith)
  apply_set-Kept n (string x) nested m m' there ih h = Kept-same m m' (ground arith)
  apply_set-Kept n (boolean x) nested m m' there ih h = Kept-same m m' (ground arith)
  apply_set-Kept n null nested m m' there ih h = Kept-same m m' (ground arith)

  apply_missing-Kept :
      (n type : String) (is_obj : Bool) (nested : Result Members) (items : Option ItemSchema)
      (min : Option ℕ) (m m' : Members)
      → value_at n m ≡ none
      → apply_missing unmarshal truncate n type is_obj nested items min m ≡ ok m'
      → Kept (object m) (object m')
  apply_missing-Kept n type true (ok sub) items min m m' missing h =
      subst (λ (x : Members). Kept (object m) (object x)) (ground arith)
        (Kept-add_nested n sub m missing)
  apply_missing-Kept n type true (err e) items min m m' missing h = ground arith
  apply_missing-Kept n type false nested items min m m' missing h =
      elim (Bool-cases (str_eq type "array")) [
        | inl yes_array ↦ array_of-Kept n items min m m' missing (ground arith)
        | inr other ↦ Kept-same m m' (ground arith)
      ]

  mutual
    unfolding apply_property apply_defaults

    apply_property-Kept :
        (n : String) (s : Schema) (m m' : Members)
        → apply_property unmarshal truncate n s m ≡ ok m'
        → Kept (object m) (object m')
    apply_property-Kept n (schema type fallback ps items min) m m' h =
        elim (Option-cases (value_at n m)) [
          | inr (u, there) ↦ elim (Bool-cases (str_eq type "object" && has_properties ps)) [
            | inl nests ↦
                apply_set-Kept n u (λ (sub : Members). apply_defaults unmarshal truncate ps sub) m
                  m' there (λ a b e. apply_defaults-Kept ps a b e) (ground arith)
            | inr flat ↦ Kept-same m m' (ground arith)
          ]
          | inl missing ↦ elim (Option-cases fallback) [
            | inr (raw, q) ↦ apply_default-Kept n type raw m m' missing (ground arith)
            | inl q ↦
                apply_missing-Kept n type (str_eq type "object" && has_properties ps)
                  (apply_defaults unmarshal truncate ps no_members) items min m m' missing
                  (ground arith)
          ]
        ]

    apply_defaults-Kept :
        (ps : Properties) (m m' : Members)
        → apply_defaults unmarshal truncate ps m ≡ ok m'
        → Kept (object m) (object m')
    apply_defaults-Kept no_properties m m' h = Kept-same m m' (ground arith)
    apply_defaults-Kept (property n s ps) m m' h =
        elim (Result-split (apply_property unmarshal truncate n s m)) [
          | inl (x, e) ↦ λ path v q leaf.
              apply_defaults-Kept ps x m' (ground arith) path v
                (apply_property-Kept n s m x e path v q leaf) leaf
          | inr (x, e) ↦ ground arith
        ]

  -- Defaults never replace what is set: a value on a path of keys that is not an object is there,
  -- unchanged, after the defaults of a schema have been applied.
  pub apply_defaults-keeps :
      (ps : Properties) (m m' : Members) (path : List String) (v : Json)
      → apply_defaults unmarshal truncate ps m ≡ ok m'
      → value_on path (object m) ≡ some v
      → is_object v ≡ false
      → value_on path (object m') ≡ some v
  apply_defaults-keeps ps m m' path v h = apply_defaults-Kept ps m m' h path v
