-- ===== src/Css/Scopes.antt =====
-- packages/css/src/uma/ScopeUtil.ts. The vocabulary of the modes is that of another package: what the
-- code relies on is that its terms are different texts that start with the namespace.
use user_managed_access.Prelude.{
  String, Option, some, [], ◌∷◌, map, Bool, true, ◌==◌, ◌≡◌, refl, if◌then◌else◌, get, Dict,
  starts_with, arith, eq_iff, Bool-cases, inl, inr, HasDistinctKeys, all, contains-keys,
}
use user_managed_access.Http.{Outcome, ok, fail, internal_server_error}

-- The namespace of `MODES`, of util/Vocabularies.ts.
abbrev pub modes_namespace : String
modes_namespace = "urn:example:css:modes:"

-- `PERMISSIONS`
pub record Permissions : Type 0 where
  pub namespace : String
  pub append : String
  pub create : String
  pub delete : String
  pub modify : String
  pub read : String

unfoldable pub mode_map : Permissions → Dict String
mode_map P =
    (P.append, "urn:example:css:modes:append")
    ∷ ((P.create, "urn:example:css:modes:create")
        ∷ ((P.delete, "urn:example:css:modes:delete")
            ∷ ((P.modify, "urn:example:css:modes:write")
                ∷ ((P.read, "urn:example:css:modes:read") ∷ []))))

unfoldable pub scope_map : Permissions → Dict String
unfolding mode_map
scope_map P = map (λ e. (e.1, e.0)) (mode_map P)

-- A mode that the object does not have gives `undefined`, which is `none`.
unfoldable pub to_uma_scope : Permissions → String → Outcome (Option String)
unfolding mode_map
to_uma_scope P mode =
    if starts_with mode P.namespace then ok (get (mode_map P) mode) else fail internal_server_error

unfoldable pub to_css_mode : Permissions → String → Outcome (Option String)
unfolding scope_map
to_css_mode P scope =
    if starts_with scope modes_namespace
    then ok (get (scope_map P) scope)
    else fail internal_server_error

pub record IsVocabulary (P : Permissions) : Type 0 where
  pub distinct : HasDistinctKeys (mode_map P)
  pub append_in : starts_with P.append P.namespace ≡ true
  pub create_in : starts_with P.create P.namespace ≡ true
  pub delete_in : starts_with P.delete P.namespace ≡ true
  pub modify_in : starts_with P.modify P.namespace ≡ true
  pub read_in : starts_with P.read P.namespace ≡ true

abbrev swap : Dict String → Dict String
swap = map (λ e. (e.1, e.0))

-- A dictionary whose values are distinct is read backwards by the swapped one.
get-swap :
    (d : Dict String) (k v : String)
    → HasDistinctKeys (swap d)
    → get d k ≡ some v
    → get (swap d) v ≡ some k
get-swap [] k v distinct h = cc
get-swap ((j, w) ∷ d) k v (new, distinct) h = elim (Bool-cases (j == k)) [
  | inl here ↦ ground (arith, h, here, eq_iff j k, eq_iff w v)
  | inr other ↦
      let later : get (swap d) v ≡ some k = get-swap d k v distinct (ground (arith, h, other)) in
      ground (arith, later, new, eq_iff w v, contains-keys (swap d) v)
]

all-get :
    (p : String × String → Bool) (d : Dict String) (k v : String)
    → all p d ≡ true
    → get d k ≡ some v
    → p (k, v) ≡ true
all-get p [] k v a h = cc
all-get p ((j, w) ∷ d) k v a h = ground (arith, a, h, eq_iff j k, all-get p d k v)

-- A mode that has a scope is the mode of that scope.
pub to_css_mode-to_uma_scope :
    (P : Permissions) (mode scope : String)
    → to_uma_scope P mode ≡ ok (some scope)
    → to_css_mode P scope ≡ ok (some mode)
unfolding to_uma_scope to_css_mode mode_map scope_map
to_css_mode-to_uma_scope P mode scope h =
    let there : get (mode_map P) mode ≡ some scope = ground (arith, h) in
    let inside =
      all-get (λ e. starts_with e.1 modes_namespace) (mode_map P) mode scope refl there in
    ground (
      arith,
      inside,
      get-swap (mode_map P) mode scope (refl, (refl, (refl, (refl, (refl, tt))))) there,
    )

-- A scope that has a mode is the scope of that mode.
pub to_uma_scope-to_css_mode :
    (P : Permissions) (mode scope : String)
    → IsVocabulary P
    → to_css_mode P scope ≡ ok (some mode)
    → to_uma_scope P mode ≡ ok (some scope)
unfolding to_uma_scope to_css_mode mode_map scope_map
to_uma_scope-to_css_mode P mode scope v h =
    let there : get (scope_map P) scope ≡ some mode = ground (arith, h) in
    let inside =
      all-get (λ e. starts_with e.1 P.namespace) (scope_map P) scope mode
        (ground (arith, v.append_in, v.create_in, v.delete_in, v.modify_in, v.read_in)) there in
    ground (arith, inside, get-swap (scope_map P) scope mode v.distinct there)
