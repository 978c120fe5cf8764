-- ===== src/Css/Parents/Nearest.antt =====
-- The search for an existing parent ends, and finds the nearest one.
use user_managed_access.Prelude.{
  String, some, true, false, ◌≡◌, ◌<◌, refl, sym, subst, ◌∙◌, ap, or_else, ℕ, zero, suc, arith,
  Bool-cases, inl, inr,
}
use user_managed_access.Http.{Outcome, ok, fail, internal_server_error}
use user_managed_access.Css.Parents.{Identifiers, find_parent, find_first_existing_parent}

module _ (env : Identifiers) where
  -- The answer for an identifier: itself where it exists, an error at a root that does not, and else
  -- the answer for its parent.
  pub data IsNearest : String → Outcome String → Type 0 where
    exists : (id : String) → env.has_resource id ≡ true → IsNearest id (ok id)
    rootless :
        (id : String)
        → env.has_resource id ≡ false
        → env.is_root id ≡ true
        → IsNearest id (fail internal_server_error)
    above :
        (id : String) (r : Outcome String)
        → env.has_resource id ≡ false
        → env.is_root id ≡ false
        → IsNearest (env.parent id) r
        → IsNearest id r

  IsNearest-unique :
      (id : String) (r r' : Outcome String) → IsNearest id r → IsNearest id r' → r ≡ r'
  IsNearest-unique id _ _ (exists _ h) (exists _ k) = refl
  IsNearest-unique id _ _ (exists _ h) (rootless _ k m) = absurd (ground (arith, h, k))
  IsNearest-unique id _ r' (exists _ h) (above _ _ k m n) = absurd (ground (arith, h, k))
  IsNearest-unique id _ _ (rootless _ h i) (exists _ k) = absurd (ground (arith, h, k))
  IsNearest-unique id _ _ (rootless _ h i) (rootless _ k m) = refl
  IsNearest-unique id _ r' (rootless _ h i) (above _ _ k m n) = absurd (ground (arith, i, m))
  IsNearest-unique id r _ (above _ _ h i j) (exists _ k) = absurd (ground (arith, h, k))
  IsNearest-unique id r _ (above _ _ h i j) (rootless _ k m) = absurd (ground (arith, i, m))
  IsNearest-unique id r r' (above _ _ h i j) (above _ _ k m n) =
      IsNearest-unique (env.parent id) r r' j n

  find_parent_total :
      (n : ℕ) (id : String)
      → env.depth id < n
      → (r : Outcome String) × (find_parent env n id ≡ some r) × IsNearest id r
  unfolding find_parent
  find_parent_total zero id h = absurd (omega (arith, h))
  find_parent_total (suc n) id h = elim (Bool-cases (env.has_resource id)) [
    | inl there ↦ (ok id, rw (there, find_parent) refl, exists id there)
    | inr missing ↦ elim (Bool-cases (env.is_root id)) [
      | inl root ↦ (
        fail internal_server_error,
        rw (missing, root, find_parent) refl,
        rootless id missing root,
      )
      | inr inner ↦
          let (r, found, nearest) =
            find_parent_total n (env.parent id) (omega (arith, h, env.depth-parent id inner)) in
          (r, rw (missing, inner, find_parent) found, above id r missing inner nearest)
    ]
  ]

  -- The search for a parent that exists comes to an end: any fuel above the depth of the identifier gives
  -- the same answer, which is that of the nearest parent that exists, or an error where the root does not.
  pub find_first_existing_parent_total :
      (n : ℕ) (id : String)
      → env.depth id < n
      → (find_parent env n id ≡ some (find_first_existing_parent env id))
        × IsNearest id (find_first_existing_parent env id)
  unfolding find_first_existing_parent
  find_first_existing_parent_total n id h =
      let (r, found, nearest) = find_parent_total n id h in
      let (r', found', nearest') = find_parent_total (suc (env.depth id)) id (omega arith) in
      let same : r ≡ r' = IsNearest-unique id r r' nearest nearest' in
      (
        found
            ∙ ap (λ x. some x) same
            ∙ ap (λ o. some (or_else o (fail internal_server_error))) (sym found'),
        subst (IsNearest id) (ap (λ o. or_else o (fail internal_server_error)) (sym found'))
            nearest',
      )
