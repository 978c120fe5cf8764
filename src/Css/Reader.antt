-- ===== src/Css/Reader.antt =====
-- packages/css/src/authorization/UmaPermissionReader.ts. Times of a token are in seconds, `now` is in
-- milliseconds: `now / 1000` in the source. A time of 0 is no time there. An identifier map and the
-- object of a permission set are dictionaries.
use user_managed_access.Prelude.{
  String, Option, none, some, List, [], ◌∷◌, Bool, true, false, not, ◌==◌, ◌||◌, ◌≡◌, ◌⊎◌, inl, inr,
  refl, ◌∙◌, ap, if◌then◌else◌, get, put, get-put, Dict, starts_with, arith, eq_iff, Bool-cases,
  Any, contains, ℕ, ◌*◌, ltb, leb, nat_beq, or_else,
}
use user_managed_access.Http.{Outcome, ok, fail, Outcome-cases}
use user_managed_access.Css.Scopes.{
  Permissions, scope_map, modes_namespace, to_css_mode, to_uma_scope, IsVocabulary,
  to_uma_scope-to_css_mode,
}

-- `iat`, `exp` and `nbf`
pub record Times : Type 0 where
  pub iat : Option ℕ
  pub exp : Option ℕ
  pub nbf : Option ℕ

pub record UmaPermission : Type 0 where
  pub resource_id : String
  pub resource_scopes : List String
  pub times : Times

pub record UmaClaims : Type 0 where
  pub permissions : Option (List UmaPermission)
  pub times : Times

-- `t && test(t)`
abbrev pub at_time : Option ℕ → (ℕ → Bool) → Bool
at_time none test = false
at_time (some t) test = if nat_beq t 0 then false else test t

-- None of the three checks throws.
unfoldable pub is_valid_at : ℕ → Times → Bool
is_valid_at now times = not (
    at_time times.iat (λ t. leb now (t * 1000))
    || (at_time times.exp (λ t. leb (t * 1000) now) || at_time times.nbf (λ t. ltb now (t * 1000))))

-- `undefined` as a key of an object.
abbrev pub key : Option String → String
key mode = or_else mode "undefined"

module _ (P : Permissions) where
  -- One pair of the permission set. One of an unknown scope has neither key nor value.
  unfoldable pub mode_entry : Bool → String → Outcome (String × Option Bool)
  mode_entry valid scope =
      if starts_with scope modes_namespace
      then elim (to_css_mode P scope) [ fail e ↦ fail e | ok mode ↦ ok (key mode, some valid) ]
      else ok ("undefined", none)

  -- `Object.fromEntries`: a later pair replaces an earlier one with its key.
  unfoldable pub permission_set :
      Bool → List String → Dict (Option Bool) → Outcome (Dict (Option Bool))
  unfolding mode_entry
  permission_set valid [] set = ok set
  permission_set valid (scope ∷ rest) set = elim (mode_entry valid scope) [
    | fail e ↦ fail e
    | ok (mode, value) ↦ permission_set valid rest (put set mode value)
  ]

  unfoldable pub read_permissions :
      ℕ → List UmaPermission → Dict (Dict (Option Bool)) → Outcome (Dict (Dict (Option Bool)))
  unfolding permission_set is_valid_at
  read_permissions now [] result = ok result
  read_permissions now (p ∷ rest) result =
      elim (permission_set (is_valid_at now p.times) p.resource_scopes []) [
        | fail e ↦ fail e
        | ok set ↦ read_permissions now rest (put result p.resource_id set)
      ]

  -- `handle`; there may be no token.
  unfoldable pub read : ℕ → Option UmaClaims → Outcome (Dict (Dict (Option Bool)))
  unfolding is_valid_at read_permissions
  read now none = ok []
  read now (some rpt) =
      if is_valid_at now rpt.times
      then read_permissions now (or_else rpt.permissions []) []
      else ok []

-- What a permission map says of a mode on a resource.
abbrev pub allows : Dict (Dict (Option Bool)) → String → String → Option (Option Bool)
allows result id mode = elim (get result id) [ none ↦ none | some set ↦ get set mode ]

module _ (P : Permissions) (v : IsVocabulary P) where
  mode_entry-true :
      (valid : Bool) (scope mode : String)
      → mode_entry P valid scope ≡ ok (mode, some true)
      → (mode == "undefined") ≡ false
      → (valid ≡ true) × (to_uma_scope P mode ≡ ok (some scope))
  unfolding mode_entry
  mode_entry-true valid scope mode h named = elim (Bool-cases (starts_with scope modes_namespace)) [
    | inr unknown ↦ absurd (ground (arith, h, unknown, named))
    | inl inside ↦ elim (Outcome-cases (to_css_mode P scope)) [
      | inr (e, failed) ↦ absurd (ground (arith, h, inside, failed))
      | inl (none, undefined) ↦ absurd (
          ground
            (arith, h, inside, undefined, named, eq_iff "undefined" mode, eq_iff mode "undefined"))
      | inl (some m, found) ↦
          let same : m ≡ mode = ground (arith, h, inside, found) in
          (
            ground (arith, h, inside, found),
            to_uma_scope-to_css_mode P mode scope v (found ∙ ap (λ n. ok (some n)) same),
          )
    ]
  ]

  -- A set that allows a mode was allowed to do so before, or has a scope of the mode.
  permission_set-true :
      (valid : Bool) (scopes : List String) (set found : Dict (Option Bool)) (mode : String)
      → permission_set P valid scopes set ≡ ok found
      → get found mode ≡ some (some true)
      → (mode == "undefined") ≡ false
      → (get set mode ≡ some (some true))
        ⊎ ((valid ≡ true)
            × (scope : String) × (contains scopes scope ≡ true)
            × (to_uma_scope P mode ≡ ok (some scope)))
  unfolding permission_set
  permission_set-true valid [] set found mode h k named = inl (ground (arith, h, k))
  permission_set-true valid (x ∷ scopes) set found mode h k named =
      elim (Outcome-cases (mode_entry P valid x)) [
        | inr (e, failed) ↦ absurd (ground (arith, h, failed))
        | inl ((m, value), entered) ↦
            elim (permission_set-true valid scopes (put set m value) found mode
              (ground (arith, h, entered)) k named) [
                | inr (fine, scope, there, same) ↦ inr (fine, scope, ground (arith, there), same)
                | inl before ↦ elim (Bool-cases (m == mode)) [
                  | inr other ↦ inl (ground (arith, before, get-put set m mode value, other))
                  | inl here ↦
                      let (fine, same) =
                        mode_entry-true valid x mode
                          (ground
                            (arith, entered, before, get-put set m mode value, here, eq_iff m mode))
                          named in
                      inr (fine, x, ground (arith, eq_iff x x), same)
                ]
              ]
      ]

  -- Some permission of the list is for the resource, is valid now, and has the scope of the mode.
  abbrev pub IsGranted : ℕ → List UmaPermission → String → String → Type 0
  IsGranted now permissions id mode =
      Any
        (λ p.
          (p.resource_id ≡ id)
          × (is_valid_at now p.times ≡ true)
          × ((scope : String) × (contains p.resource_scopes scope ≡ true)
              × (to_uma_scope P mode ≡ ok (some scope))))
        permissions

  read_permissions-true :
      (now : ℕ) (permissions : List UmaPermission) (result found : Dict (Dict (Option Bool)))
      (id mode : String)
      → read_permissions P now permissions result ≡ ok found
      → allows found id mode ≡ some (some true)
      → (mode == "undefined") ≡ false
      → (allows result id mode ≡ some (some true)) ⊎ IsGranted now permissions id mode
  unfolding read_permissions
  read_permissions-true now [] result found id mode h k named = inl (ground (arith, h, k))
  read_permissions-true now (p ∷ permissions) result found id mode h k named =
      elim (Outcome-cases (permission_set P (is_valid_at now p.times) p.resource_scopes [])) [
        | inr (e, failed) ↦ absurd (ground (arith, h, failed))
        | inl (set, made) ↦
            elim (read_permissions-true now permissions (put result p.resource_id set) found id mode
              (ground (arith, h, made)) k named) [
                | inr later ↦ inr (inr later)
                | inl before ↦ elim (Bool-cases (p.resource_id == id)) [
                  | inr other ↦
                      inl (ground (arith, before, get-put result p.resource_id id set, other))
                  | inl here ↦
                      let inside : get set mode ≡ some (some true) =
                        ground (arith, before, get-put result p.resource_id id set, here) in
                      elim (permission_set-true (is_valid_at now p.times) p.resource_scopes [] set
                        mode made inside named) [
                          | inl nothing ↦ cc
                          | inr (fine, scope, there, same) ↦
                              inr
                                (inl ((eq_iff p.resource_id id).0 here, fine, (scope, there, same)))
                        ]
                ]
              ]
      ]

  -- A mode that the reader allows on a resource was granted by the token, while the token and the
  -- permission were valid: some permission for the resource has the scope of that mode.
  pub read_allows :
      (now : ℕ) (rpt : UmaClaims) (found : Dict (Dict (Option Bool))) (id mode : String)
      → read P now (some rpt) ≡ ok found
      → allows found id mode ≡ some (some true)
      → (mode == "undefined") ≡ false
      → (is_valid_at now rpt.times ≡ true) × IsGranted now (or_else rpt.permissions []) id mode
  unfolding read
  read_allows now rpt found id mode h k named = elim (Bool-cases (is_valid_at now rpt.times)) [
    | inr invalid ↦ absurd (ground (arith, h, k, invalid))
    | inl fine ↦
        elim (read_permissions-true now (or_else rpt.permissions []) [] found id mode
          (ground (arith, h, fine)) k named) [ inl nothing ↦ cc | inr granted ↦ (fine, granted) ]
  ]

module _ (P : Permissions) where
  mode_entry_total :
      (valid : Bool) (scope : String)
      → (e : String × Option Bool) × (mode_entry P valid scope ≡ ok e)
  unfolding mode_entry to_css_mode
  mode_entry_total valid scope = elim (Bool-cases (starts_with scope modes_namespace)) [
    | inl inside ↦ ((key (get (scope_map P) scope), some valid), rw (inside, mode_entry) refl)
    | inr unknown ↦ (("undefined", none), rw (unknown, mode_entry) refl)
  ]

  permission_set_total :
      (valid : Bool) (scopes : List String) (set : Dict (Option Bool))
      → (found : Dict (Option Bool)) × (permission_set P valid scopes set ≡ ok found)
  unfolding permission_set
  permission_set_total valid [] set = (set, refl)
  permission_set_total valid (x ∷ scopes) set =
      let ((mode, value), entered) = mode_entry_total valid x in
      let (found, made) = permission_set_total valid scopes (put set mode value) in
      (found, ground (arith, entered, made))

  read_permissions_total :
      (now : ℕ) (permissions : List UmaPermission) (result : Dict (Dict (Option Bool)))
      → (found : Dict (Dict (Option Bool))) × (read_permissions P now permissions result ≡ ok found)
  unfolding read_permissions
  read_permissions_total now [] result = (result, refl)
  read_permissions_total now (p ∷ permissions) result =
      let (set, made) = permission_set_total (is_valid_at now p.times) p.resource_scopes [] in
      let (found, rest) = read_permissions_total now permissions (put result p.resource_id set) in
      (found, ground (arith, made, rest))

  -- The reader never throws.
  pub read_total :
      (now : ℕ) (rpt : Option UmaClaims)
      → (found : Dict (Dict (Option Bool))) × (read P now rpt ≡ ok found)
  unfolding read
  read_total now none = ([], refl)
  read_total now (some rpt) = elim (Bool-cases (is_valid_at now rpt.times)) [
    | inr invalid ↦ ([], ground (arith, invalid))
    | inl fine ↦
        let (found, made) = read_permissions_total now (or_else rpt.permissions []) [] in
        (found, ground (arith, fine, made))
  ]
