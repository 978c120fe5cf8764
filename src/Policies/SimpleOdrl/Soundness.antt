-- ===== src/Policies/SimpleOdrl/Soundness.antt =====
-- What a scope that the authorizer grants by itself rests on: a permission rule that applies, and no
-- prohibition that does.
use user_managed_access.Prelude.{
  String, Option, none, some, List, [], ◌∷◌, Bool, true, false, ◌&&◌, ◌≡◌, ◌∙◌, ap, fun_ext, filter,
  any, arith, Option-cases, inl, inr,
}
use user_managed_access.Rdf.{Term, named, quad, contains_term, QuadStore}
use user_managed_access.Rdf.Lists.{
  term_eq_iff, term_eq_refl, contains-flat_map, contains-filter_terms,
}
use user_managed_access.Rdf.Patterns.{contains-get_subjects_has}
use user_managed_access.Rdf.Vocabulary.Odrl
use user_managed_access.Views.{ClaimSet}
use user_managed_access.Policies.SimpleOdrl.Constraints.{
  Clock, JsonPath, validate_constraints, validate_vc_constraints,
}
use user_managed_access.Policies.SimpleOdrl.Rules.{
  odrl_scope, matching_target, has_action, has_assignee, valid_rules, verdict, get_permissions,
}

is_true : Option Bool → Bool
is_true none = false
is_true (some b) = b

module _ (Q : QuadStore) (clock : Clock) (json : JsonPath) (policies : Q.State)
    (claims : ClaimSet) where
  meets_constraints : Term → Bool
  unfolding is_true
  meets_constraints rule =
      is_true (validate_constraints Q clock policies claims rule)
      && is_true (validate_vc_constraints Q json policies claims rule)

  contains-valid_rules :
      (rules valid : List Term) (r : Term)
      → valid_rules Q clock json policies claims rules ≡ some valid
      → contains_term valid r ≡ (contains_term rules r && meets_constraints r)
  unfolding valid_rules meets_constraints
  contains-valid_rules [] valid r h = ground arith
  contains-valid_rules (x ∷ rules) valid r h =
      elim (Option-cases (valid_rules Q clock json policies claims rules)) [
        | inl e ↦ ground (arith, e, h)
        | inr (more, e) ↦
            let ih = contains-valid_rules rules more r e in
            ground (arith, ih, e, h, term_eq_iff x r)
      ]

  verdict_grants :
      (scope s : String) (ss : List String) (valid : List Term)
      → verdict Q policies scope valid ≡ some (s ∷ ss)
      → (s ∷ ss ≡ scope ∷ [])
        × ((r : Term)
            → contains_term valid r ≡ true
            → (contains_term (Q.get_predicates policies none (some r)) Odrl.permission ≡ true)
              × (contains_term (Q.get_predicates policies none (some r)) Odrl.prohibition ≡ false))
  unfolding verdict
  verdict_grants scope s ss [] h = (ground arith, λ r e. cc)
  verdict_grants scope s ss (x ∷ valid) h =
      let (same, ih) = verdict_grants scope s ss valid (ground arith) in
      (same, λ r e. ground (arith, ih r, term_eq_iff x r))

-- The resource and the collections that it is part of.
abbrev pub assets : (Q : QuadStore) → Q.State → String → List Term
assets Q policies resource =
    named resource ∷ Q.get_objects policies (some (named resource)) (some Odrl.part_of)

contains-matching_target :
    (Q : QuadStore) (policies : Q.State) (resource : String) (r : Term)
    → contains_term (matching_target Q policies resource) r
      ≡ any (λ t. Q.has policies (quad r Odrl.target t)) (assets Q policies resource)
unfolding matching_target
contains-matching_target Q policies resource r =
    contains-flat_map (λ t. Q.get_subjects policies (some Odrl.target) (some t))
      (assets Q policies resource) r
    ∙ ap (λ f. any f (assets Q policies resource))
        (fun_ext λ t. contains-get_subjects_has Q policies Odrl.target t r)

module _ (Q : QuadStore) (clock : Clock) (json : JsonPath) (policies : Q.State) (claims : ClaimSet)
    (resource scope : String) where
  -- The rule is about the resource or a collection of it, its action is that of the scope, it is
  -- for everyone or for one of the claimed identities, and its constraints hold.
  pub record Applies (rule : Term) : Type 0 where
    pub targets :
        any (λ t. Q.has policies (quad rule Odrl.target t)) (assets Q policies resource) ≡ true
    pub acts : has_action Q policies (odrl_scope scope) rule ≡ true
    pub assigned : has_assignee Q policies claims rule ≡ true
    pub constrained : validate_constraints Q clock policies claims rule ≡ some true
    pub vc_constrained : validate_vc_constraints Q json policies claims rule ≡ some true

  abbrev assigned_rules : List Term
  assigned_rules =
      filter (has_assignee Q policies claims)
        (filter (has_action Q policies (odrl_scope scope)) (matching_target Q policies resource))

  contains-assigned_rules :
      (r : Term)
      → contains_term assigned_rules r ≡ (
          any (λ t. Q.has policies (quad r Odrl.target t)) (assets Q policies resource)
          && (has_action Q policies (odrl_scope scope) r && has_assignee Q policies claims r))
  contains-assigned_rules r = ground (
    arith,
    contains-filter_terms (has_assignee Q policies claims)
        (filter (has_action Q policies (odrl_scope scope)) (matching_target Q policies resource)) r,
    contains-filter_terms (has_action Q policies (odrl_scope scope))
        (matching_target Q policies resource) r,
    contains-matching_target Q policies resource r,
  )

  Applies-of_valid :
      (valid : List Term) (r : Term)
      → valid_rules Q clock json policies claims assigned_rules ≡ some valid
      → contains_term valid r ≡ true
      → Applies r
  unfolding meets_constraints
  Applies-of_valid valid r h e = ground (
    arith,
    contains-valid_rules Q clock json policies claims assigned_rules valid r h,
    contains-assigned_rules r,
    e,
  )

  valid_of_Applies :
      (valid : List Term) (r : Term)
      → valid_rules Q clock json policies claims assigned_rules ≡ some valid
      → Applies r
      → contains_term valid r ≡ true
  unfolding meets_constraints
  valid_of_Applies valid r h a = ground (
    arith,
    contains-valid_rules Q clock json policies claims assigned_rules valid r h,
    contains-assigned_rules r,
  )

  -- A grant comes from the verdict on the valid rules, of which there is one.
  granted_by_verdict :
      (s : String) (ss : List String)
      → get_permissions Q clock json policies claims resource scope ≡ some (s ∷ ss)
      → (v : Term) × (vs : List Term) × (valid_rules Q clock json policies claims assigned_rules
          ≡ some (v ∷ vs))
        × (verdict Q policies scope (v ∷ vs) ≡ some (s ∷ ss))
  unfolding get_permissions
  granted_by_verdict s ss h =
      elim (Option-cases (valid_rules Q clock json policies claims assigned_rules)) [
        | inl e ↦ absurd (ground (arith, h, e))
        | inr (valid, e) ↦ go valid e
      ]
    where
      go :
          (valid : List Term)
          → valid_rules Q clock json policies claims assigned_rules ≡ some valid
          → (v : Term) × (vs : List Term) × (valid_rules Q clock json policies claims assigned_rules
              ≡ some (v ∷ vs))
            × (verdict Q policies scope (v ∷ vs) ≡ some (s ∷ ss))
      go [] e = absurd (ground (arith, h, e))
      go (v ∷ vs) e = (v, vs, e, ground (arith, h, e))

  -- Where the authorizer decides by itself to grant, it grants just the scope that was asked for,
  -- some rule applies that a policy lists as a permission, and no rule that applies is listed as a
  -- prohibition.
  pub get_permissions_sound :
      (s : String) (ss : List String)
      → get_permissions Q clock json policies claims resource scope ≡ some (s ∷ ss)
      → (s ∷ ss ≡ scope ∷ [])
        × ((rule : Term) × Applies rule
            × (contains_term (Q.get_predicates policies none (some rule)) Odrl.permission ≡ true))
        × ((rule : Term)
            → Applies rule
            → contains_term (Q.get_predicates policies none (some rule)) Odrl.prohibition ≡ false)
  get_permissions_sound s ss h =
      let (v, vs, valid, decided) = granted_by_verdict s ss h in
      let (same, listed) =
        verdict_grants Q clock json policies claims scope s ss (v ∷ vs) decided in
      let here : contains_term (v ∷ vs) v ≡ true = ground (arith, term_eq_refl v) in
      (
        same,
        (v, Applies-of_valid (v ∷ vs) v valid here, (listed v here).0),
        λ rule a. (listed rule (valid_of_Applies (v ∷ vs) rule valid a)).1,
      )
