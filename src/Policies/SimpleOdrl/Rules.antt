-- ===== src/Policies/SimpleOdrl/Rules.antt =====
-- SimpleOdrlAuthorizer.ts: `getPermissions`, which decides one scope of one resource.
use user_managed_access.Prelude.{
  String, Option, none, some, List, [], ◌∷◌, ◌++◌, Bool, false, ◌==◌, ◌||◌, ◌&&◌, if◌then◌else◌,
  filter, any, is_empty, starts_with, get, or_else, Dict, flat_map,
}
use user_managed_access.Rdf.{Term, named, term_eq, quad, QuadStore}
use user_managed_access.Rdf.Vocabulary.Odrl
use user_managed_access.Views.{ClaimSet, Claim, text, claims_of, webid}
use user_managed_access.Policies.SimpleOdrl.Constraints.{
  Clock, JsonPath, validate_constraints, validate_vc_constraints,
}

abbrev pub anonymous : Term
anonymous = named "urn:solidlab:uma:id:anonymous"

-- `scopeCssToOdrl`
abbrev pub scope_css_to_odrl : Dict String
scope_css_to_odrl =
    ("urn:example:css:modes:read", "http://www.w3.org/ns/odrl/2/read")
    ∷ ("urn:example:css:modes:append", "http://www.w3.org/ns/odrl/2/append")
    ∷ ("urn:example:css:modes:create", "http://www.w3.org/ns/odrl/2/create")
    ∷ ("urn:example:css:modes:delete", "http://www.w3.org/ns/odrl/2/delete")
    ∷ ("urn:example:css:modes:write", "http://www.w3.org/ns/odrl/2/write")
    ∷ []

unfoldable pub odrl_scope : String → String
odrl_scope scope =
    if starts_with scope "urn:example:css:modes:"
    then or_else (get scope_css_to_odrl scope) scope
    else scope

unfoldable pub super_action : String → Option Term
super_action scope =
    if (scope == "http://www.w3.org/ns/odrl/2/append")
      || (scope == "http://www.w3.org/ns/odrl/2/write")
    then some Odrl.modify
    else none

module _ (Q : QuadStore) where
  unfoldable pub matching_target : Q.State → String → List Term
  matching_target policies resource =
      flat_map (λ target. Q.get_subjects policies (some Odrl.target) (some target))
        (named resource ∷ Q.get_objects policies (some (named resource)) (some Odrl.part_of))

  unfoldable pub has_action : Q.State → String → Term → Bool
  unfolding super_action
  has_action policies scope rule =
      Q.has policies (quad rule Odrl.action (named scope)) || elim (super_action scope) [
        | none ↦ false
        | some action ↦ Q.has policies (quad rule Odrl.action action)
      ]

  -- The identities of the users, with the party collections that they are part of.
  unfoldable pub user_assignees : Q.State → List Claim → List Term
  user_assignees policies [] = []
  user_assignees policies (text user ∷ rest) =
      named user
      ∷ (Q.get_objects policies (some (named user)) (some Odrl.part_of)
          ++ user_assignees policies rest)
  user_assignees policies (_ ∷ rest) = user_assignees policies rest

  unfoldable pub has_assignee : Q.State → ClaimSet → Term → Bool
  unfolding user_assignees
  has_assignee policies claims rule =
      let assignees = anonymous ∷ user_assignees policies (claims_of claims webid) in
      let rule_assignees = Q.get_objects policies (some rule) (some Odrl.assignee) in
      is_empty rule_assignees
      || any (λ rule_assignee. any (λ assignee. term_eq assignee rule_assignee) assignees)
          rule_assignees

  -- The loop over the predicates that lead to the valid rules.
  unfoldable pub verdict : Q.State → String → List Term → Option (List String)
  verdict policies scope [] = some (scope ∷ [])
  verdict policies scope (rule ∷ rest) =
      let later = verdict policies scope rest in
      let predicates = Q.get_predicates policies none (some rule) in
      if is_empty predicates
      then none
      else if any (λ p. term_eq p Odrl.prohibition) predicates
      then some []
      else if any (λ p. term_eq p Odrl.permission) predicates
      then later
      else none

module _ (Q : QuadStore) (clock : Clock) (json : JsonPath) where
  -- The loop that collects `validRules`.
  unfoldable pub valid_rules : Q.State → ClaimSet → List Term → Option (List Term)
  valid_rules policies claims [] = some []
  valid_rules policies claims (rule ∷ rest) =
      let later = valid_rules policies claims rest in
      elim (validate_constraints Q clock policies claims rule) [
        | none ↦ none
        | some simple ↦ elim (validate_vc_constraints Q json policies claims rule) [
          | none ↦ none
          | some credential ↦
              if simple && credential
              then elim later [ none ↦ none | some more ↦ some (rule ∷ more) ]
              else later
        ]
      ]

  -- `none` hands the whole request to the fallback authorizer.
  unfoldable pub get_permissions : Q.State → ClaimSet → String → String → Option (List String)
  get_permissions policies claims resource scope =
      let rules = matching_target Q policies resource in
      let acting = filter (has_action Q policies (odrl_scope scope)) rules in
      let assigned = filter (has_assignee Q policies claims) acting in
      if is_empty rules
      then some []
      else if is_empty acting
      then some []
      else if is_empty assigned
      then some []
      else elim (valid_rules policies claims assigned) [
        | none ↦ none
        | some valid ↦ if is_empty valid then some [] else verdict Q policies scope valid
      ]
