-- ===== src/Policies/SimpleOdrl/Triples.antt =====
-- A rule that is known by its triples: what makes it apply to a request.
use user_managed_access.Prelude.{
  String, some, List, [], ◌∷◌, true, false, ◌≡◌, refl, ◌∙◌, any, any-append, arith,
}
use user_managed_access.Rdf.{Term, named, term_eq, quad, contains_term, QuadStore}
use user_managed_access.Rdf.Lists.{any_of_contains_term, nil_of_none_contained}
use user_managed_access.Rdf.Patterns.{contains-get_objects_has}
use user_managed_access.Rdf.Vocabulary.Odrl
use user_managed_access.Rdf.Vocabulary.Ovc
use user_managed_access.Views.{ClaimSet, Claim, text, access, object, claims_of, webid}
use user_managed_access.Policies.SimpleOdrl.Constraints.{
  Clock, JsonPath, is_value, validate_constraints, validate_vc_constraints, rule_constraints,
  rule_vc_constraints, check_constraints,
}
use user_managed_access.Policies.SimpleOdrl.Rules.{
  odrl_scope, has_action, has_assignee, user_assignees, anonymous,
}
use user_managed_access.Policies.SimpleOdrl.Soundness.{Applies}

module _ (Q : QuadStore) where
  contains-user_assignees :
      (s : Q.State) (user : String) (claims : List Claim)
      → any (is_value user) claims ≡ true
      → contains_term (user_assignees Q s claims) (named user) ≡ true
  unfolding user_assignees term_eq
  contains-user_assignees s user [] h = cc
  contains-user_assignees s user (text u ∷ claims) h = ground (
    arith,
    h,
    any-append (λ t. term_eq t (named user)) (Q.get_objects s (some (named u)) (some Odrl.part_of))
        (user_assignees Q s claims),
    contains-user_assignees s user claims,
  )
  contains-user_assignees s user (access p ∷ claims) h = contains-user_assignees s user claims h
  contains-user_assignees s user (object n ∷ claims) h = contains-user_assignees s user claims h

  -- A subject without a predicate has no objects under it.
  pub objects_nil :
      (s : Q.State) (a p : Term)
      → ((o : Term) → Q.has s (quad a p o) ≡ false)
      → Q.get_objects s (some a) (some p) ≡ []
  objects_nil s a p h =
      nil_of_none_contained (Q.get_objects s (some a) (some p))
        λ o. contains-get_objects_has Q s a p o ∙ h o

  -- A rule without constraints applies to what it names.
  pub Applies-of_triples :
      (clock : Clock) (json : JsonPath) (s : Q.State) (claims : ClaimSet)
      (resource scope user : String) (rule : Term)
      → Q.has s (quad rule Odrl.target (named resource)) ≡ true
      → Q.has s (quad rule Odrl.action (named (odrl_scope scope))) ≡ true
      → Q.has s (quad rule Odrl.assignee (named user)) ≡ true
      → any (is_value user) (claims_of claims webid) ≡ true
      → ((o : Term) → Q.has s (quad rule Odrl.constraint o) ≡ false)
      → ((o : Term) → Q.has s (quad rule Ovc.constraint o) ≡ false)
      → Applies Q clock json s claims resource scope rule
  unfolding has_action has_assignee validate_constraints rule_constraints check_constraints
      validate_vc_constraints rule_vc_constraints
  Applies-of_triples clock json s claims resource scope user rule target acting assignee claimed
        plain vc_plain =
      let assignees = anonymous ∷ user_assignees Q s (claims_of claims webid) in
      let rule_assignees = Q.get_objects s (some rule) (some Odrl.assignee) in
      record {
        targets = ground (arith, target);
        acts = ground (arith, acting);
        assigned = ground (
          arith,
          any_of_contains_term (λ r. any (λ a. term_eq a r) assignees) rule_assignees (named user)
              (contains-get_objects_has Q s rule Odrl.assignee (named user) ∙ assignee)
              (ground (arith, contains-user_assignees s user (claims_of claims webid) claimed)),
        );
        constrained = rw (objects_nil s rule Odrl.constraint plain, validate_constraints) refl;
        vc_constrained =
            rw (objects_nil s rule Ovc.constraint vc_plain, validate_vc_constraints) refl;
      }
