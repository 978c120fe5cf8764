-- ===== src/Rdf/Patterns.antt =====
-- What the pattern queries of a triple store say about its quads.
use user_managed_access.Prelude.{
  Option, none, some, List, [], ◌∷◌, Bool, true, ◌≡◌, refl, ◌∙◌, any, arith,
}
use user_managed_access.Rdf.{
  Term, term_eq, Quad, quad, quad_eq, contains_term, contains_quad, fits, QuadStore,
}
use user_managed_access.Rdf.Lists.{quad_eq_iff, term_eq_iff, term_eq_refl}

pub quad_eq_refl : (q : Quad) → quad_eq q q ≡ true
quad_eq_refl q = (quad_eq_iff q q).1 refl

-- Two tests that agree on the members of a list find the same.
pub any_congr :
    (f g : Quad → Bool) (qs : List Quad)
    → ((q : Quad) → contains_quad qs q ≡ true → f q ≡ g q)
    → any f qs ≡ any g qs
any_congr f g [] h = refl
any_congr f g (q ∷ qs) h =
    let here : f q ≡ g q = h q (ground (arith, quad_eq_refl q)) in
    let later : any f qs ≡ any g qs = any_congr f g qs λ r k. h r (ground (arith, k)) in
    ground (arith, here, later)

pub any_of_contains :
    (f : Quad → Bool) (qs : List Quad) (q : Quad)
    → contains_quad qs q ≡ true
    → f q ≡ true
    → any f qs ≡ true
any_of_contains f [] q h k = cc
any_of_contains f (r ∷ qs) q h k = ground (arith, quad_eq_iff r q, any_of_contains f qs q)

module _ (Q : QuadStore) (s : Q.State) where
  -- A quad that a query returns is in the store and fits the pattern.
  pub fits-get_quads :
      (a b c : Option Term) (q : Quad)
      → contains_quad (Q.get_quads s a b c) q ≡ true
      → (fits a q.subject ≡ true) × (fits b q.predicate ≡ true) × (fits c q.object ≡ true)
  fits-get_quads a b c q h = ground (arith, Q.contains-get_quads s a b c q)

  pub contains-get_subjects_has :
      (p o t : Term) → contains_term (Q.get_subjects s (some p) (some o)) t ≡ Q.has s (quad t p o)
  contains-get_subjects_has p o t =
      Q.contains-get_subjects s (some p) (some o) t
      ∙ any_congr (λ q. term_eq q.subject t) (λ q. quad_eq q (quad t p o))
          (Q.get_quads s none (some p) (some o))
          (λ q h. ground (
            arith,
            fits-get_quads none (some p) (some o) q h,
            term_eq_iff p q.predicate,
            term_eq_iff o q.object,
            term_eq_iff q.subject t,
            quad_eq_iff q (quad t p o),
          ))
      ∙ Q.contains-get_quads s none (some p) (some o) (quad t p o)
      ∙ ground (arith, term_eq_refl p, term_eq_refl o)

  pub contains-get_objects_has :
      (a p t : Term) → contains_term (Q.get_objects s (some a) (some p)) t ≡ Q.has s (quad a p t)
  contains-get_objects_has a p t =
      Q.contains-get_objects s (some a) (some p) t
      ∙ any_congr (λ q. term_eq q.object t) (λ q. quad_eq q (quad a p t))
          (Q.get_quads s (some a) (some p) none)
          (λ q h. ground (
            arith,
            fits-get_quads (some a) (some p) none q h,
            term_eq_iff p q.predicate,
            term_eq_iff a q.subject,
            term_eq_iff q.object t,
            quad_eq_iff q (quad a p t),
          ))
      ∙ Q.contains-get_quads s (some a) (some p) none (quad a p t)
      ∙ ground (arith, term_eq_refl p, term_eq_refl a)
