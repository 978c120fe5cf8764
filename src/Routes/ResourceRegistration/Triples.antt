-- ===== src/Routes/ResourceRegistration/Triples.antt =====
-- The triples of asset collections: what is added is found again.
use user_managed_access.Prelude.{
  String, none, some, List, true, false, ◌≡◌, ◌∙◌, filter, flat_map, arith, Bool-cases, inl, inr,
}
use user_managed_access.Rdf.{Term, Quad, quad, contains_term, contains_quad, QuadStore}
use user_managed_access.Rdf.Lists.{
  term_eq_refl, contains-filter, contains-filter_terms, contains_quad-flat_map,
  contains-map_subject,
}
use user_managed_access.Rdf.Patterns.{quad_eq_refl, contains-get_subjects_has}
use user_managed_access.Rdf.Vocabulary.Odrl
use user_managed_access.Rdf.Vocabulary.OdrlP
use user_managed_access.Rdf.Vocabulary.Owl
use user_managed_access.Routes.ResourceRegistration.Collections.{
  CollectionMetadata, generate_collection_triples, find_collection_ids,
}

module _ (Q : QuadStore) (entry : CollectionMetadata) (owner : String) (id fresh : Term) where
  abbrev triples : List Quad
  triples = generate_collection_triples entry owner id fresh

  -- What is in the list is in the store after it is added.
  has_added :
      (s : Q.State) (q : Quad)
      → contains_quad triples q ≡ true
      → Q.has (Q.add_quads s triples) q ≡ true
  has_added s q h = ground (arith, Q.has-add_quads s triples q, h)

  has_source :
      (s : Q.State) → Q.has (Q.add_quads s triples) (quad id Odrl.source entry.source) ≡ true
  unfolding generate_collection_triples
  has_source s =
      has_added s (quad id Odrl.source entry.source)
        (ground (arith, quad_eq_refl (quad id Odrl.source entry.source)))

  has_relation :
      (s : Q.State)
      → entry.reverse ≡ false
      → Q.has (Q.add_quads s triples) (quad id OdrlP.relation entry.relation) ≡ true
  unfolding generate_collection_triples
  has_relation s plain =
      has_added s (quad id OdrlP.relation entry.relation)
        (ground (arith, quad_eq_refl (quad id OdrlP.relation entry.relation), plain))

  has_fresh :
      (s : Q.State)
      → entry.reverse ≡ true
      → Q.has (Q.add_quads s triples) (quad id OdrlP.relation fresh) ≡ true
  unfolding generate_collection_triples
  has_fresh s reversed =
      has_added s (quad id OdrlP.relation fresh)
        (ground (arith, quad_eq_refl (quad id OdrlP.relation fresh), reversed))

  has_inverse :
      (s : Q.State)
      → entry.reverse ≡ true
      → Q.has (Q.add_quads s triples) (quad fresh Owl.inverse_of entry.relation) ≡ true
  unfolding generate_collection_triples
  has_inverse s reversed =
      has_added s (quad fresh Owl.inverse_of entry.relation)
        (ground (arith, quad_eq_refl (quad fresh Owl.inverse_of entry.relation), reversed))

  -- A collection whose triples were added to the store is found by its metadata, for a relation and
  -- for a reverse relation.
  pub find-generate :
      (s : Q.State) → contains_term (find_collection_ids Q entry (Q.add_quads s triples)) id ≡ true
  unfolding find_collection_ids
  find-generate s =
      let t = Q.add_quads s triples in
      let matches = Q.get_subjects t (some Odrl.source) (some entry.source) in
      let listed : contains_term matches id ≡ true =
        contains-get_subjects_has Q t Odrl.source entry.source id ∙ has_source s in
      elim (Bool-cases entry.reverse) [
        | inl reversed ↦
            let q = quad id OdrlP.relation fresh in
            let found : contains_quad (Q.get_quads t (some id) (some OdrlP.relation) none) q
                ≡ true =
              ground (
                arith,
                Q.contains-get_quads t (some id) (some OdrlP.relation) none q,
                has_fresh s reversed,
                term_eq_refl id,
                term_eq_refl OdrlP.relation,
              ) in
            let inverse = λ (r : Quad). Q.has t (quad r.object Owl.inverse_of entry.relation) in
            let linked =
              flat_map (λ x. Q.get_quads t (some x) (some OdrlP.relation) none) matches in
            let kept : contains_quad (filter inverse linked) q ≡ true = ground (
              arith,
              contains-filter inverse linked q,
              contains_quad-flat_map (λ x. Q.get_quads t (some x) (some OdrlP.relation) none)
                  matches id q listed found,
              has_inverse s reversed,
            ) in
            simp reversed (contains-map_subject (filter inverse linked) q kept)
        | inr plain ↦ simp plain (
            ground (
              arith,
              contains-filter_terms (λ x. Q.has t (quad x OdrlP.relation entry.relation)) matches
                  id,
              listed,
              has_relation s plain,
            ))
      ]
