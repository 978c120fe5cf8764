-- ===== src/Routes/ResourceRegistration/Leftovers.antt =====
-- What the update of a resource description leaves behind in the policy store.
use user_managed_access.Prelude.{
  String, Option, none, some, List, [], ◌∷◌, ◌++◌, map, true, false, ◌≡◌, ◌∙◌, refl, ap, ltb, ℕ,
  suc, ◌+◌, length, is_empty, keys, values, any-append, arith, Bool-cases, inl, inr, subst,
}
use user_managed_access.Http
use user_managed_access.Http.{ok}
use user_managed_access.Http.Exec.{lift, modify, >>=-eq-ok}
use user_managed_access.Rdf.{
  Term, named, Quad, quad, quad_eq, term_eq, contains_quad, QuadStore, count_quads,
}
use user_managed_access.Rdf.Vocabulary.Odrl
use user_managed_access.Rdf.Vocabulary.Owl
use user_managed_access.Storage.{KeyValueStorage}
use user_managed_access.Views.{ResourceDescription, Registration}
use user_managed_access.Routes.ResourceRegistration.Collections.{
  CollectionMetadata, Changes, resource_defaults, resource_relations, get_collection_metadata,
  filter_relation_entries, generate_collection_triples, find_collection_ids, removed_collection,
  removed_collections, update_collections, generate_part_of_triples, update_relations,
}
use user_managed_access.Routes.ResourceRegistration.{
  Registry, metadata_changes, store_metadata, set_resource_metadata,
}

module _ (Q : QuadStore) (blanks : ℕ → Term) (b r : Term)
    (fresh : (m : ℕ) → term_eq (blanks m) b ≡ false) where
  abbrev inverse : Quad
  inverse = quad b Owl.inverse_of r

  misses_triples :
      (entry : CollectionMetadata) (owner : String) (id : Term) (n : ℕ)
      → contains_quad (generate_collection_triples entry owner id (blanks n)) inverse ≡ false
  unfolding generate_collection_triples quad_eq term_eq
  misses_triples entry owner id n = ground (arith, fresh n)

  misses_part_of :
      (part : Term) (ids : List Term)
      → contains_quad (map (λ id. quad part Odrl.part_of id) ids) inverse ≡ false
  unfolding quad_eq term_eq
  misses_part_of part [] = refl
  misses_part_of part (id ∷ ids) = ground (arith, misses_part_of part ids)

  misses-append :
      (qs rs : List Quad)
      → contains_quad qs inverse ≡ false
      → contains_quad rs inverse ≡ false
      → contains_quad (qs ++ rs) inverse ≡ false
  misses-append qs rs h k = ground (arith, any-append (λ q. quad_eq q inverse) qs rs, h, k)

  misses-removed_collection :
      (store : Q.State) (owner : String) (n : ℕ) (entry : CollectionMetadata) (ids : List Term)
      (qs : List Quad)
      → removed_collection Q blanks store owner n entry ids ≡ ok qs
      → contains_quad qs inverse ≡ false
  unfolding removed_collection
  misses-removed_collection store owner n entry [] qs h = ground (arith, h)
  misses-removed_collection store owner n entry (id ∷ ids) qs h =
      elim (Bool-cases (ltb 0 (count_quads Q store none (some Odrl.part_of) (some id)))) [
        | inl used ↦ absurd (ground (arith, h, used))
        | inr empty ↦
            let (others, rest, made) =
              Http.>>=-eq-ok (removed_collection Q blanks store owner (suc n) entry ids) _
                (rw empty at h) in
            subst (λ l. contains_quad l inverse ≡ false) (ground (arith, made))
              (misses-append _ others (misses_triples entry owner id n)
                (misses-removed_collection store owner (suc n) entry ids others rest))
      ]

  misses-removed_collections :
      (store : Q.State) (owner : String) (n : ℕ) (entries : List CollectionMetadata)
      (qs : List Quad)
      → removed_collections Q blanks store owner n entries ≡ ok qs
      → contains_quad qs inverse ≡ false
  unfolding removed_collections
  misses-removed_collections store owner n [] qs h = ground (arith, h)
  misses-removed_collections store owner n (entry ∷ rest) qs h =
      let ids = find_collection_ids Q entry store in
      let (first, one, h1) =
        Http.>>=-eq-ok (removed_collection Q blanks store owner n entry ids) _ h in
      let (others, later, made) =
        Http.>>=-eq-ok (removed_collections Q blanks store owner (n + length ids) rest) _ h1 in
      subst (λ l. contains_quad l inverse ≡ false) (ground (arith, made))
        (misses-append first others (misses-removed_collection store owner n entry ids first one)
          (misses-removed_collections store owner (n + length ids) rest others later))

  misses-generate_part_of_triples :
      (part : Term) (store : Q.State) (entries : List CollectionMetadata) (qs : List Quad)
      → generate_part_of_triples Q part store entries ≡ ok qs
      → contains_quad qs inverse ≡ false
  unfolding generate_part_of_triples
  misses-generate_part_of_triples part store [] qs h = ground (arith, h)
  misses-generate_part_of_triples part store (entry ∷ rest) qs h =
      elim (Bool-cases (is_empty (find_collection_ids Q entry store))) [
        | inl unknown ↦ absurd (ground (arith, h, unknown))
        | inr known ↦
            let (others, later, made) =
              Http.>>=-eq-ok (generate_part_of_triples Q part store rest) _ (rw known at h) in
            subst (λ l. contains_quad l inverse ≡ false) (ground (arith, made))
              (misses-append _ others (misses_part_of part (find_collection_ids Q entry store))
                (misses-generate_part_of_triples part store rest others later))
      ]

  misses-update_collections :
      (id : String) (d : ResourceDescription) (owner : String)
      (previous : Option ResourceDescription) (policies : Q.State) (changes : Changes)
      → update_collections Q blanks policies id owner d previous ≡ ok changes
      → contains_quad changes.remove inverse ≡ false
  unfolding update_collections
  misses-update_collections id d owner previous policies changes h =
      let add = get_collection_metadata resource_defaults (some d) id in
      let old = get_collection_metadata resource_defaults previous id in
      let (new, gone) = filter_relation_entries (keys add) add old in
      let (removed, e, made) =
        Http.>>=-eq-ok
          (removed_collections Q blanks policies owner (length (values new)) (values gone)) _ h in
      subst (λ l. contains_quad l inverse ≡ false) (ground (arith, made))
        (misses-removed_collections policies owner (length (values new)) (values gone) removed e)

  misses-update_relations :
      (id : String) (d : ResourceDescription) (previous : Option ResourceDescription)
      (policies : Q.State) (changes : Changes)
      → update_relations Q policies id d previous ≡ ok changes
      → contains_quad changes.remove inverse ≡ false
  unfolding update_relations
  misses-update_relations id d previous policies changes h =
      let add = get_collection_metadata resource_relations (some d) id in
      let old = get_collection_metadata resource_relations previous id in
      let (new, gone) = filter_relation_entries (keys add) add old in
      let (added, e, rest) =
        Http.>>=-eq-ok (generate_part_of_triples Q (named id) policies (values new)) _ h in
      let (removed, k, made) =
        Http.>>=-eq-ok (generate_part_of_triples Q (named id) policies (values gone)) _ rest in
      subst (λ l. contains_quad l inverse ≡ false) (ground (arith, made))
        (misses-generate_part_of_triples (named id) policies (values gone) removed k)

module _ (R : KeyValueStorage Registration) (O : KeyValueStorage (List String))
    (D : KeyValueStorage String) (Q : QuadStore) where
  misses-changes :
      (blanks : ℕ → Term) (b r : Term) (fresh : (m : ℕ) → term_eq (blanks m) b ≡ false)
      (id : String) (d : ResourceDescription) (owner : String)
      (previous : Option ResourceDescription) (policies : Q.State) (changes : Changes)
      → metadata_changes R O D Q blanks id d owner previous policies ≡ ok changes
      → contains_quad changes.remove (quad b Owl.inverse_of r) ≡ false
  unfolding metadata_changes
  misses-changes blanks b r fresh id d owner previous policies changes h =
      let (collections, e, rest) =
        Http.>>=-eq-ok (update_collections Q blanks policies id owner d previous) _ h in
      let (relations, k, made) =
        Http.>>=-eq-ok (update_relations Q policies id d previous) _ rest in
      let same : collections.remove ++ relations.remove ≡ changes.remove = ground (arith, made) in
      subst (λ l. contains_quad l (quad b Owl.inverse_of r) ≡ false) same
        (misses-append Q blanks b r fresh collections.remove relations.remove
          (misses-update_collections Q blanks b r fresh id d owner previous policies collections e)
          (misses-update_relations Q blanks b r fresh id d previous policies relations k))

  has-store_metadata :
      (id : String) (d : ResourceDescription) (owner : String)
      (previous : Option ResourceDescription) (changes : Changes) (s : Registry R O D Q) (q : Quad)
      → contains_quad changes.remove q ≡ false
      → Q.has s.policies q ≡ true
      → Q.has (store_metadata R O D Q id d owner previous changes s).policies q ≡ true
  has-store_metadata id d owner previous changes s q misses there =
      elim (Bool-cases (is_empty changes.remove)) [
        | inl nothing ↦ elim (Bool-cases (is_empty changes.add)) [
          | inl e ↦ rw (nothing, e) there
          | inr e ↦
              rw (nothing, e) (ground (arith, Q.has-add_quads s.policies changes.add q, there))
        ]
        | inr some_there ↦ elim (Bool-cases (is_empty changes.add)) [
          | inl e ↦
              rw (some_there, e)
                (ground (arith, Q.has-remove_quads s.policies changes.remove q, misses, there))
          | inr e ↦
              rw (some_there, e)
                (ground (
                  arith,
                  Q.has-remove_quads (Q.add_quads s.policies changes.add) changes.remove q,
                  Q.has-add_quads s.policies changes.add q,
                  misses,
                  there,
                ))
        ]
      ]

  -- An update of a description never takes an inverseOf triple out of the policy store, if its subject
  -- is none of the blank nodes that the update draws: not even where the description no longer defines
  -- the reverse collection that the triple belongs to, and the collection is removed.
  pub inverse_of_stays :
      (blanks : ℕ → Term) (id : String) (description : ResourceDescription) (owner : String)
      (previous : Option ResourceDescription) (s t : Registry R O D Q) (b r : Term)
      → ((m : ℕ) → term_eq (blanks m) b ≡ false)
      → Q.has s.policies (quad b Owl.inverse_of r) ≡ true
      → set_resource_metadata R O D Q blanks id description owner previous s ≡ (ok tt, t)
      → Q.has t.policies (quad b Owl.inverse_of r) ≡ true
  unfolding set_resource_metadata
  inverse_of_stays blanks id description owner previous s t b r fresh there h =
      let (changes, u, decided, stored) =
        >>=-eq-ok (lift (metadata_changes R O D Q blanks id description owner previous s.policies))
          (λ changes. modify (store_metadata R O D Q id description owner previous changes)) s t tt
          h in
      let misses =
        misses-changes blanks b r fresh id description owner previous s.policies changes
          (ap (λ p. p.0) decided) in
      subst (λ v. Q.has v.policies (quad b Owl.inverse_of r) ≡ true)
        (ap (λ v. store_metadata R O D Q id description owner previous changes v)
            (ap (λ p. p.1) decided)
          ∙ ap (λ p. p.1) stored)
        (has-store_metadata id description owner previous changes s (quad b Owl.inverse_of r) misses
          there)
