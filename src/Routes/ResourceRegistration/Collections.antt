-- ===== src/Routes/ResourceRegistration/Collections.antt =====
-- packages/uma/src/routes/ResourceRegistration.ts: the asset collections that resource descriptions
-- define and refer to, as triples of the policy store. `blanks n` is the n-th new blank node.
use Prim.Native.String
use user_managed_access.Prelude.{
  String, Option, none, some, List, [], ◌∷◌, ◌++◌, map, Bool, true, false, not, if◌then◌else◌, Dict,
  get, put, remove, keys, values, filter, is_empty, is_some, ℕ, suc, ◌+◌, ltb, length, flat_map,
  truthy,
}
use user_managed_access.Http.{Outcome, ok, fail, ◌>>=◌, bad_request, conflict}
use user_managed_access.Rdf.{Term, named, value, Quad, quad, QuadStore, count_quads}
use user_managed_access.Rdf.Vocabulary.Odrl
use user_managed_access.Rdf.Vocabulary.OdrlP
use user_managed_access.Rdf.Vocabulary.Owl
use user_managed_access.Rdf.Vocabulary.Dc
use user_managed_access.Rdf.Vocabulary.RdfType
use user_managed_access.Views.{ResourceDescription, Relations}

pub record CollectionMetadata : Type 0 where
  pub relation : Term
  pub source : Term
  pub reverse : Bool

-- The triples to add and to remove.
pub record Changes : Type 0 where
  pub add : List Quad
  pub remove : List Quad

pub data Field : Type 0 where
  resource_defaults resource_relations : Field

abbrev pub join : String → String → String
join a b = String.◌++◌ a b

unfoldable pub get_relation_key : CollectionMetadata → String
get_relation_key entry =
    join (value entry.source) (
      join "-" (join (value entry.relation) (join "-" (if entry.reverse then "true" else "false"))))

unfoldable pub put_sources :
    String → Bool → List String → Dict CollectionMetadata → Dict CollectionMetadata
put_sources relation reverse [] result = result
put_sources relation reverse (source ∷ rest) result =
    let entry : CollectionMetadata = record {
      relation = named relation;
      source = named source;
      reverse = reverse;
    } in
    put_sources relation reverse rest (put result (get_relation_key entry) entry)

-- `entriesToCollectionMetadata`, with the entries collected so far
unfoldable pub put_entries :
    Dict (List String) → Bool → Option String → Dict CollectionMetadata → Dict CollectionMetadata
unfolding put_sources
put_entries [] reverse id result = result
put_entries ((relation, sources) ∷ rest) reverse id result = put_entries rest reverse id (
    if is_empty sources
    then result
    else put_sources relation reverse
        (elim id [ none ↦ sources | some i ↦ if truthy (some i) then i ∷ [] else sources ]) result)

abbrev field_of : Field → ResourceDescription → Option Relations
field_of resource_defaults d = d.resource_defaults
field_of resource_relations d = d.resource_relations

abbrev is_relations : Field → Bool
is_relations resource_defaults = false
is_relations resource_relations = true

unfoldable pub get_collection_metadata :
    Field → Option ResourceDescription → String → Dict CollectionMetadata
unfolding put_entries
get_collection_metadata field none id = []
get_collection_metadata field (some description) id = elim (field_of field description) [
  | none ↦ []
  | some relations ↦
      let source_id : Option String = if is_relations field then none else some id in
      put_entries (elim relations.reversed [ none ↦ [] | some r ↦ r ]) (not (is_relations field))
        source_id (put_entries relations.normal (is_relations field) source_id [])
]

-- The loop over the keys of the first record; what is in both is deleted from both.
unfoldable pub filter_relation_entries :
    List String
    → Dict CollectionMetadata
    → Dict CollectionMetadata
    → Dict CollectionMetadata × Dict CollectionMetadata
filter_relation_entries [] record1 record2 = (record1, record2)
filter_relation_entries (key ∷ rest) record1 record2 =
    filter_relation_entries rest (if is_some (get record2 key) then remove record1 key else record1)
      (if is_some (get record2 key) then remove record2 key else record2)

unfoldable pub generate_collection_triples : CollectionMetadata → String → Term → Term → List Quad
generate_collection_triples entry owner id fresh =
    quad id RdfType.type Odrl.asset_collection
    ∷ (quad id Odrl.source entry.source
        ∷ (quad id Dc.creator (named owner)
            ∷ (if entry.reverse
                then quad id OdrlP.relation fresh ∷ (quad fresh Owl.inverse_of entry.relation ∷ [])
                else quad id OdrlP.relation entry.relation ∷ [])))

-- `collection:` and the two parts of the relation.
unfoldable pub collection_id : CollectionMetadata → Term
collection_id entry =
    if entry.reverse
    then named (join "collection:" (join (value entry.relation) (join ":" (value entry.source))))
    else named (join "collection:" (join (value entry.source) (join ":" (value entry.relation))))

module _ (Q : QuadStore) where
  unfoldable pub find_collection_ids : CollectionMetadata → Q.State → List Term
  find_collection_ids entry store =
      let source_matches = Q.get_subjects store (some Odrl.source) (some entry.source) in
      if entry.reverse
      then map (λ q. q.subject)
          (filter (λ q. Q.has store (quad q.object Owl.inverse_of entry.relation))
            (flat_map (λ s. Q.get_quads store (some s) (some OdrlP.relation) none) source_matches))
      else filter (λ s. Q.has store (quad s OdrlP.relation entry.relation)) source_matches

  unfoldable pub added_collections :
      (ℕ → Term) → Q.State → String → ℕ → List CollectionMetadata → List Quad
  unfolding find_collection_ids generate_collection_triples collection_id
  added_collections blanks store owner n [] = []
  added_collections blanks store owner n (entry ∷ rest) =
      let others = added_collections blanks store owner (suc n) rest in
      if is_empty (find_collection_ids entry store)
      then generate_collection_triples entry owner (collection_id entry) (blanks n) ++ others
      else others

  -- The collections of one entry: each has to be empty.
  unfoldable pub removed_collection :
      (ℕ → Term) → Q.State → String → ℕ → CollectionMetadata → List Term → Outcome (List Quad)
  removed_collection blanks store owner n entry [] = ok []
  removed_collection blanks store owner n entry (collection ∷ rest) =
      if ltb 0 (count_quads Q store none (some Odrl.part_of) (some collection))
      then fail conflict
      else (removed_collection blanks store owner (suc n) entry rest >>= λ others.
          ok (generate_collection_triples entry owner collection (blanks n) ++ others))

  unfoldable pub removed_collections :
      (ℕ → Term) → Q.State → String → ℕ → List CollectionMetadata → Outcome (List Quad)
  unfolding removed_collection
  removed_collections blanks store owner n [] = ok []
  removed_collections blanks store owner n (entry ∷ rest) =
      let ids = find_collection_ids entry store in
      do
        here ← removed_collection blanks store owner n entry ids
        others ← removed_collections blanks store owner (n + length ids) rest
        ok (here ++ others)

  unfoldable pub update_collections :
      (ℕ → Term)
      → Q.State
      → String
      → String
      → ResourceDescription
      → Option ResourceDescription
      → Outcome Changes
  unfolding added_collections removed_collections
  update_collections blanks store id owner description previous =
      let add = get_collection_metadata resource_defaults (some description) id in
      let old = get_collection_metadata resource_defaults previous id in
      let (new, gone) = filter_relation_entries (keys add) add old in
      do
        removed ← removed_collections blanks store owner (length (values new)) (values gone)
        ok (record { add = added_collections blanks store owner 0 (values new); remove = removed })

  unfoldable pub generate_part_of_triples :
      Term → Q.State → List CollectionMetadata → Outcome (List Quad)
  generate_part_of_triples part store [] = ok []
  generate_part_of_triples part store (entry ∷ rest) =
      let ids = find_collection_ids entry store in
      if is_empty ids
      then fail bad_request
      else (generate_part_of_triples part store rest >>= λ others.
          ok (map (λ id. quad part Odrl.part_of id) ids ++ others))

  unfoldable pub update_relations :
      Q.State → String → ResourceDescription → Option ResourceDescription → Outcome Changes
  unfolding generate_part_of_triples
  update_relations store id description previous =
      let add = get_collection_metadata resource_relations (some description) id in
      let old = get_collection_metadata resource_relations previous id in
      let (new, gone) = filter_relation_entries (keys add) add old in
      do
        added ← generate_part_of_triples (named id) store (values new)
        removed ← generate_part_of_triples (named id) store (values gone)
        ok (record { add = added; remove = removed })
