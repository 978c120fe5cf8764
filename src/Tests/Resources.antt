-- ===== src/Tests/Resources.antt =====
-- Two owners and their resources: packages/uma/src/routes/ResourceRegistration.ts.
use user_managed_access.Prelude.{
  ◌⊎◌, false, String, none, some, List, [], ◌∷◌, true, ◌≡◌, refl, ℕ, arith, eq_iff,
}
use user_managed_access.Http.{Outcome, ok, fail, plain_error}
use user_managed_access.Rdf.{Term, named, blank, term_eq, Quad, quad, quad_eq, contains_term}
use user_managed_access.Rdf.Lists.{list_store}
use user_managed_access.Rdf.Vocabulary.Odrl
use user_managed_access.Rdf.Vocabulary.OdrlP
use user_managed_access.Rdf.Vocabulary.Owl
use user_managed_access.Storage.{KeyValueStorage}
use user_managed_access.Storage.Memory.{memory_storage}
use user_managed_access.Views.{ResourceDescription, Registration}
use user_managed_access.Routes.ResourceRegistration.{
  Request, Registry, handle, dispatch, handle_post, register, set_resource_metadata,
  metadata_changes,
}
use user_managed_access.Routes.ResourceRegistration.Atomic.{IsHalfway, handle_refused}
use user_managed_access.Routes.ResourceRegistration.Collections.{
  filter_relation_entries, get_collection_metadata, update_collections, update_relations,
  CollectionMetadata, find_collection_ids, generate_collection_triples,
}
use user_managed_access.Routes.ResourceRegistration.Ownership.{
  IsConsistent, handle-IsConsistent, handle_keeps_others,
}
use user_managed_access.Routes.ResourceRegistration.Triples.{find-generate}
use user_managed_access.Routes.ResourceRegistration.Leftovers.{inverse_of_stays}

abbrev R : KeyValueStorage Registration
R = memory_storage Registration

abbrev O : KeyValueStorage (List String)
O = memory_storage (List String)

abbrev D : KeyValueStorage String
D = memory_storage String

abbrev document : ResourceDescription
document = record {
  resource_scopes = "read" ∷ [];
  resource_defaults = none;
  resource_relations = none;
  derived_from = none;
  kind = none;
  name = some "document";
  icon_uri = none;
  description = none;
}

abbrev of_alice : Registration
of_alice = record { owner = "alice"; description = document }

abbrev registry : Registry R O D list_store
registry = record {
  registrations = ("document", of_alice) ∷ [];
  ownership = ("alice", "document" ∷ []) ∷ [];
  derivations = [];
  policies = [];
}

abbrev asks : String → Request
asks method = record { method = method; id = some "document"; body = some document }

abbrev blanks : ℕ → Term
blanks n = blank "b"

abbrev locations : String → Outcome String
locations id = ok id

is_consistent : IsConsistent R O D list_store registry
is_consistent = record {
  listed = λ owner id. ground (arith, eq_iff "alice" owner, eq_iff "document" id);
  distinct = λ owner. ground arith;
}

handle-IsConsistent_example :
    IsConsistent R O D list_store
      (handle R O D list_store locations blanks "new" (ok "alice") (asks "DELETE") registry).1
handle-IsConsistent_example =
    handle-IsConsistent R O D list_store locations blanks "new" (ok "alice") (asks "DELETE")
      registry is_consistent refl

handle_keeps_others_example :
    R.get
      (handle R O D list_store locations blanks "new"
        (ok "bob")
        (asks "DELETE")
        registry).1.registrations
      "document"
    ≡ some of_alice
handle_keeps_others_example =
    handle_keeps_others R O D list_store locations blanks "new" "bob" (asks "DELETE") registry
      "document" of_alice refl refl (ground (arith, eq_iff "alice" "bob"))

-- No name can be written as a part of a URL.
abbrev no_location : String → Outcome String
no_location id = fail plain_error

abbrev posts : Request
posts = record { method = "POST"; id = none; body = some (record document { name = some "new" }) }

throws : handle R O D list_store no_location blanks "new" (ok "bob") posts registry ≡ (
  fail plain_error,
  (handle R O D list_store no_location blanks "new" (ok "bob") posts registry).1,
)
unfolding handle dispatch handle_post register set_resource_metadata metadata_changes
    filter_relation_entries get_collection_metadata update_collections update_relations
throws = refl

handle_refused_example :
    let t = (handle R O D list_store no_location blanks "new" (ok "bob") posts registry).1 in
    (t ≡ registry) ⊎ IsHalfway R O D list_store no_location posts plain_error t
handle_refused_example =
    handle_refused R O D list_store no_location blanks "new" (ok "bob") posts registry
      (handle R O D list_store no_location blanks "new" (ok "bob") posts registry).1 plain_error
      throws

abbrev contains_entry : CollectionMetadata
contains_entry = record {
  relation = named "http://www.w3.org/ns/ldp#contains";
  source = named "container";
  reverse = true;
}

find-generate_example :
    contains_term
      (find_collection_ids list_store contains_entry (
        list_store.add_quads []
          (generate_collection_triples contains_entry "alice" (named "collection") (blank "b"))))
      (named "collection")
    ≡ true
find-generate_example =
    find-generate list_store contains_entry "alice" (named "collection") (blank "b") []

-- A description that defined a reverse collection, and one without it.
abbrev container : ResourceDescription
container = record document {
  resource_defaults = some (record {
    normal = [];
    reversed = some (("http://www.w3.org/ns/ldp#contains", "document" ∷ []) ∷ []);
  });
}

abbrev collection : Term
collection = named "collection:http://www.w3.org/ns/ldp#contains:document"

abbrev tied : Quad
tied = quad (blank "old") Owl.inverse_of (named "http://www.w3.org/ns/ldp#contains")

abbrev with_collection : Registry R O D list_store
with_collection = record registry {
  policies =
      quad collection Odrl.source (named "document")
      ∷ (quad collection OdrlP.relation (blank "old") ∷ (tied ∷ []));
}

different : (m : ℕ) → term_eq (blanks m) (blank "old") ≡ false
unfolding term_eq
different m = ground (arith, eq_iff "b" "old")

tied_before : list_store.has with_collection.policies tied ≡ true
unfolding quad_eq term_eq
tied_before = refl

updates :
    set_resource_metadata R O D list_store blanks "document" document "alice"
      (some container)
      with_collection
    ≡ (
      ok tt,
      (set_resource_metadata R O D list_store blanks "document" document "alice"
          (some container)
          with_collection).1,
    )
unfolding set_resource_metadata metadata_changes update_collections update_relations
    filter_relation_entries get_collection_metadata term_eq quad_eq
updates = refl

inverse_of_stays_example :
    list_store.has
      (set_resource_metadata R O D list_store blanks "document" document "alice"
        (some container)
        with_collection).1.policies
      tied
    ≡ true
inverse_of_stays_example =
    inverse_of_stays R O D list_store blanks "document" document "alice" (some container)
      with_collection
      (set_resource_metadata R O D list_store blanks "document" document "alice" (some container)
        with_collection).1
      (blank "old") (named "http://www.w3.org/ns/ldp#contains") different tied_before updates
