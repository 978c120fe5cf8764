-- ===== src/Rdf.antt =====
-- RDF terms and triples, and the triple store that the code keeps its policies in: the `Store` of
-- the n3 package, which is not part of this repository. What the code relies on is the documented
-- behaviour of its methods, stated through `has`. All quads stand in the default graph.
pub mod Lists
pub mod Patterns
pub mod Vocabulary
use user_managed_access.Prelude.{
  String, Option, none, some, List, [], ◌∷◌, Bool, true, false, ◌&&◌, ◌||◌, not, ◌==◌, ◌≡◌, any, ℕ,
  length,
}

pub data Term : Type 0 where
  named : String → Term
  blank : String → Term
  literal : (value kind : String) → Term

-- `term.value`
abbrev pub value : Term → String
value (named v) = v
value (blank v) = v
value (literal v k) = v

-- `term.equals(other)`
unfoldable pub term_eq : Term → Term → Bool
term_eq (named v) (named w) = v == w
term_eq (blank v) (blank w) = v == w
term_eq (literal v k) (literal w l) = (v == w) && (k == l)
term_eq _ _ = false

pub record Quad : Type 0 where
  pub subject : Term
  pub predicate : Term
  pub object : Term

abbrev pub quad : Term → Term → Term → Quad
quad s p o = record { subject = s; predicate = p; object = o }

unfoldable pub quad_eq : Quad → Quad → Bool
unfolding term_eq
quad_eq a b =
    term_eq a.subject b.subject && (term_eq a.predicate b.predicate && term_eq a.object b.object)

abbrev pub contains_term : List Term → Term → Bool
contains_term ts t = any (λ u. term_eq u t) ts

abbrev pub contains_quad : List Quad → Quad → Bool
contains_quad qs q = any (λ r. quad_eq r q) qs

-- A term of a pattern; `null` fits every term.
abbrev pub fits : Option Term → Term → Bool
fits none t = true
fits (some u) t = term_eq u t

-- No term stands twice.
abbrev pub IsDistinct : List Term → Type 0
IsDistinct [] = Unit
IsDistinct (t ∷ ts) = (contains_term ts t ≡ false) × IsDistinct ts

pub record QuadStore : Type 1 where
  pub State : Type 0
  pub has : State → Quad → Bool
  pub get_quads : State → Option Term → Option Term → Option Term → List Quad
  -- getSubjects(predicate, object), getPredicates(subject, object), getObjects(subject, predicate)
  pub get_subjects : State → Option Term → Option Term → List Term
  pub get_predicates : State → Option Term → Option Term → List Term
  pub get_objects : State → Option Term → Option Term → List Term
  pub add_quads : State → List Quad → State
  pub remove_quads : State → List Quad → State
  pub has-add_quads :
      (s : State) (qs : List Quad) (q : Quad)
      → has (add_quads s qs) q ≡ (has s q || contains_quad qs q)
  pub has-remove_quads :
      (s : State) (qs : List Quad) (q : Quad)
      → has (remove_quads s qs) q ≡ (has s q && not (contains_quad qs q))
  pub contains-get_quads :
      (s : State) (a b c : Option Term) (q : Quad)
      → contains_quad (get_quads s a b c) q
        ≡ (has s q && (fits a q.subject && (fits b q.predicate && fits c q.object)))
  pub contains-get_subjects :
      (s : State) (p o : Option Term) (t : Term)
      → contains_term (get_subjects s p o) t ≡ any (λ q. term_eq q.subject t) (get_quads s none p o)
  pub contains-get_predicates :
      (s : State) (a o : Option Term) (t : Term)
      → contains_term (get_predicates s a o) t
        ≡ any (λ q. term_eq q.predicate t) (get_quads s a none o)
  pub contains-get_objects :
      (s : State) (a p : Option Term) (t : Term)
      → contains_term (get_objects s a p) t ≡ any (λ q. term_eq q.object t) (get_quads s a p none)
  pub get_objects-IsDistinct : (s : State) (a p : Option Term) → IsDistinct (get_objects s a p)

-- `countQuads`
abbrev pub count_quads : (Q : QuadStore) → Q.State → Option Term → Option Term → Option Term → ℕ
count_quads Q s a b c = length (Q.get_quads s a b c)
