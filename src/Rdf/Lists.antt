-- ===== src/Rdf/Lists.antt =====
-- Terms are equal when `equals` says so, and a triple store that keeps a list of quads: the
-- interface can be met. Results have no duplicates, as in n3.
use user_managed_access.Prelude.{
  Option, none, List, [], ◌∷◌, ◌++◌, Bool, true, false, ◌&&◌, ◌||◌, not, ◌≡◌, refl, ◌∙◌, ap, map,
  any-filter, filter, any, any-append, flat_map, if◌then◌else◌, Bool-cases, inl, inr, arith, eq_iff,
  eq_refl, ◌↔◌,
}
use user_managed_access.Rdf.{
  Term, named, blank, literal, term_eq, Quad, quad_eq, contains_term, contains_quad, fits,
  IsDistinct, QuadStore,
}

pub eq_of_term_eq : (t u : Term) → term_eq t u ≡ true → t ≡ u
unfolding term_eq
eq_of_term_eq (named v) (named w) h = ground (arith, eq_iff v w)
eq_of_term_eq (blank v) (blank w) h = ground (arith, eq_iff v w)
eq_of_term_eq (literal v k) (literal w l) h = ground (arith, eq_iff v w, eq_iff k l)
eq_of_term_eq _ _ h = cc

pub term_eq_refl : (t : Term) → term_eq t t ≡ true
unfolding term_eq
term_eq_refl (named v) = eq_refl v
term_eq_refl (blank v) = eq_refl v
term_eq_refl (literal v k) = ground (arith, eq_refl v, eq_refl k)

pub term_eq_iff : (t u : Term) → (term_eq t u ≡ true) ↔ (t ≡ u)
term_eq_iff t u = (eq_of_term_eq t u, λ e. rw e (term_eq_refl u))

pub quad_eq_iff : (a b : Quad) → (quad_eq a b ≡ true) ↔ (a ≡ b)
unfolding quad_eq
quad_eq_iff a b = ground (
  arith,
  term_eq_iff a.subject b.subject,
  term_eq_iff a.predicate b.predicate,
  term_eq_iff a.object b.object,
)

-- The entries once each.
abbrev distinct : List Term → List Term
distinct [] = []
distinct (t ∷ ts) = let rest = distinct ts in if contains_term rest t then rest else t ∷ rest

pub contains-distinct :
    (ts : List Term) (t : Term) → contains_term (distinct ts) t ≡ contains_term ts t
contains-distinct [] t = refl
contains-distinct (u ∷ ts) t =
    ground (arith, contains-distinct ts t, contains-distinct ts u, term_eq_iff u t)

pub distinct-IsDistinct : (ts : List Term) → IsDistinct (distinct ts)
distinct-IsDistinct [] = tt
distinct-IsDistinct (t ∷ ts) = elim (Bool-cases (contains_term (distinct ts) t)) [
  | inl there ↦ rw there (distinct-IsDistinct ts)
  | inr new ↦ rw new (new, distinct-IsDistinct ts)
]

pub any-map :
    (f : Quad → Term) (qs : List Quad) (t : Term)
    → contains_term (map f qs) t ≡ any (λ q. term_eq (f q) t) qs
any-map f [] t = refl
any-map f (q ∷ qs) t = ground (arith, any-map f qs t)

pub contains-filter :
    (p : Quad → Bool) (qs : List Quad) (q : Quad)
    → contains_quad (filter p qs) q ≡ (contains_quad qs q && p q)
contains-filter p qs q =
    any-filter (λ r. quad_eq r q) p (p q) (λ r h. ap p ((quad_eq_iff r q).0 h)) qs

pub contains-flat_map :
    (f : Term → List Term) (ts : List Term) (r : Term)
    → contains_term (flat_map f ts) r ≡ any (λ t. contains_term (f t) r) ts
contains-flat_map f [] r = refl
contains-flat_map f (t ∷ ts) r =
    any-append (λ u. term_eq u r) (f t) (flat_map f ts)
    ∙ ap (λ b. contains_term (f t) r || b) (contains-flat_map f ts r)

pub contains-filter_terms :
    (p : Term → Bool) (ts : List Term) (r : Term)
    → contains_term (filter p ts) r ≡ (contains_term ts r && p r)
contains-filter_terms p ts r =
    any-filter (λ u. term_eq u r) p (p r) (λ u h. ap p ((term_eq_iff u r).0 h)) ts

pub contains_quad-flat_map :
    (f : Term → List Quad) (ts : List Term) (t : Term) (q : Quad)
    → contains_term ts t ≡ true
    → contains_quad (f t) q ≡ true
    → contains_quad (flat_map f ts) q ≡ true
contains_quad-flat_map f [] t q h k = cc
contains_quad-flat_map f (u ∷ ts) t q h k =
    any-append (λ r. quad_eq r q) (f u) (flat_map f ts) ∙ elim (Bool-cases (term_eq u t)) [
      | inl same ↦
          let here : contains_quad (f u) q ≡ true =
            ap (λ v. contains_quad (f v) q) ((term_eq_iff u t).0 same) ∙ k in
          rw here
      | inr other ↦
          let later : contains_quad (flat_map f ts) q ≡ true =
            contains_quad-flat_map f ts t q (ground (arith, h, other)) k in
          ground (arith, later)
    ]

pub contains_quad-flat_map-any :
    (f : Term → List Quad) (ts : List Term) (q : Quad)
    → contains_quad (flat_map f ts) q ≡ any (λ t. contains_quad (f t) q) ts
contains_quad-flat_map-any f [] q = refl
contains_quad-flat_map-any f (t ∷ ts) q =
    any-append (λ r. quad_eq r q) (f t) (flat_map f ts)
    ∙ ap (λ b. contains_quad (f t) q || b) (contains_quad-flat_map-any f ts q)

-- A member with a property.
pub any_term_witness :
    (f : Term → Bool) (ts : List Term)
    → any f ts ≡ true
    → (t : Term) × (contains_term ts t ≡ true) × (f t ≡ true)
any_term_witness f [] h = absurd (cc)
any_term_witness f (u ∷ ts) h = elim (Bool-cases (f u)) [
  | inl here ↦ (u, ground (arith, term_eq_refl u), here)
  | inr other ↦
      let (t, there, k) = any_term_witness f ts (ground (arith, h, other)) in
      (t, ground (arith, there), k)
]

pub any_of_contains_term :
    (f : Term → Bool) (ts : List Term) (t : Term)
    → contains_term ts t ≡ true
    → f t ≡ true
    → any f ts ≡ true
any_of_contains_term f [] t h k = cc
any_of_contains_term f (u ∷ ts) t h k = ground (arith, term_eq_iff u t, any_of_contains_term f ts t)

-- A list with no member, and one with a single member.
pub nil_of_none_contained : (ts : List Term) → ((t : Term) → contains_term ts t ≡ false) → ts ≡ []
nil_of_none_contained [] h = refl
nil_of_none_contained (u ∷ ts) h = absurd (ground (arith, h u, term_eq_refl u))

pub singleton_of_contained :
    (ts : List Term) (x : Term)
    → IsDistinct ts
    → ((t : Term) → contains_term ts t ≡ term_eq x t)
    → ts ≡ x ∷ []
singleton_of_contained [] x d h = absurd (ground (arith, h x, term_eq_refl x))
singleton_of_contained (u ∷ ts) x (fresh, d) h =
    let same : x ≡ u = ground (arith, h u, term_eq_refl u, term_eq_iff x u) in
    let rest : ts ≡ [] =
      nil_of_none_contained ts
        λ t. ground (arith, h t, fresh, same, term_eq_iff x t, term_eq_iff u t) in
    ground (arith, same, rest)

pub contains-map_subject :
    (qs : List Quad) (q : Quad)
    → contains_quad qs q ≡ true
    → contains_term (map (λ r. r.subject) qs) q.subject ≡ true
contains-map_subject [] q h = cc
contains-map_subject (r ∷ qs) q h =
    ground (arith, quad_eq_iff r q, term_eq_refl q.subject, contains-map_subject qs q)

abbrev matching : List Quad → Option Term → Option Term → Option Term → List Quad
matching qs a b c = filter (λ q. fits a q.subject && (fits b q.predicate && fits c q.object)) qs

abbrev pub list_store : QuadStore
list_store = record {
  State = List Quad;
  has = contains_quad;
  get_quads = matching;
  get_subjects = λ qs p o. distinct (map (λ q. q.subject) (matching qs none p o));
  get_predicates = λ qs a o. distinct (map (λ q. q.predicate) (matching qs a none o));
  get_objects = λ qs a p. distinct (map (λ q. q.object) (matching qs a p none));
  add_quads = λ s qs. s ++ qs;
  remove_quads = λ s qs. filter (λ q. not (contains_quad qs q)) s;
  has-add_quads = λ s qs q. any-append (λ r. quad_eq r q) s qs;
  has-remove_quads = λ s qs q. contains-filter (λ r. not (contains_quad qs r)) s q;
  contains-get_quads = λ s a b c q. contains-filter _ s q;
  contains-get_subjects = λ s p o t. contains-distinct _ t ∙ any-map _ (matching s none p o) t;
  contains-get_predicates = λ s a o t. contains-distinct _ t ∙ any-map _ (matching s a none o) t;
  contains-get_objects = λ s a p t. contains-distinct _ t ∙ any-map _ (matching s a p none) t;
  get_objects-IsDistinct = λ s a p. distinct-IsDistinct (map (λ q. q.object) (matching s a p none));
}
