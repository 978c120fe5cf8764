-- ===== src/Policies/Namespaced/Grouping.antt =====
-- Each authorizer is asked just for the part of the query that is routed to it.
use user_managed_access.Prelude.{
  List, [], ◌∷◌, ◌++◌, Bool, true, false, if◌then◌else◌, Bool-cases, inl, inr, ℕ, nat_beq, ◌≡◌,
  refl, sym, ◌∙◌, filter, append_assoc, append-nil, arith,
}
use user_managed_access.Http.{Outcome, ok, fail, >>=-eq-ok}
use user_managed_access.Storage.{KeyValueStorage}
use user_managed_access.Views.{Query, Registration}
use user_managed_access.Policies.Namespaced.{Namespaces, Groups, add_to_group, route, group}

-- The query that a group map holds for an authorizer.
abbrev pub queries_of : Groups → ℕ → List Query
queries_of [] a = []
queries_of ((b, qs) ∷ groups) a = if nat_beq b a then qs else queries_of groups a

abbrev is_routed : Outcome ℕ → ℕ → Bool
is_routed (ok b) a = nat_beq b a
is_routed (fail e) a = false

queries_of-add_to_group :
    (groups : Groups) (b a : ℕ) (q : Query)
    → queries_of (add_to_group groups b q) a
      ≡ queries_of groups a ++ (if nat_beq b a then q ∷ [] else [])
unfolding add_to_group
queries_of-add_to_group [] b a q = ground arith
queries_of-add_to_group ((c, qs) ∷ groups) b a q = elim (Bool-cases (nat_beq c b)) [
  | inl same ↦ elim (Bool-cases (nat_beq c a)) [
    | inl here ↦ let mine : nat_beq b a ≡ true = ground (arith, same, here) in rw (same, here, mine)
    | inr there ↦
        let other : nat_beq b a ≡ false = ground (arith, same, there) in
        rw (same, there, other) (sym (append-nil (queries_of groups a)))
  ]
  | inr differs ↦ elim (Bool-cases (nat_beq c a)) [
    | inl here ↦
        let other : nat_beq b a ≡ false = ground (arith, differs, here) in
        rw (differs, here, other) (sym (append-nil qs))
    | inr there ↦ rw (differs, there) (queries_of-add_to_group groups b a q)
  ]
]

extend :
    (here : Bool) (before : List Query) (q : Query) (after : List Query)
    → before ++ ((if here then q ∷ [] else []) ++ after)
      ≡ before ++ (if here then q ∷ after else after)
extend true before q after = refl
extend false before q after = refl

module _ (K : KeyValueStorage Registration) (n : Namespaces) (registrations : K.State) where
  -- The entries of a query that are routed to the authorizer.
  abbrev pub routed_to : ℕ → List Query → List Query
  routed_to a = filter (λ q. is_routed (route K n registrations q) a)

  queries_of-group :
      (query : List Query) (groups result : Groups) (a : ℕ)
      → group K n registrations query groups ≡ ok result
      → queries_of result a ≡ queries_of groups a ++ routed_to a query
  unfolding group
  queries_of-group [] groups result a h =
      let same : groups ≡ result = cc in rw (← same) (sym (append-nil (queries_of groups a)))
  queries_of-group (q ∷ query) groups result a h =
      let (b, routed, rest) = >>=-eq-ok (route K n registrations q) _ h in
      queries_of-group query (add_to_group groups b q) result a rest
      ∙ rw (queries_of-add_to_group groups b a q, routed, append_assoc)
          (extend (nat_beq b a) (queries_of groups a) q (routed_to a query))

  -- Grouping puts each entry of the query, in order, under the authorizer that it is routed to, and
  -- nothing else under any.
  pub queries_of-group_lem :
      (query : List Query) (groups : Groups)
      → group K n registrations query [] ≡ ok groups
      → (a : ℕ) → queries_of groups a ≡ routed_to a query
  queries_of-group_lem query groups h a = queries_of-group query [] groups a h
