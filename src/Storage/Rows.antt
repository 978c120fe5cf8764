-- ===== src/Storage/Rows.antt =====
-- An indexed storage that keeps its entries in a list and has positions as identifiers: the interface
-- can be met.
use user_managed_access.Prelude.{
  some, List, [], ◌∷◌, ◌++◌, map, Bool, true, ◌≡◌, refl, ap, ℕ, zero, suc, ◌+◌, length, head?,
  if◌then◌else◌, arith, Bool-cases, inl, inr,
}
use user_managed_access.Storage.Indexed.{IndexedStorage, count_of}

module _ {V : Type 0} where
  abbrev next_row : ℕ × V → ℕ × V
  next_row (i, e) = (suc i, e)

  abbrev find_rows : List V → (V → Bool) → List (ℕ × V)
  find_rows [] test = []
  find_rows (v ∷ rows) test =
      let others = map next_row (find_rows rows test) in if test v then (0, v) ∷ others else others

  abbrev set_row : List V → ℕ → V → List V
  set_row [] i v = []
  set_row (w ∷ rows) zero v = v ∷ rows
  set_row (w ∷ rows) (suc i) v = w ∷ set_row rows i v

  abbrev remove_row : List V → ℕ → List V
  remove_row [] i = []
  remove_row (w ∷ rows) zero = rows
  remove_row (w ∷ rows) (suc i) = w ∷ remove_row rows i

  length-map_next : (xs : List (ℕ × V)) → length (map next_row xs) ≡ length xs
  length-map_next [] = refl
  length-map_next (x ∷ xs) = ap suc (length-map_next xs)

  head-map_next :
      (xs : List (ℕ × V)) (i : ℕ) (e : V)
      → head? (map next_row xs) ≡ some (i, e)
      → (j : ℕ) × (i ≡ suc j) × (head? xs ≡ some (j, e))
  head-map_next [] i e h = absurd (ground (arith, h))
  head-map_next ((j, w) ∷ xs) i e h = (j, ground (arith, h), ground (arith, h))

  pub find_rows-true :
      (rows : List V) (test : V → Bool) (i : ℕ) (e : V)
      → head? (find_rows rows test) ≡ some (i, e)
      → test e ≡ true
  find_rows-true [] test i e h = absurd (ground (arith, h))
  find_rows-true (v ∷ rows) test i e h = elim (Bool-cases (test v)) [
    | inl here ↦ let same : v ≡ e = ground (arith, h, here) in rw (← same) here
    | inr there ↦
        let (j, k, found) = head-map_next (find_rows rows test) i e (rw there at h) in
        find_rows-true rows test j e found
  ]

  length-find_rows :
      (v : V) (rows : List V) (test : V → Bool)
      → length (find_rows (v ∷ rows) test) ≡ length (find_rows rows test) + count_of (test v)
  length-find_rows v rows test = ground (arith, length-map_next (find_rows rows test))

  pub length-add_row :
      (rows : List V) (v : V) (test : V → Bool)
      → length (find_rows (rows ++ v ∷ []) test) ≡ length (find_rows rows test) + count_of (test v)
  length-add_row [] v test = ground arith
  length-add_row (w ∷ rows) v test = ground (
    arith,
    length-find_rows w rows test,
    length-find_rows w (rows ++ v ∷ []) test,
    length-add_row rows v test,
  )

  pub length-set_row :
      (rows : List V) (query : V → Bool) (i : ℕ) (e v : V) (test : V → Bool)
      → head? (find_rows rows query) ≡ some (i, e)
      → length (find_rows (set_row rows i v) test) + count_of (test e)
        ≡ length (find_rows rows test) + count_of (test v)
  length-set_row [] query i e v test h = absurd (ground (arith, h))
  length-set_row (w ∷ rows) query i e v test h = elim (Bool-cases (query w)) [
    | inl here ↦
        let same : w ≡ e = ground (arith, h, here) in
        let first : i ≡ 0 = ground (arith, h, here) in
        rw (first, ← same)
          (ground (arith, length-find_rows w rows test, length-find_rows v rows test))
    | inr there ↦
        let (j, k, found) = head-map_next (find_rows rows query) i e (rw there at h) in
        rw k (
          ground (
            arith,
            length-find_rows w rows test,
            length-find_rows w (set_row rows j v) test,
            length-set_row rows query j e v test found,
          ))
  ]

  pub length-remove_row :
      (rows : List V) (query : V → Bool) (i : ℕ) (e : V) (test : V → Bool)
      → head? (find_rows rows query) ≡ some (i, e)
      → length (find_rows (remove_row rows i) test) + count_of (test e)
        ≡ length (find_rows rows test)
  length-remove_row [] query i e test h = absurd (ground (arith, h))
  length-remove_row (w ∷ rows) query i e test h = elim (Bool-cases (query w)) [
    | inl here ↦
        let same : w ≡ e = ground (arith, h, here) in
        let first : i ≡ 0 = ground (arith, h, here) in
        rw (first, ← same) (ground (arith, length-find_rows w rows test))
    | inr there ↦
        let (j, k, found) = head-map_next (find_rows rows query) i e (rw there at h) in
        rw k (
          ground (
            arith,
            length-find_rows w rows test,
            length-find_rows w (remove_row rows j) test,
            length-remove_row rows query j e test found,
          ))
  ]

abbrev pub row_storage : (V : Type 0) → IndexedStorage V
row_storage V = record {
  Key = ℕ;
  State = List V;
  find = find_rows;
  create = λ rows v. rows ++ v ∷ [];
  set = set_row;
  delete = remove_row;
  find-true = find_rows-true;
  length-create = length-add_row;
  length-set = length-set_row;
  length-delete = length-remove_row;
}
