-- ===== src/Table/Memory.antt =====
-- A table in memory: rows in the order of their first insertion, no two of one id. It shows that
-- the laws of `Table` can hold, and runs the tests. It does not sort, and searches for no text.
use bananabreadwasm.Prelude.{
  ℕ, ◌+◌, ◌≤◌, ◌≡◌, refl, Bool, true, false, Option, none, some, List, [], ◌∷◌, All, All-take,
  All-map, All-drop, drop, take_all, any, select, length, length-take, take, min, arith,
  if◌then◌else◌, Bool-cases, inl, inr,
}
use bananabreadwasm.Text.{Text, text_eq, text_eq_iff, text_eq_refl}
use bananabreadwasm.Table.Once.{any-part, Once-take, Once-drop}
use bananabreadwasm.Table.{Table, Query, hit, hit_of, amount_of, Once}

module _ {Row : Type 0} (key : Row → Text) where
  unfoldable pub find : Text → List Row → Option Row
  find i [] = none
  find i (r ∷ rs) = if text_eq (key r) i then some r else find i rs

  unfoldable pub upsert : Row → List Row → List Row
  upsert r [] = r ∷ []
  upsert r (q ∷ rs) = if text_eq (key q) (key r) then r ∷ rs else q ∷ upsert r rs

  unfoldable pub remove : Text → List Row → List Row
  remove i [] = []
  remove i (r ∷ rs) = let rest = remove i rs in if text_eq (key r) i then rest else r ∷ rest

  abbrev pub Distinct : List Row → Type 0
  Distinct [] = Unit
  Distinct (r ∷ rs) = (find (key r) rs ≡ none) × Distinct rs

  pub find-key : (i : Text) (r : Row) (rs : List Row) → find i rs ≡ some r → key r ≡ i
  unfolding find
  find-key i r [] h = ground arith
  find-key i r (q ∷ rs) h = ground (arith, text_eq_iff (key q) i, find-key i r rs)

  pub find-upsert :
      (i : Text) (r : Row) (rs : List Row)
      → find i (upsert r rs) ≡ (if text_eq (key r) i then some r else find i rs)
  unfolding find upsert
  find-upsert i r [] = refl
  find-upsert i r (q ∷ rs) = ground (
    arith,
    text_eq_iff (key q) (key r),
    text_eq_iff (key q) i,
    text_eq_iff (key r) i,
    find-upsert i r rs,
  )

  pub find-remove :
      (i j : Text) (rs : List Row)
      → find i (remove j rs) ≡ (if text_eq j i then none else find i rs)
  unfolding find remove
  find-remove i j [] = ground arith
  find-remove i j (q ∷ rs) =
      ground
        (arith, text_eq_iff (key q) j, text_eq_iff (key q) i, text_eq_iff j i, find-remove i j rs)

  pub upsert-Distinct : (r : Row) (rs : List Row) → Distinct rs → Distinct (upsert r rs)
  unfolding upsert find
  upsert-Distinct r [] h = (refl, tt)
  upsert-Distinct r (q ∷ rs) h = ground (
    arith,
    text_eq_iff (key q) (key r),
    text_eq_iff (key r) (key q),
    find-upsert (key q) r rs,
    upsert-Distinct r rs h.1,
  )

  pub remove-Distinct : (i : Text) (rs : List Row) → Distinct rs → Distinct (remove i rs)
  unfolding remove find
  remove-Distinct i [] h = tt
  remove-Distinct i (q ∷ rs) h = ground (arith, find-remove (key q) i rs, remove-Distinct i rs h.1)

  abbrev pub count_rows : (Row → Bool) → List Row → ℕ
  count_rows f rs = length (select f rs)

  pub count-upsert :
      (f : Row → Bool) (r : Row) (rs : List Row)
      → count_rows f (upsert r rs) + hit_of f (find (key r) rs) ≡ count_rows f rs + hit (f r)
  unfolding upsert find
  count-upsert f r [] = ground arith
  count-upsert f r (q ∷ rs) = ground (arith, count-upsert f r rs)

  pub count-remove :
      (f : Row → Bool) (i : Text) (rs : List Row) → count_rows f (remove i rs) ≤ count_rows f rs
  unfolding remove
  count-remove f i [] = omega arith
  count-remove f i (q ∷ rs) = ground (arith, count-remove f i rs)

  abbrev pub sum_rows : (Row → ℕ) → List Row → ℕ
  sum_rows f [] = 0
  sum_rows f (r ∷ rs) = f r + sum_rows f rs

  pub sum-upsert :
      (f : Row → ℕ) (r : Row) (rs : List Row)
      → sum_rows f (upsert r rs) + amount_of f (find (key r) rs) ≡ sum_rows f rs + f r
  unfolding upsert find
  sum-upsert f r [] = omega arith
  sum-upsert f r (q ∷ rs) = ground (arith, sum-upsert f r rs)

  pub sum-remove :
      (f : Row → ℕ) (i : Text) (rs : List Row) → sum_rows f (remove i rs) ≤ sum_rows f rs
  unfolding remove
  sum-remove f i [] = omega arith
  sum-remove f i (q ∷ rs) = ground (arith, sum-remove f i rs)

  -- A row that is not found is in no part of the list.
  any-find : (i : Text) (rs : List Row) → find i rs ≡ none → any (λ x. text_eq (key x) i) rs ≡ false
  unfolding find
  any-find i [] h = refl
  any-find i (q ∷ rs) h = ground (arith, any-find i rs)

  Once-select : (f : Row → Bool) (rs : List Row) → Distinct rs → Once key (select f rs)
  Once-select f [] h = tt
  Once-select f (q ∷ rs) (new, h) = elim (Bool-cases (f q)) [
    | inl kept ↦ rw kept (any-part key (key q) f rs (any-find (key q) rs new), Once-select f rs h)
    | inr gone ↦ rw gone (Once-select f rs h)
  ]

  abbrev pub IsListed : (Row → Bool) → List Row → Row → Type 0
  IsListed f rs r = (f r ≡ true) × (find (key r) rs ≡ some r)

  IsListed-cons :
      (f : Row → Bool) (q : Row) (rs : List Row)
      → find (key q) rs ≡ none
      → (r : Row) → IsListed f rs r
      → IsListed f (q ∷ rs) r
  unfolding find
  IsListed-cons f q rs new r h = ground (arith, text_eq_iff (key q) (key r))

  select-IsListed :
      (f : Row → Bool) (rs : List Row) → Distinct rs → All (IsListed f rs) (select f rs)
  unfolding find
  select-IsListed f [] h = tt
  select-IsListed f (q ∷ rs) h =
      let later =
        All-map (IsListed f rs) (IsListed f (q ∷ rs)) (IsListed-cons f q rs h.0) (select f rs)
          (select-IsListed f rs h.1) in
      elim (Bool-cases (f q)) [
        | inl listed ↦ rw listed ((listed, rw (text_eq_refl (key q), find)), later)
        | inr other ↦ rw other later
      ]

  any-select :
      (f : Row → Bool) (i : Text) (r : Row) (rs : List Row)
      → find i rs ≡ some r
      → f r ≡ true
      → any (λ x. text_eq (key x) i) (select f rs) ≡ true
  unfolding find
  any-select f i r [] h p = cc
  any-select f i r (q ∷ rs) h p = ground (arith, any-select f i r rs)

  -- The rows, of distinct ids.
  pub record Rows : Type 0 where
    pub rows : List Row
    pub distinct : Distinct rows

  abbrev pub page_of : Query Row → List Row → List Row
  page_of q rs = take q.limit (drop q.offset (select q.filter rs))

  pub page_of-IsListed :
      (q : Query Row) (s : Rows) → All (IsListed q.filter s.rows) (page_of q s.rows)
  page_of-IsListed q s =
      All-take _ q.limit _ (All-drop _ q.offset _ (select-IsListed q.filter s.rows s.distinct))

  pub page_of-Once : (q : Query Row) (s : Rows) → Once key (page_of q s.rows)
  page_of-Once q s =
      Once-take key q.limit _ (Once-drop key q.offset _ (Once-select q.filter s.rows s.distinct))

  pub length-page_of :
      (q : Query Row) (s : Rows)
      → q.search ≡ []
      → q.offset ≡ 0
      → length (page_of q s.rows) ≡ min q.limit (count_rows q.filter s.rows)
  length-page_of q s _ e = rw e (length-take q.limit (select q.filter s.rows))

  pub page_of_complete :
      (q : Query Row) (i : Text) (r : Row) (s : Rows)
      → q.search ≡ []
      → q.offset ≡ 0
      → count_rows q.filter s.rows ≤ q.limit
      → find i s.rows ≡ some r
      → q.filter r ≡ true
      → any (λ x. text_eq (key x) i) (page_of q s.rows) ≡ true
  page_of_complete q i r s _ e fits h p =
      rw (e, take_all q.limit (select q.filter s.rows) fits) (any-select q.filter i r s.rows h p)

  unfoldable pub memory : Table Row key
  unfolding find upsert remove
  memory = record {
    State = Rows;
    get = λ i s. find i s.rows;
    set = λ r s. record { rows = upsert r s.rows; distinct = upsert-Distinct r s.rows s.distinct };
    delete =
        λ i s. record { rows = remove i s.rows; distinct = remove-Distinct i s.rows s.distinct };
    page = λ q s. page_of q s.rows;
    total = λ q s. count_rows q.filter s.rows;
    count = λ f s. count_rows f s.rows;
    sum = λ f s. sum_rows f s.rows;
    get_key = λ i r s. find-key i r s.rows;
    get_set = λ i r s. find-upsert i r s.rows;
    get_delete = λ i j s. find-remove i j s.rows;
    count_set = λ f r s. count-upsert f r s.rows;
    count_delete = λ f i s. count-remove f i s.rows;
    sum_set = λ f r s. sum-upsert f r s.rows;
    sum_delete = λ f i s. sum-remove f i s.rows;
    page_rows = page_of-IsListed;
    page_once = page_of-Once;
    page_length = length-page_of;
    page_complete = page_of_complete;
  }

  abbrev pub empty_rows : Rows
  empty_rows = record { rows = []; distinct = tt }
