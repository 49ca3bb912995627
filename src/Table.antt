-- ===== src/Table.antt =====
-- A table of the host's storage, which keeps rows by their ids. The host is not part of the
-- repository: a table is an interface, its operations those that dev/src/lnbits-sdk.js calls and
-- its laws what the extension relies on.
pub mod Memory
pub mod Once
use bananabreadwasm.Prelude.{
  ℕ, ◌+◌, ◌≤◌, ◌≡◌, Bool, true, false, Option, none, some, List, [], ◌∷◌, All, any, length, min,
  if◌then◌else◌,
}
use bananabreadwasm.Text.{Text, text_eq}

-- The options of `getPaginated`. The equations of its field `filters` are one test.
pub record Query (Row : Type 0) : Type 0 where
  pub filter : Row → Bool
  pub search : Text
  pub search_fields : List Text
  pub sort_by : Text
  pub descending : Bool
  pub limit : ℕ
  pub offset : ℕ

abbrev pub hit : Bool → ℕ
hit true = 1
hit false = 0

-- How many rows, none or one, are replaced and passed a test.
abbrev pub hit_of {ℓ} : {Row : Type ℓ} → (Row → Bool) → Option Row → ℕ
hit_of f none = 0
hit_of f (some r) = hit (f r)

-- What a row that is replaced counts for.
abbrev pub amount_of {ℓ} : {Row : Type ℓ} → (Row → ℕ) → Option Row → ℕ
amount_of f none = 0
amount_of f (some r) = f r

-- No two rows of a list have one key.
abbrev pub Once : {Row : Type 0} (key : Row → Text) → List Row → Type 0
Once key [] = Unit
Once key (r ∷ rs) = (any (λ x. text_eq (key x) (key r)) rs ≡ false) × Once key rs

pub record Table (Row : Type 0) (key : Row → Text) : Type 1 where
  pub State : Type 0
  pub get : Text → State → Option Row
  pub set : Row → State → State
  pub delete : Text → State → State
  pub page : Query Row → State → List Row
  pub total : Query Row → State → ℕ
  -- The number of stored rows that pass a test; no operation of the host.
  pub count : (Row → Bool) → State → ℕ
  -- The sum of an amount over the stored rows; no operation of the host.
  pub sum : (Row → ℕ) → State → ℕ
  pub get_key : (i : Text) (r : Row) (s : State) → get i s ≡ some r → key r ≡ i
  pub get_set :
      (i : Text) (r : Row) (s : State)
      → get i (set r s) ≡ (if text_eq (key r) i then some r else get i s)
  pub get_delete :
      (i j : Text) (s : State) → get i (delete j s) ≡ (if text_eq j i then none else get i s)
  pub count_set :
      (f : Row → Bool) (r : Row) (s : State)
      → count f (set r s) + hit_of f (get (key r) s) ≡ count f s + hit (f r)
  pub count_delete : (f : Row → Bool) (i : Text) (s : State) → count f (delete i s) ≤ count f s
  pub sum_set :
      (f : Row → ℕ) (r : Row) (s : State)
      → sum f (set r s) + amount_of f (get (key r) s) ≡ sum f s + f r
  pub sum_delete : (f : Row → ℕ) (i : Text) (s : State) → sum f (delete i s) ≤ sum f s
  -- A page holds stored rows that pass its filter.
  pub page_rows :
      (q : Query Row) (s : State)
      → All (λ r. (q.filter r ≡ true) × (get (key r) s ≡ some r)) (page q s)
  -- It holds no row twice.
  pub page_once : (q : Query Row) (s : State) → Once key (page q s)
  -- The first page of a query with no search text has as many rows as there are, up to its limit.
  pub page_length :
      (q : Query Row) (s : State)
      → q.search ≡ []
      → q.offset ≡ 0
      → length (page q s) ≡ min q.limit (count q.filter s)
  -- Below its limit it has every row.
  pub page_complete :
      (q : Query Row) (i : Text) (r : Row) (s : State)
      → q.search ≡ []
      → q.offset ≡ 0
      → count q.filter s ≤ q.limit
      → get i s ≡ some r
      → q.filter r ≡ true
      → any (λ x. text_eq (key x) i) (page q s) ≡ true
