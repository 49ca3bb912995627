-- ===== src/Table/Once.antt =====
-- Keys in the parts of a list of rows, for the tables in memory.
use bananabreadwasm.Prelude.{
  ℕ, zero, suc, ◌≡◌, refl, Bool, false, List, [], ◌∷◌, any, select, take, drop, arith,
}
use bananabreadwasm.Text.{Text, text_eq}
use bananabreadwasm.Table.{Once}

module _ {Row : Type 0} (key : Row → Text) where
  pub any-part :
      (i : Text) (f : Row → Bool) (rs : List Row)
      → any (λ x. text_eq (key x) i) rs ≡ false
      → any (λ x. text_eq (key x) i) (select f rs) ≡ false
  any-part i f [] h = refl
  any-part i f (q ∷ rs) h = ground (arith, any-part i f rs)

  any-take :
      (i : Text) (n : ℕ) (rs : List Row)
      → any (λ x. text_eq (key x) i) rs ≡ false
      → any (λ x. text_eq (key x) i) (take n rs) ≡ false
  any-take i zero rs h = refl
  any-take i (suc n) [] h = refl
  any-take i (suc n) (q ∷ rs) h = ground (arith, any-take i n rs)

  pub Once-take : (n : ℕ) (rs : List Row) → Once key rs → Once key (take n rs)
  Once-take zero rs h = tt
  Once-take (suc n) [] h = tt
  Once-take (suc n) (q ∷ rs) (new, h) = (any-take (key q) n rs new, Once-take n rs h)

  pub Once-drop : (n : ℕ) (rs : List Row) → Once key rs → Once key (drop n rs)
  Once-drop zero rs h = h
  Once-drop (suc n) [] h = tt
  Once-drop (suc n) (q ∷ rs) (new, h) = Once-drop n rs h
