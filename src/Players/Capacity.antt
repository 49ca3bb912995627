-- ===== src/Players/Capacity.antt =====
-- The page of live players that dev/src/index.js measures an arena by, and the slot that it gives.
use bananabreadwasm.Prelude.{
  ℕ, zero, suc, ◌+◌, ◌≤◌, ◌<◌, ◌≡◌, refl, ◌⊎◌, inl, Bool, true, false, ◌&&◌, List, any, map, length,
  min, arith, ◌==◌, ap, ltb, leb, [], ◌∷◌, if◌then◌else◌, Bool-cases, inr, All, some, ◌≢◌,
}
use bananabreadwasm.Text.{Text, text_eq, text_eq_iff}
use bananabreadwasm.Rows.{Player, is_alive}
use bananabreadwasm.Players.{
  alive_in, by_paid_at, max_players, alive_players_for_game, free_slot, next_slot,
}
use bananabreadwasm.Host.{Host, World}

module _ (h : Host) where
  -- The page has as many rows as there are live players, up to five.
  pub length-alive_players_for_game :
      (g : Text) (w : World h)
      → length (alive_players_for_game h g w) ≡ min 5 (h.players.count (alive_in g) w.players)
  unfolding alive_players_for_game
  length-alive_players_for_game g w =
      h.players.page_length (by_paid_at (alive_in g) max_players) w.players refl refl

abbrev pub is_taken : List ℕ → ℕ → Bool
is_taken used slot = any (λ u. u == slot) used

-- Of `slot`, `slot + 1`, …, as many as there are rounds, all are in use.
abbrev pub all_taken : List ℕ → ℕ → ℕ → Bool
all_taken used slot zero = true
all_taken used slot (suc rounds) = is_taken used slot && all_taken used (suc slot) rounds

free_slot_bounds :
    (used : List ℕ) (slot rounds : ℕ)
    → ((free_slot used slot rounds ≡ 0) × (all_taken used slot rounds ≡ true))
      ⊎ ((slot ≤ free_slot used slot rounds)
          × (free_slot used slot rounds < slot + rounds)
          × (is_taken used (free_slot used slot rounds) ≡ false))
unfolding free_slot
free_slot_bounds used slot zero = inl (refl, refl)
free_slot_bounds used slot (suc rounds) = ground (arith, free_slot_bounds used (suc slot) rounds)

length-map {ℓ} : {A : Type ℓ} (f : A → ℕ) (xs : List A) → length (map f xs) ≡ length xs
length-map f [] = refl
length-map f (x ∷ xs) = ap suc (length-map f xs)

-- How many of the slots in use are at least `low` and below `high`.
taken_between : List ℕ → ℕ → ℕ → ℕ
taken_between [] low high = 0
taken_between (u ∷ used) low high =
    (if leb low u && ltb u high then 1 else 0) + taken_between used low high

taken_between-length : (used : List ℕ) (low high : ℕ) → taken_between used low high ≤ length used
unfolding taken_between
taken_between-length [] low high = ground arith
taken_between-length (u ∷ used) low high = ground (arith, taken_between-length used low high)

taken_between-suc :
    (used : List ℕ) (low high : ℕ) → taken_between used (suc low) high ≤ taken_between used low high
unfolding taken_between
taken_between-suc [] low high = ground arith
taken_between-suc (u ∷ used) low high = ground (arith, taken_between-suc used low high)

-- A slot that is taken counts.
taken_between-is_taken :
    (used : List ℕ) (low high : ℕ)
    → is_taken used low ≡ true
    → low < high
    → taken_between used (suc low) high < taken_between used low high
unfolding taken_between
taken_between-is_taken [] low high taken some_slots = ground arith
taken_between-is_taken (u ∷ used) low high taken some_slots = elim (Bool-cases (u == low)) [
  | inl here ↦ ground (arith, taken_between-suc used low high)
  | inr later ↦ ground (arith, taken_between-is_taken used low high)
]

all_taken-between :
    (used : List ℕ) (slot rounds : ℕ)
    → all_taken used slot rounds ≡ true
    → rounds ≤ taken_between used slot (slot + rounds)
all_taken-between used slot zero all = ground arith
all_taken-between used slot (suc rounds) all = ground (
  arith,
  all_taken-between used (suc slot) rounds,
  taken_between-is_taken used slot (slot + suc rounds),
)

-- The slots that are tried are not all in use if there are fewer in use than are tried.
some_slot_free :
    (used : List ℕ) (slot rounds : ℕ) → length used < rounds → all_taken used slot rounds ≡ false
some_slot_free used slot rounds few =
    ground
      (arith, all_taken-between used slot rounds, taken_between-length used slot (slot + rounds))

module _ (h : Host) where
  -- The slot of a new player is 1 to 5 and no live player's of the page, or it is 0 and those live
  -- players have taken all five.
  next_slot_bounds :
      (g : Text) (w : World h)
      → let used = map (λ p. p.slot) (alive_players_for_game h g w) in
        ((next_slot h g w ≡ 0) × (all_taken used 1 5 ≡ true))
        ⊎ ((1 ≤ next_slot h g w)
            × (next_slot h g w < 6)
            × (is_taken used (next_slot h g w) ≡ false))
  unfolding next_slot
  next_slot_bounds g w =
      free_slot_bounds (map (λ p. p.slot) (alive_players_for_game h g w)) 1 max_players

  is_taken-listed :
      (j : Text) (q : Player) (ps : List Player) (w : World h)
      → All (λ x. (alive_in q.game_id x ≡ true) × (h.players.get x.id w.players ≡ some x)) ps
      → h.players.get j w.players ≡ some q
      → any (λ x. text_eq x.id j) ps ≡ true
      → is_taken (map (λ x. x.slot) ps) q.slot ≡ true
  is_taken-listed j q [] w rows stored listed = cc
  is_taken-listed j q (x ∷ ps) w (row, rows) stored listed = elim (Bool-cases (text_eq x.id j)) [
    | inl here ↦ ground (arith, text_eq_iff x.id j)
    | inr later ↦ ground (arith, is_taken-listed j q ps w rows stored)
  ]

  -- In an arena with room, a new player's slot is 1 to 5.
  pub next_slot-placed :
      (g : Text) (w : World h)
      → h.players.count (alive_in g) w.players < 5
      → (1 ≤ next_slot h g w) × (next_slot h g w ≤ 5)
  next_slot-placed g w room =
      let used = map (λ p. p.slot) (alive_players_for_game h g w) in
      ground (
        arith,
        next_slot_bounds g w,
        some_slot_free used 1 5,
        length-map (λ p. p.slot) (alive_players_for_game h g w),
        length-alive_players_for_game h g w,
      )

  -- It is no live player's of the arena.
  pub next_slot-apart :
      (g j : Text) (q : Player) (w : World h)
      → h.players.count (alive_in g) w.players < 5
      → h.players.get j w.players ≡ some q
      → is_alive q.status ≡ true
      → q.game_id ≡ g
      → q.slot ≢ next_slot h g w
  unfolding alive_players_for_game
  next_slot-apart g j q w room stored live home same =
      let page = by_paid_at (alive_in g) max_players in
      let passes : alive_in g q ≡ true = ground (arith, text_eq_iff q.game_id g) in
      let few : h.players.count (alive_in g) w.players ≤ 5 = omega arith in
      let listed = h.players.page_complete page j q w.players refl refl few stored passes in
      let rows : All (λ x. (alive_in q.game_id x ≡ true) × (h.players.get x.id w.players ≡ some x))
          (alive_players_for_game h g w) =
        rw home (h.players.page_rows page w.players) in
      let taken = is_taken-listed j q (alive_players_for_game h g w) w rows stored listed in
      ground (arith, next_slot_bounds g w, next_slot-placed g w, taken)
