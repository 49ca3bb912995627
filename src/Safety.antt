-- ===== src/Safety.antt =====
pub mod Calls
pub mod Admission
pub mod Loop
pub mod Sequence
-- The states of the players' table of dev/src/index.js in which every row's status agrees with its
-- settlement columns, and no arena has more than five live players or two of them at one slot.
use bananabreadwasm.Prelude.{
  ℕ, ◌+◌, ◌≤◌, ◌<◌, ◌≡◌, ◌≢◌, refl, subst, Bool, true, false, ◌⊎◌, Option, none, some, arith,
  Bool-cases, inl, inr, if◌then◌else◌,
}
use bananabreadwasm.Text.{Text, text_eq, text_eq_iff, text_eq_refl}
use bananabreadwasm.Rows.{
  Player, PlayerStatus, alive, dead, refund_processing, refund_pending, refund_failed, left,
  is_alive, SettlementStatus, unset, processing, withheld, pending, paid, failed,
}
use bananabreadwasm.Table.{hit, hit_of}
use bananabreadwasm.Players.{alive_in}
use bananabreadwasm.Settlement.{Payout}
use bananabreadwasm.Host.{Host, World}

-- The settlement columns that a player's status allows, payout before refund. A live stake is
-- untouched, a dead one has a payout and no refund, and one that left has a refund and no payout.
abbrev pub allows : PlayerStatus → SettlementStatus → SettlementStatus → Bool
allows alive unset unset = true
allows dead unset unset = false
allows dead _ unset = true
allows refund_processing unset unset = true
allows refund_processing unset processing = true
allows refund_pending unset pending = true
allows refund_failed unset failed = true
allows left unset paid = true
allows _ _ _ = false

abbrev pub IsConsistent : Player → Type 0
IsConsistent p = allows p.status p.payout_status p.refund_status ≡ true

module _ {h : Host} where
  pub record IsSafe (w : World h) : Type 0 where
    pub consistent : (i : Text) (p : Player) → h.players.get i w.players ≡ some p → IsConsistent p
    pub within : (g : Text) → h.players.count (alive_in g) w.players ≤ 5
    pub placed :
        (i : Text) (p : Player)
        → h.players.get i w.players ≡ some p
        → is_alive p.status ≡ true
        → (1 ≤ p.slot) × (p.slot ≤ 5)
    -- Two live players of one arena with one slot are one.
    pub apart :
        (i j : Text) (p q : Player)
        → h.players.get i w.players ≡ some p
        → h.players.get j w.players ≡ some q
        → is_alive p.status ≡ true
        → is_alive q.status ≡ true
        → p.game_id ≡ q.game_id
        → p.slot ≡ q.slot
        → i ≡ j

  -- A row that is not alive may always be written.
  pub save-IsSafe :
      (w : World h) (p : Player)
      → IsConsistent p
      → is_alive p.status ≡ false
      → IsSafe w
      → IsSafe (record w { players = h.players.set p w.players })
  save-IsSafe w p c gone s = record {
    consistent = λ i q e. grind (arith, h.players.get_set, s.consistent);
    within = λ g. ground (arith, h.players.count_set (alive_in g) p w.players, s.within g);
    placed = λ i q e live. grind (arith, h.players.get_set, s.placed);
    apart = λ i j a b fa fb la lb game slot. grind (arith, h.players.get_set, s.apart);
  }

  -- So may a new version of a live row.
  pub resave-IsSafe :
      (w : World h) (p q : Player)
      → h.players.get p.id w.players ≡ some q
      → IsConsistent p
      → p.game_id ≡ q.game_id
      → p.status ≡ q.status
      → p.slot ≡ q.slot
      → IsSafe w
      → IsSafe (record w { players = h.players.set p w.players })
  resave-IsSafe w p q found c game status slot s = record {
    consistent = λ i q e. grind (arith, h.players.get_set, s.consistent);
    within = λ g. ground (arith, h.players.count_set (alive_in g) p w.players, s.within g);
    placed = λ i a e live. grind (arith, h.players.get_set, s.placed);
    apart = λ i j a b fa fb la lb home seat. grind (arith, h.players.get_set, s.apart, text_eq_iff);
  }

  -- A live row may be added to an arena with fewer than five, at a slot of its own.
  pub admit-IsSafe :
      (w : World h) (p : Player)
      → IsConsistent p
      → h.players.count (alive_in p.game_id) w.players < 5
      → (1 ≤ p.slot) × (p.slot ≤ 5)
      → ((j : Text) (q : Player)
          → h.players.get j w.players ≡ some q
          → is_alive q.status ≡ true
          → q.game_id ≡ p.game_id
          → q.slot ≢ p.slot)
      → IsSafe w
      → IsSafe (record w { players = h.players.set p w.players })
  admit-IsSafe w p c room seat own s = record {
    consistent = λ i q e. grind (arith, h.players.get_set, s.consistent);
    within = λ g. elim (Bool-cases (text_eq p.game_id g)) [
      | inl home ↦
          subst (λ i. h.players.count (alive_in i) (h.players.set p w.players) ≤ 5)
            ((text_eq_iff p.game_id g).0 home)
            (ground (arith, h.players.count_set (alive_in p.game_id) p w.players))
      | inr away ↦ ground (arith, h.players.count_set (alive_in g) p w.players, s.within g)
    ];
    placed = λ i q e live. grind (arith, h.players.get_set, s.placed);
    apart = λ i j a b fa fb la lb home same.
        grind (arith, h.players.get_set, s.apart, text_eq_iff, own);
  }

  -- Only the players' table matters.
  pub players-IsSafe : (w w' : World h) → w'.players ≡ w.players → IsSafe w → IsSafe w'
  players-IsSafe w w' e s = record {
    consistent = λ i p f. s.consistent i p (rw (← e) f);
    within = λ g. rw e (s.within g);
    placed = λ i p f. s.placed i p (rw (← e) f);
    apart = λ i j p q f f'. s.apart i j p q (rw (← e) f) (rw (← e) f');
  }

  -- The players after a row was written, and written again unless the wallet threw in between.
  abbrev pub Writes : Player → (Payout → Player) → World h → World h → Type 0
  Writes locked settled w w' =
      (w'.players ≡ h.players.set locked w.players)
      ⊎ ((p : Payout) × (w'.players ≡ h.players.set (settled p) (h.players.set locked w.players)))

  pub Writes-IsSafe :
      (locked : Player) (settled : Payout → Player) (w w' : World h)
      → Writes locked settled w w'
      → IsConsistent locked
      → is_alive locked.status ≡ false
      → ((p : Payout) → IsConsistent (settled p) × (is_alive (settled p).status ≡ false))
      → IsSafe w
      → IsSafe w'
  Writes-IsSafe locked settled w w' how c gone each s =
      let w1 : World h = record w { players = h.players.set locked w.players } in
      let s1 = save-IsSafe w locked c gone s in
      elim how [
        | inl once ↦ players-IsSafe w1 w' once s1
        | inr (p, twice) ↦
            let w2 : World h = record w1 { players = h.players.set (settled p) w1.players } in
            players-IsSafe w2 w' twice (save-IsSafe w1 (settled p) (each p).0 (each p).1 s1)
      ]
