-- ===== src/Lifecycle.antt =====
-- The life of a player's row in dev/src/index.js, as a machine of phases: the player plays, or the
-- stake was lost to a killer, or it is returned, and a settlement that failed may be tried again.
pub mod Match
pub mod Admission
pub mod Retry
pub mod Deletion
pub mod Sequence
use bananabreadwasm.Prelude.{
  ℕ, ◌≡◌, refl, subst, sym, ap, ◌∙◌, ◌⊎◌, Bool, true, false, Option, none, some, arith,
  if◌then◌else◌, Bool-cases, inl, inr,
}
use bananabreadwasm.Text.{Text, text_eq, text_eq_iff, text_eq_refl}
use bananabreadwasm.Result.{Result, ok, err}
use bananabreadwasm.Rows.{
  Game, Player, PlayerStatus, alive, dead, refund_processing, refund_pending, refund_failed, left,
  SettlementStatus, unset, processing, withheld, pending, paid, failed,
}
use bananabreadwasm.Settlement.{Payout}
use bananabreadwasm.Host.{Host, World}
use bananabreadwasm.Account.Around.{Rest}

-- A stake is lost with the status of its reward, or returned with the status of its refund.
pub data Phase : Type 0 where
  playing : Phase
  lost returned : SettlementStatus → Phase

abbrev phase_at : PlayerStatus → SettlementStatus → SettlementStatus → Phase
phase_at alive payout refund = playing
phase_at dead payout refund = lost payout
phase_at _ payout refund = returned refund

abbrev pub phase_of : Player → Phase
phase_of p = phase_at p.status p.payout_status p.refund_status

-- A payment that the wallet was asked for: it may have thrown, or answered in one of three ways.
abbrev pub is_tried : SettlementStatus → Bool
is_tried processing = true
is_tried pending = true
is_tried paid = true
is_tried failed = true
is_tried _ = false

abbrev pub is_rewarded : SettlementStatus → Bool
is_rewarded unset = false
is_rewarded _ = true

-- What one settlement does.
pub data Move : Phase → Phase → Type 0 where
  killed : (s : SettlementStatus) → is_rewarded s ≡ true → Move playing (lost s)
  expired : (s : SettlementStatus) → is_tried s ≡ true → Move playing (returned s)
  reward_retried : (s : SettlementStatus) → is_tried s ≡ true → Move (lost failed) (lost s)
  refund_retried : (s : SettlementStatus) → is_tried s ≡ true → Move (returned failed) (returned s)

pub data Reaches (a : Phase) : Phase → Type 0 where
  here : Reaches a a
  next : {b c : Phase} → Reaches a b → Move b c → Reaches a c

pub Reaches-trans : {a b c : Phase} → Reaches a b → Reaches b c → Reaches a c
Reaches-trans r here = r
Reaches-trans r (next s m) = next (Reaches-trans r s) m

-- A row in a phase makes a move.
pub Reaches-move : (p : Player) (a c : Phase) → phase_of p ≡ a → Move a c → Reaches (phase_of p) c
Reaches-move p a c at m = rw at (next here m)

-- The two rows are of one admission.
abbrev pub IsSamePlayer : Player → Player → Type 0
IsSamePlayer p q =
    (q.id ≡ p.id)
    × (q.game_id ≡ p.game_id)
    × (q.name ≡ p.name)
    × (q.ln_address ≡ p.ln_address)
    × (q.payment_hash ≡ p.payment_hash)
    × (q.player_token ≡ p.player_token)
    × (q.slot ≡ p.slot)
    × (q.paid_amount ≡ p.paid_amount)

abbrev pub Advances : Player → Player → Type 0
Advances p q = IsSamePlayer p q × Reaches (phase_of p) (phase_of q)

pub Advances-refl : (p : Player) → Advances p p
Advances-refl p = ((refl, refl, refl, refl, refl, refl, refl, refl), here)

pub Advances-trans : (p q r : Player) → Advances p q → Advances q r → Advances p r
Advances-trans p q r (same, first) (same', second) =
    (ground (arith, same, same'), Reaches-trans first second)

module _ {h : Host} where
  -- Every stored row stays, and advances.
  abbrev pub Evolves : World h → World h → Type 0
  Evolves w w' =
      (i : Text) (p : Player)
      → h.players.get i w.players ≡ some p
      → (q : Player) × (h.players.get i w'.players ≡ some q) × Advances p q

  pub same-Evolves : (w w' : World h) → w'.players ≡ w.players → Evolves w w'
  same-Evolves w w' same i p stored = (p, rw same stored, Advances-refl p)

  pub Evolves-trans : (w w1 w2 : World h) → Evolves w w1 → Evolves w1 w2 → Evolves w w2
  Evolves-trans w w1 w2 first second i p stored =
      let (q, found, early) = first i p stored in
      let (r, last, late) = second i q found in (r, last, Advances-trans p q r early late)

  -- One row is written, and it advances if it was stored.
  pub save-Evolves :
      (row : Player) (w w' : World h)
      → w'.players ≡ h.players.set row w.players
      → ((p : Player) → h.players.get row.id w.players ≡ some p → Advances p row)
      → Evolves w w'
  save-Evolves row w w' players own i p stored = elim (Bool-cases (text_eq row.id i)) [
    | inl mine ↦
        let same : row.id ≡ i = (text_eq_iff row.id i).0 mine in
        (row, ground (arith, players, h.players.get_set i row w.players), own p (rw same stored))
    | inr other ↦ (p, ground (arith, players, h.players.get_set i row w.players), Advances-refl p)
  ]

  -- A second write of a row is as good as one.
  twice-Evolves :
      (first row : Player) (w w' : World h)
      → row.id ≡ first.id
      → w'.players ≡ h.players.set row (h.players.set first w.players)
      → ((p : Player) → h.players.get row.id w.players ≡ some p → Advances p row)
      → Evolves w w'
  twice-Evolves first row w w' same players own i p stored =
      let mid = h.players.set first w.players in
      elim (Bool-cases (text_eq row.id i)) [
        | inl mine ↦
            let home : row.id ≡ i = (text_eq_iff row.id i).0 mine in
            (row, ground (arith, players, h.players.get_set i row mid), own p (rw home stored))
        | inr other ↦ (
          p,
          ground (
            arith,
            players,
            same,
            h.players.get_set i row mid,
            h.players.get_set i first w.players,
          ),
          Advances-refl p,
        )
      ]

  -- The writes of a settlement: the row is locked, and written again if the wallet answered.
  pub Rest-Evolves :
      (game : Game) (locked : Player) (settled : Payout → Player) (w : World h)
      (done : Result Payout × World h) (w' : World h)
      → done.1.players ≡ h.players.set locked w.players
      → Rest h game settled done w'
      → ((p : Player) → h.players.get locked.id w.players ≡ some p → Advances p locked)
      → ((x : Payout)
          → done.0 ≡ ok x
          → ((settled x).id ≡ locked.id)
            × ((p : Player) → h.players.get locked.id w.players ≡ some p → Advances p (settled x)))
      → Evolves w w'
  Rest-Evolves game locked settled w (r, mid) w' players (inl (e, threw, same)) own each =
      save-Evolves locked w w' (rw same players) own
  Rest-Evolves game locked settled w (r, mid) w' players (inr (x, answer, row, log, kept)) own
        each =
      let (same, advances) = each x answer in
      twice-Evolves locked (settled x) w w' same (rw row (ap (h.players.set (settled x)) players))
        (λ p found. advances p (rw (← same) found))

  -- The same, of a row that was stored.
  pub Rest-Evolves-stored :
      (game : Game) (old locked : Player) (settled : Payout → Player) (w : World h)
      (done : Result Payout × World h) (w' : World h)
      → done.1.players ≡ h.players.set locked w.players
      → Rest h game settled done w'
      → h.players.get locked.id w.players ≡ some old
      → Advances old locked
      → ((x : Payout) → done.0 ≡ ok x → ((settled x).id ≡ locked.id) × Advances old (settled x))
      → Evolves w w'
  Rest-Evolves-stored game old locked settled w done w' players rest stored lock each =
      Rest-Evolves game locked settled w done w' players rest
        (λ p found. of_old p locked found lock)
        (λ x answer. ((each x answer).0, λ p found. of_old p (settled x) found (each x answer).1))
    where
      of_old :
          (p row : Player)
          → h.players.get locked.id w.players ≡ some p
          → Advances old row
          → Advances p row
      of_old p row found a =
          let same : old ≡ p = ground (arith, stored, found) in subst (λ v. Advances v row) same a
