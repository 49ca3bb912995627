-- ===== src/Account.antt =====
-- The stakes of the players: what they paid in, what was sent from the arenas' wallets, and what
-- dev/src/index.js still owes.
pub mod Around
pub mod Kill
pub mod Disconnect
pub mod Admission
pub mod Retry
pub mod Round
pub mod Loop
pub mod Others
pub mod Sequence
use bananabreadwasm.Prelude.{
  ℕ, suc, ◌+◌, ◌≤◌, ◌<◌, ◌≡◌, refl, ap, ◌∙◌, ◌⊎◌, Bool, true, false, not, ◌==◌, Option, none, some,
  List, [], ◌∷◌, arith, if◌then◌else◌, Bool-cases, inl, inr,
}
use bananabreadwasm.Text.{Text, is_empty, text_eq, text_eq_refl}
use bananabreadwasm.Result.{Error, Result, ok, err, Result-cases}
use bananabreadwasm.Rows.{Game, Player, is_alive, is_failed}
use bananabreadwasm.Players.{or_number}
use bananabreadwasm.Table.{amount_of}
use bananabreadwasm.Settlement.{Payout, pay_player, answer_of, settlement_status}
use bananabreadwasm.Host.{Host, World, PayRequest, PayResponse, pay_lnurl}

abbrev pub part : Bool → ℕ → ℕ
part b n = if b then n else 0

-- What the arena still owes for a row: the stake of a live player, a reward that failed, a refund that
-- failed.
unfoldable pub owed : Player → ℕ
owed p =
    part (is_alive p.status) p.paid_amount
    + part (is_failed p.payout_status) p.payout_amount
    + part (is_failed p.refund_status) (or_number p.refund_amount p.paid_amount)

-- The amount of a request that came back: the wallet answered with a failure, or was not asked.
abbrev pub returned : Payout → ℕ → ℕ
returned payout amount = part (is_failed (settlement_status payout)) amount

-- Did the wallet answer with a failure? A call of the wallet that threw may have paid.
abbrev is_failure : ℕ → Result PayResponse → Bool
is_failure amount (ok r) = is_failed (settlement_status (answer_of amount r))
is_failure amount (err e) = false

module _ (h : Host) where
  -- The total of the requests, the last one first, that the wallet did not answer with a failure.
  unfoldable pub sent : List PayRequest → ℕ
  unfolding settlement_status
  sent [] = 0
  sent (r ∷ past) = part (not (is_failure r.amount (h.pay past r))) r.amount + sent past

  -- What was sent, and what is still owed.
  unfoldable pub book : World h → ℕ
  unfolding sent owed
  book w = sent w.payments + h.players.sum owed w.players

  -- Every arena has an entry price, and every player paid.
  pub record IsFunded (w : World h) : Type 0 where
    pub priced : (i : Text) (g : Game) → h.games.get i w.games ≡ some g → 0 < g.join_amount
    pub staked : (i : Text) (p : Player) → h.players.get i w.players ≡ some p → 0 < p.paid_amount

  -- What a payment adds to what was sent, unless the wallet answers with a failure.
  abbrev pub Sends : ℕ → Result Payout → World h → World h → Type 0
  Sends amount (ok x) w w' = sent w'.payments + returned x amount ≡ sent w.payments + amount
  Sends amount (err e) w w' = sent w'.payments ≡ sent w.payments + amount

  pub pay_player-Sends :
      (r : PayRequest) (w : World h) → Sends r.amount (pay_player h r w).0 w (pay_player h r w).1
  unfolding pay_player pay_lnurl sent settlement_status
  pay_player-Sends r w = elim (Bool-cases (r.amount == 0)) [
    | inl nothing ↦ rw nothing (omega arith)
    | inr some_sats ↦ elim (Bool-cases (is_empty r.wallet_id)) [
      | inl no_purse ↦ rw (some_sats, no_purse) (omega arith)
      | inr purse ↦ elim (Bool-cases (is_empty r.lnurl)) [
        | inl nowhere ↦ rw (some_sats, purse, nowhere) (omega arith)
        | inr somewhere ↦ elim (Result-cases (h.pay w.payments r)) [
          | inl (e, threw) ↦ rw (some_sats, purse, somewhere, threw) (ground (arith, threw))
          | inr (x, answer) ↦ rw (some_sats, purse, somewhere, answer) (ground (arith, answer))
        ]
      ]
    ]
  ]

  -- The writes of a settlement around its payment: the row is locked, the wallet is asked for an amount,
  -- and the row is written again, unless the wallet threw.
  abbrev pub Pays : Player → (Payout → Player) → ℕ → World h → World h → Type 0
  Pays locked settled amount w w' =
      ((w'.players ≡ h.players.set locked w.players)
        × (sent w'.payments ≡ sent w.payments + amount))
      ⊎ ((x : Payout) × (w'.players ≡ h.players.set (settled x) (h.players.set locked w.players))
          × (sent w'.payments + returned x amount ≡ sent w.payments + amount))

  -- If nothing is owed for the locked row, and the amount for the settled one only if it came back, then
  -- what was owed for the row before makes up for the amount.
  pub Pays-book :
      (locked : Player) (settled : Payout → Player) (amount : ℕ) (w w' : World h)
      → owed locked ≡ 0
      → ((x : Payout) → (owed (settled x) ≤ returned x amount) × ((settled x).id ≡ locked.id))
      → Pays locked settled amount w w'
      → book w' + amount_of owed (h.players.get locked.id w.players) ≤ book w + amount
  unfolding book
  Pays-book locked settled amount w w' free each (inl (players, total)) =
      rw players (omega (arith, h.players.sum_set owed locked w.players, free, total))
  Pays-book locked settled amount w w' free each (inr (x, players, total)) =
      let mid = h.players.set locked w.players in
      let (back, same) = each x in
      let found : h.players.get (settled x).id mid ≡ some locked =
        rw same (h.players.get_set locked.id locked w.players ∙ rw (text_eq_refl locked.id) refl) in
      let held : amount_of owed (h.players.get (settled x).id mid) ≡ 0 =
        ap (amount_of owed) found ∙ free in
      rw players (
        omega (
          arith,
          h.players.sum_set owed locked w.players,
          h.players.sum_set owed (settled x) mid,
          free,
          total,
          back,
          held,
        ))

  -- A row that is written when nothing is sent.
  pub save-book :
      (row : Player) (w w' : World h)
      → w'.players ≡ h.players.set row w.players
      → w'.payments ≡ w.payments
      → book w' + amount_of owed (h.players.get row.id w.players) ≡ book w + owed row
  unfolding book
  save-book row w w' players payments =
      rw (players, payments) (omega (arith, h.players.sum_set owed row w.players))

  pub same-book :
      (w w' : World h) → w'.players ≡ w.players → w'.payments ≡ w.payments → book w' ≡ book w
  unfolding book
  same-book w w' players payments = rw (players, payments) refl

  pub Sends-ok :
      (amount : ℕ) (m : Result Payout) (x : Payout) (w w' : World h)
      → m ≡ ok x
      → Sends amount m w w'
      → sent w'.payments + returned x amount ≡ sent w.payments + amount
  Sends-ok amount (ok y) x w w' e s = ground (arith, s)
  Sends-ok amount (err y) x w w' e s = cc

  pub Sends-err :
      (amount : ℕ) (m : Result Payout) (y : Error) (w w' : World h)
      → m ≡ err y
      → Sends amount m w w'
      → sent w'.payments ≡ sent w.payments + amount
  Sends-err amount (err z) y w w' e s = s
  Sends-err amount (ok z) y w w' e s = cc
