-- ===== src/Handlers/Effects/Recording.antt =====
-- What dev/src/index.js makes of a payment that it sees for the first time.
use bananabreadwasm.Prelude.{
  ℕ, ◌≤◌, ◌<◌, ◌≡◌, refl, ◌⊎◌, false, none, some, ◌∷◌, arith, Bool-cases, inl, inr, length, leb,
}
use bananabreadwasm.Text.{codes, is_empty, text_eq_refl}
use bananabreadwasm.Rows.{Game, Player, alive, refund_processing, is_alive}
use bananabreadwasm.Players.{
  or_number, max_players, alive_in, make_player, alive_players_for_game, next_slot, get_game,
}
use bananabreadwasm.Players.Capacity.{length-alive_players_for_game}
use bananabreadwasm.Settlement.{Payout, pay_player, apply_refund, refund_request}
use bananabreadwasm.Host.{Host, World, PayRequest, time_at}
use bananabreadwasm.Handlers.Admission.{
  Payment, admission_of, refuse_admission, admit_payment, settle_admission, record_payment,
}
use bananabreadwasm.Safety.{Writes}
use bananabreadwasm.Safety.Admission.{refuse_admission-Writes, admit_payment-players}

-- What was paid: the sats of the event, or the entry price of the arena if it names none.
abbrev pub stake_of : Payment → Game → ℕ
stake_of p game = or_number p.sats game.join_amount

-- The row has the payer and the stake of a payment.
abbrev pub IsPayer : Payment → Game → Player → Type 0
IsPayer p game row =
    (row.game_id ≡ game.id)
    × (row.ln_address ≡ p.ln_address)
    × (row.player_token ≡ p.player_token)
    × (row.paid_amount ≡ stake_of p game)

-- Of a refused row the whole stake is to be returned.
abbrev pub IsRefused : Payment → Game → Player → Type 0
IsRefused p game row =
    IsPayer p game row × (is_alive row.status ≡ false) × (row.refund_amount ≡ stake_of p game)

module _ (h : Host) where
  -- The request for the refund of a payment for a full arena.
  abbrev pub late_request : Payment → Game → World h → PayRequest
  late_request p game w =
      refund_request game
        (make_player (admission_of h p game 0 refund_processing) (time_at h w.ticks))
        (codes "Arena filled before payment settled.")

  Writes-row :
      (T : Player → Type 0) (locked : Player) (settled : Payout → Player) (w w' : World h)
      → T locked
      → ((x : Payout) → T (settled x) × ((settled x).id ≡ locked.id))
      → Writes locked settled w w'
      → (row : Player) × (h.players.get locked.id w'.players ≡ some row) × T row
  Writes-row T locked settled w w' t each (inl once) =
      let own = text_eq_refl locked.id in
      (locked, ground (arith, h.players.get_set locked.id locked w.players, own), t)
  Writes-row T locked settled w w' t each (inr (x, twice)) =
      let own = text_eq_refl locked.id in
      let mid = h.players.set locked w.players in
      let (holds, same) = each x in
      (settled x, ground (arith, h.players.get_set locked.id (settled x) mid, own, same), holds)

  refuse_admission-row :
      (p : Payment) (game : Game) (w : World h)
      → (row : Player) × (h.players.get p.payment_hash (refuse_admission h p game w).1.players
          ≡ some row)
        × IsRefused p game row
  unfolding make_player apply_refund
  refuse_admission-row p game w =
      let locked = make_player (admission_of h p game 0 refund_processing) (time_at h w.ticks) in
      Writes-row (IsRefused p game) locked (apply_refund locked) w (refuse_admission h p game w).1
        ((refl, refl, refl, refl), refl, refl)
        (λ x. (((refl, refl, refl, refl), ground arith, refl), refl))
        (refuse_admission-Writes h p game w)

  refuse_admission-payments :
      (p : Payment) (game : Game) (w : World h)
      → 0 < stake_of p game
      → is_empty game.wallet_id ≡ false
      → is_empty p.ln_address ≡ false
      → (refuse_admission h p game w).1.payments ≡ late_request p game w ∷ w.payments
  unfolding refuse_admission pay_player refund_request make_player
  refuse_admission-payments p game w stake purse address = ground arith

  admit_payment-row :
      (p : Payment) (game : Game) (w : World h)
      → (row : Player) × (h.players.get p.payment_hash (admit_payment h p game w).1.players
          ≡ some row)
        × IsPayer p game row
        × (row.status ≡ alive)
  unfolding make_player
  admit_payment-row p game w =
      let row =
        make_player (admission_of h p game (next_slot h game.id w) alive) (time_at h w.ticks) in
      let stored = h.players.get_set p.payment_hash row w.players in
      (
        row,
        ground (arith, admit_payment-players h p game w, stored, text_eq_refl p.payment_hash),
        (refl, refl, refl, refl),
        refl,
      )

  admit_payment-payments :
      (p : Payment) (game : Game) (w : World h) → (admit_payment h p game w).1.payments ≡ w.payments
  unfolding admit_payment
  admit_payment-payments p game w = ground arith

  -- A payment that is seen for the first time, for a stored arena with a wallet, from a payer with an
  -- address, is booked whatever the wallet does: afterwards there is a row for it with the payer, the
  -- arena and what was paid. If fewer than five players of the arena are alive, the row is alive and
  -- nothing is asked of the wallet. If not, the row is not alive, the whole stake is to be returned,
  -- and the wallet is asked once, for the stake, from the arena's wallet to the payer's address.
  pub new_payment_is_booked :
      (p : Payment) (game : Game) (w : World h)
      → h.games.get p.game_id w.games ≡ some game
      → h.players.get p.payment_hash w.players ≡ none
      → 0 < stake_of p game
      → is_empty game.wallet_id ≡ false
      → is_empty p.ln_address ≡ false
      → let after = (record_payment h p w).1 in
        let live = h.players.count (alive_in game.id) w.players in
        let asked = late_request p game w in
        (row : Player) × (h.players.get p.payment_hash after.players ≡ some row)
        × IsPayer p game row
        × (((live < 5) × (row.status ≡ alive) × (after.payments ≡ w.payments))
            ⊎ ((5 ≤ live)
                × (is_alive row.status ≡ false)
                × (row.refund_amount ≡ stake_of p game)
                × (after.payments ≡ asked ∷ w.payments)
                × (asked.amount ≡ stake_of p game)
                × (asked.wallet_id ≡ game.wallet_id)
                × (asked.lnurl ≡ p.ln_address)))
  unfolding record_payment settle_admission get_game refund_request make_player
  new_payment_is_booked p game w arena new stake purse address =
      let size = length-alive_players_for_game h game.id w in
      elim (Bool-cases (leb max_players (length (alive_players_for_game h game.id w)))) [
        | inl full ↦
            let same : (record_payment h p w).1 ≡ (refuse_admission h p game w).1 = ground arith in
            let (row, stored, (payer, gone, amount)) = refuse_admission-row p game w in
            let log = refuse_admission-payments p game w stake purse address in
            rw same (
              row,
              stored,
              payer,
              inr (ground (arith, size), gone, amount, log, ground arith, refl, refl),
            )
        | inr room ↦
            let same : (record_payment h p w).1 ≡ (admit_payment h p game w).1 = ground arith in
            let (row, stored, payer, live) = admit_payment-row p game w in
            rw same (
              row,
              stored,
              payer,
              inl (ground (arith, size), live, admit_payment-payments p game w),
            )
      ]
