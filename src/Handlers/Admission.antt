-- ===== src/Handlers/Admission.antt =====
-- Admission in dev/src/index.js: a join makes an invoice, and its payment makes a player or, in a
-- full arena, a refund.
use bananabreadwasm.Prelude.{
  ℕ, ◌/◌, false, not, Option, none, some, [], ◌∷◌, ◌++◌, String, length, leb, if◌then◌else◌,
}
use bananabreadwasm.Text.{Text, codes, text_eq, is_empty, or_text}
use bananabreadwasm.Result.{
  throw_if, admissions_disabled, arena_inactive, arena_full, payment_hash_required,
}
use bananabreadwasm.Js.{
  Value, Number, nan, finite, str, obj, Fields, end, get_field, member, or_value, number_of, whole,
}
use bananabreadwasm.Normalize.{
  clean_text, required_text, either_field, normalize_ln_address, parse_json_object,
}
use bananabreadwasm.Rows.{Game, Player, PlayerStatus, alive, refund_processing}
use bananabreadwasm.Players.{
  or_number, max_players, Admission, make_player, get_game, alive_players_for_game, next_slot,
  with_fresh_player_count, update_game_count,
}
use bananabreadwasm.Settlement.{Payout, refund_player, apply_refund}
use bananabreadwasm.Views.{PublicGame, public_game, PublicPlayer, private_player}
use bananabreadwasm.Host.{
  Host, Exec, Invoice, InvoiceRequest, pure, lift, gets, now, random_id, create_invoice_public,
  save_player, find_player, ◌>>=◌, ◌>>◌,
}
use bananabreadwasm.Handlers.Config.{get_settings}

pub record JoinInvoice : Type 0 where
  pub player_token : Text
  pub invoice : Invoice

-- The result of `recordBananabreadwasmPayment`; the refund is there in a full arena only.
pub record Recorded : Type 0 where
  pub game : PublicGame
  pub player : PublicPlayer
  pub status : PlayerStatus
  pub refund : Option Payout

-- What a settled invoice says of the admission.
pub record Payment : Type 0 where
  pub payment_hash : Text
  pub game_id : Text
  pub ln_address : Text
  pub player_name : Text
  pub player_token : Text
  -- The whole sats of the event; 0 if it names no amount.
  pub sats : ℕ

-- `event.payment?.key`
abbrev payment_field : String → Fields → Value
payment_field key event = member key (get_field "payment" event)

-- `event.extra?.extra_bananabreadwasm || event.payment?.extra?.extra_bananabreadwasm || {}`
abbrev extra_of : Fields → Value
extra_of event =
    or_value (member "extra_bananabreadwasm" (get_field "extra" event))
      (or_value (member "extra_bananabreadwasm" (payment_field "extra" event)) (obj end))

-- `extra.key || event.extra?.key || event.payment?.extra?.key`
abbrev extra_field : String → Fields → Value
extra_field key event =
    or_value (member key (extra_of event))
      (or_value (member key (get_field "extra" event)) (member key (payment_field "extra" event)))

-- `Math.trunc(Math.abs(n) / 1000)`, where NaN counts as 0: both are falsy.
abbrev sats_of : Number → ℕ
sats_of nan = 0
sats_of (finite neg m d) = whole m d / 1000

module _ (h : Host) where
  unfoldable pub event_payment_hash : Fields → Text
  unfolding or_value
  event_payment_hash event =
      clean_text h.engine
        (or_value (get_field "payment_hash" event) (
          or_value (get_field "paymentHash" event)
            (or_value (payment_field "payment_hash" event) (payment_field "paymentHash" event))))
        256

  unfoldable pub join_bananabreadwasm_game : Value → Exec h JoinInvoice
  unfolding get_game get_settings alive_players_for_game random_id create_invoice_public
  join_bananabreadwasm_game input = do
    request ← lift (parse_json_object h.engine input)
    game_id ← lift (required_text h.engine (get_field "gameId" request) "gameId" 128)
    game ← get_game h game_id
    settings ← get_settings h
    lift (throw_if (not settings.enabled) admissions_disabled)
    lift (throw_if (not (text_eq game.status (codes "active"))) arena_inactive)
    live ← gets (alive_players_for_game h game.id)
    lift (throw_if (leb max_players (length live)) arena_full)
    ln_address ←
        lift (normalize_ln_address h.engine (either_field "lnAddress" "ln_address" request))
    let player_name = or_text (clean_text h.engine (get_field "name" request) 18) (codes "PLAYER")
    player_token ← random_id h (codes "player")
    let asked : InvoiceRequest = record {
      source_id = game.id;
      amount = game.join_amount;
      memo = codes "BananaBread Arena entry for " ++ player_name;
      extra =
          ("game_id", game.id)
          ∷ ("ln_address", ln_address)
          ∷ ("player_name", player_name)
          ∷ ("player_token", player_token)
          ∷ [];
    }
    invoice ← create_invoice_public h asked
    pure (record { player_token = player_token; invoice = invoice })

  -- The first lines of `recordBananabreadwasmPayment`, up to the read of the arena, and the sats
  -- of `paidAmount`.
  unfoldable pub payment_of : Fields → Exec h Payment
  unfolding event_payment_hash
  payment_of event = do
    let payment_hash = event_payment_hash event
    lift (throw_if (is_empty payment_hash) payment_hash_required)
    ln_address ← lift (normalize_ln_address h.engine (extra_field "ln_address" event))
    pure (record {
      payment_hash = payment_hash;
      game_id = clean_text h.engine (extra_field "game_id" event) 128;
      ln_address = ln_address;
      player_name =
          or_text (clean_text h.engine (extra_field "player_name" event) 18) (codes "PLAYER");
      player_token =
          clean_text h.engine (or_value (extra_field "player_token" event) (str payment_hash)) 128;
      sats = sats_of (
          number_of h.engine (
            or_value (get_field "amount" event)
              (or_value (payment_field "amount" event) (Value.num (finite false 0 0)))));
    })

  abbrev pub admission_of : Payment → Game → ℕ → PlayerStatus → Admission
  admission_of p game slot status = record {
    payment_hash = p.payment_hash;
    game = game;
    ln_address = p.ln_address;
    player_name = p.player_name;
    player_token = p.player_token;
    slot = slot;
    status = status;
    paid_amount = or_number p.sats game.join_amount;
  }

  -- The player was recorded by an earlier delivery of the event.
  unfoldable pub recorded_before : Game → Player → Exec h Recorded
  unfolding with_fresh_player_count
  recorded_before game existing = do
    fresh ← gets (with_fresh_player_count h game)
    player ← lift (private_player h.engine existing game)
    pure (record {
      game = public_game fresh;
      player = player;
      status = existing.status;
      refund = none;
    })

  -- The arena filled before the payment settled.
  unfoldable pub refuse_admission : Payment → Game → Exec h Recorded
  unfolding now with_fresh_player_count
  refuse_admission p game = do
    at ← now h
    let refused : Player = make_player (admission_of p game 0 refund_processing) at
    save_player h refused
    payout ← refund_player h game refused (codes "Arena filled before payment settled.")
    let refunded = apply_refund refused payout
    save_player h refunded
    fresh ← gets (with_fresh_player_count h game)
    player ← lift (private_player h.engine refunded game)
    pure (record {
      game = public_game fresh;
      player = player;
      status = refunded.status;
      refund = some payout;
    })

  unfoldable pub admit_payment : Payment → Game → Exec h Recorded
  unfolding now next_slot update_game_count
  admit_payment p game = do
    slot ← gets (next_slot h game.id)
    at ← now h
    let player : Player = make_player (admission_of p game slot alive) at
    save_player h player
    updated ← update_game_count h game
    shown ← lift (private_player h.engine player game)
    pure (record { game = public_game updated; player = shown; status = alive; refund = none })

  -- What becomes of a payment for an arena that exists.
  unfoldable pub settle_admission : Payment → Game → Option Player → Exec h Recorded
  settle_admission p game (some existing) = recorded_before game existing
  settle_admission p game none = do
    live ← gets (alive_players_for_game h game.id)
    if leb max_players (length live) then refuse_admission p game else admit_payment p game

  -- The call from the read of the arena on.
  unfoldable pub record_payment : Payment → Exec h Recorded
  unfolding get_game
  record_payment p = do
    game ← get_game h p.game_id
    existing ← find_player h p.payment_hash
    settle_admission p game existing

  unfoldable pub record_bananabreadwasm_payment : Value → Exec h Recorded
  record_bananabreadwasm_payment input = do
    event ← lift (parse_json_object h.engine input)
    p ← payment_of event
    record_payment p
