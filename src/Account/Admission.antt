-- ===== src/Account/Admission.antt =====
-- Stakes at an admission in dev/src/index.js: paid in, or, in a full arena, to be returned.
use bananabreadwasm.Prelude.{
  ℕ, suc, ◌<◌, ◌≡◌, refl, Option, none, some, arith, Bool-cases, Option-cases, inl, inr, length,
  leb,
}
use bananabreadwasm.Text.{codes}
use bananabreadwasm.Result.{ok, err, Result-cases}
use bananabreadwasm.Js.{Value}
use bananabreadwasm.Normalize.{parse_json_object}
use bananabreadwasm.Rows.{Game, Player, alive, refund_processing}
use bananabreadwasm.Players.{or_number, max_players, make_player, alive_players_for_game, next_slot}
use bananabreadwasm.Settlement.{apply_refund, refund_player, refund_request}
use bananabreadwasm.Host.{Host, World, lift, time_at, ◌>>=◌}
use bananabreadwasm.Handlers.Admission.{
  Payment, admission_of, payment_of, refuse_admission, admit_payment, settle_admission,
  record_payment, record_bananabreadwasm_payment,
}
use bananabreadwasm.Safety.Admission.{
  recorded_before-world, admit_payment-players, payment_of-world,
}
use bananabreadwasm.Account.{owed, save-book, IsFunded}
use bananabreadwasm.Account.Around.{
  apply_refund-owed, recount, Rest, pay_player-Asks, around, Step, settles, Keeps, Keeps-priced,
  set-staked,
}

-- What a payment brings in: nothing if its arena is gone, or if it was recorded before.
abbrev pub new_stake : Payment → Option Game → Option Player → ℕ
new_stake p (some game) none = or_number p.sats game.join_amount
new_stake p _ _ = 0

module _ (h : Host) where
  pub refuse_admission-Rest :
      (p : Payment) (game : Game) (w : World h)
      → let refused = make_player (admission_of h p game 0 refund_processing) (time_at h w.ticks) in
        let asked : World h = record w {
          ticks = suc w.ticks;
          players = h.players.set refused w.players;
        } in
        Rest h game
          (apply_refund refused)
          (refund_player h game refused (codes "Arena filled before payment settled.") asked)
          (refuse_admission h p game w).1
  unfolding refuse_admission
  refuse_admission-Rest p game w =
      let refused = make_player (admission_of h p game 0 refund_processing) (time_at h w.ticks) in
      let asked : World h = record w {
        ticks = suc w.ticks;
        players = h.players.set refused w.players;
      } in
      elim (Result-cases
        (refund_player h game refused (codes "Arena filled before payment settled.") asked).0) [
          | inl (e, threw) ↦ inl (e, threw, ground arith)
          | inr (x, paid) ↦ inr (x, paid, ground arith, ground arith, inl (ground arith))
        ]

  refuse_admission-Step :
      (p : Payment) (game : Game) (w : World h)
      → h.players.get p.payment_hash w.players ≡ none
      → 0 < game.join_amount
      → IsFunded h w
      → Step h (or_number p.sats game.join_amount) w (refuse_admission h p game w).1
  unfolding make_player owed refund_request
  refuse_admission-Step p game w new price f =
      let refused = make_player (admission_of h p game 0 refund_processing) (time_at h w.ticks) in
      let asked : World h = record w {
        ticks = suc w.ticks;
        players = h.players.set refused w.players;
      } in
      let reason = codes "Arena filled before payment settled." in
      let amount = or_number refused.refund_amount refused.paid_amount in
      settles h game refused (apply_refund refused) amount (or_number p.sats game.join_amount) w
        (refuse_admission h p game w).1
        (around h game refused (apply_refund refused) amount w asked
          (refund_player h game refused reason asked) _ refl refl refl
          (pay_player-Asks h (refund_request game refused reason) asked)
          (refuse_admission-Rest p game w))
        refl (apply_refund-owed refused refl) (ground (arith, new)) (ground arith) price f

  admit_payment-rest :
      (p : Payment) (game : Game) (w : World h)
      → ((admit_payment h p game w).1.payments ≡ w.payments)
        × Keeps h game w (admit_payment h p game w).1
  unfolding admit_payment
  admit_payment-rest p game w =
      let row =
        make_player (admission_of h p game (next_slot h game.id w) alive) (time_at h w.ticks) in
      let saved : World h = record w {
        ticks = suc w.ticks;
        players = h.players.set row w.players;
      } in
      (ground arith, inr (recount h game saved, ground arith, refl))

  admit_payment-Step :
      (p : Payment) (game : Game) (w : World h)
      → h.players.get p.payment_hash w.players ≡ none
      → 0 < game.join_amount
      → IsFunded h w
      → Step h (or_number p.sats game.join_amount) w (admit_payment h p game w).1
  unfolding make_player owed
  admit_payment-Step p game w new price f =
      let row =
        make_player (admission_of h p game (next_slot h game.id w) alive) (time_at h w.ticks) in
      let players = admit_payment-players h p game w in
      let (log, keeps) = admit_payment-rest p game w in
      let w' = (admit_payment h p game w).1 in
      (
        ground (arith, save-book h row w w' players log, new),
        record {
          priced = Keeps-priced h game w w' keeps price f;
          staked = rw players (set-staked h row w.players (ground arith) f.staked);
        },
      )

  settle_admission-Step :
      (p : Payment) (game : Game) (known : Option Player) (w : World h)
      → h.players.get p.payment_hash w.players ≡ known
      → 0 < game.join_amount
      → IsFunded h w
      → Step h (new_stake p (some game) known) w (settle_admission h p game known w).1
  unfolding settle_admission
  settle_admission-Step p game (some existing) w found price f =
      rw (recorded_before-world h game existing w) (omega arith, f)
  settle_admission-Step p game none w new price f =
      elim (Bool-cases (leb max_players (length (alive_players_for_game h game.id w)))) [
        | inl full ↦
            let refused : (settle_admission h p game none w).1 ≡ (refuse_admission h p game w).1 =
              ground arith in
            rw refused (refuse_admission-Step p game w new price f)
        | inr room ↦
            let admitted : (settle_admission h p game none w).1 ≡ (admit_payment h p game w).1 =
              ground arith in
            rw admitted (admit_payment-Step p game w new price f)
      ]

  -- What the recording of an event brings in; nothing if the event is not one of a payment.
  unfoldable pub received : Value → World h → ℕ
  received input w = elim ((lift (parse_json_object h.engine input) >>= payment_of h) w).0 [
    | err e ↦ 0
    | ok p ↦ new_stake p (h.games.get p.game_id w.games) (h.players.get p.payment_hash w.players)
  ]

  record_payment-Step :
      (p : Payment) (w : World h)
      → IsFunded h w
      → Step h
          (new_stake p (h.games.get p.game_id w.games) (h.players.get p.payment_hash w.players))
          w
          (record_payment h p w).1
  unfolding record_payment
  record_payment-Step p w f = elim (Option-cases (h.games.get p.game_id w.games)) [
    | inl missing ↦
        let same : (record_payment h p w).1 ≡ w = ground arith in
        rw (missing, same) (omega arith, f)
    | inr (game, arena) ↦
        let settled : (record_payment h p w).1
            ≡ (settle_admission h p game (h.players.get p.payment_hash w.players) w).1 =
          ground arith in
        rw (arena, settled)
          (settle_admission-Step p game (h.players.get p.payment_hash w.players) w refl
            (f.priced p.game_id game arena) f)
  ]

  pub record_bananabreadwasm_payment-Step :
      (input : Value) (w : World h)
      → IsFunded h w
      → Step h (received input w) w (record_bananabreadwasm_payment h input w).1
  unfolding record_bananabreadwasm_payment received
  record_bananabreadwasm_payment-Step input w f =
      elim (Result-cases (parse_json_object h.engine input)) [
        | inl (e, threw) ↦
            let same : (record_bananabreadwasm_payment h input w).1 ≡ w = ground arith in
            rw same (omega arith, f)
        | inr (event, parsed) ↦ elim (Result-cases (payment_of h event w).0) [
          | inl (e, threw) ↦
              let same : (record_bananabreadwasm_payment h input w).1 ≡ w =
                ground (arith, payment_of-world h event w) in
              rw same (omega arith, f)
          | inr (p, read) ↦
              let recorded : (record_bananabreadwasm_payment h input w).1
                  ≡ (record_payment h p w).1 =
                ground (arith, payment_of-world h event w) in
              let came : received input w
                  ≡ new_stake p (h.games.get p.game_id w.games)
                      (h.players.get p.payment_hash w.players) =
                ground (arith, payment_of-world h event w) in
              rw (recorded, came) (record_payment-Step p w f)
        ]
      ]
