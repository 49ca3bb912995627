-- ===== src/Lifecycle/Admission.antt =====
-- Rows at the admissions of dev/src/index.js: by a payment and by the gateway.
use bananabreadwasm.Prelude.{
  suc, subst, ◌≡◌, refl, Option, none, some, arith, Bool-cases, Option-cases, inl, inr, length, leb,
}
use bananabreadwasm.Text.{Text, codes}
use bananabreadwasm.Result.{ok, Result-cases}
use bananabreadwasm.Js.{Value}
use bananabreadwasm.Normalize.{parse_json_object}
use bananabreadwasm.Rows.{Game, Player, alive, refund_processing}
use bananabreadwasm.Players.{max_players, make_player, alive_players_for_game, next_slot}
use bananabreadwasm.Settlement.{apply_refund, refund_player, refund_request}
use bananabreadwasm.Host.{Host, World, time_at}
use bananabreadwasm.Handlers.Admission.{
  Payment, admission_of, payment_of, refuse_admission, admit_payment, settle_admission,
  record_payment, record_bananabreadwasm_payment,
}
use bananabreadwasm.Handlers.Match.{admit_call, enter_arena, admit_bananabreadwasm_player}
use bananabreadwasm.Safety.Admission.{
  recorded_before-world, admit_payment-players, payment_of-world, connected_row,
  enter_arena-players, admit_call-row, admit_call-world,
}
use bananabreadwasm.Account.Around.{pay_player-Asks}
use bananabreadwasm.Account.Admission.{refuse_admission-Rest}
use bananabreadwasm.Lifecycle.{Advances, here, Evolves, same-Evolves, save-Evolves, Rest-Evolves}

module _ (h : Host) where
  refuse_admission-Evolves :
      (p : Payment) (game : Game) (w : World h)
      → h.players.get p.payment_hash w.players ≡ none
      → Evolves w (refuse_admission h p game w).1
  unfolding make_player apply_refund
  refuse_admission-Evolves p game w new =
      let refused = make_player (admission_of h p game 0 refund_processing) (time_at h w.ticks) in
      let asked : World h = record w {
        ticks = suc w.ticks;
        players = h.players.set refused w.players;
      } in
      let reason = codes "Arena filled before payment settled." in
      Rest-Evolves game refused (apply_refund refused) w (refund_player h game refused reason asked)
        _ (pay_player-Asks h (refund_request game refused reason) asked).1
        (refuse_admission-Rest h p game w) (λ q found. absurd (ground (arith, new, found)))
        (λ x answer. (refl, λ q found. absurd (ground (arith, new, found))))

  settle_admission-Evolves :
      (p : Payment) (game : Game) (known : Option Player) (w : World h)
      → h.players.get p.payment_hash w.players ≡ known
      → Evolves w (settle_admission h p game known w).1
  unfolding settle_admission make_player
  settle_admission-Evolves p game (some existing) w found =
      rw (recorded_before-world h game existing w) (same-Evolves w w refl)
  settle_admission-Evolves p game none w new =
      elim (Bool-cases (leb max_players (length (alive_players_for_game h game.id w)))) [
        | inl full ↦
            let refused : (settle_admission h p game none w).1 ≡ (refuse_admission h p game w).1 =
              ground arith in
            rw refused (refuse_admission-Evolves p game w new)
        | inr room ↦
            let row =
              make_player (admission_of h p game (next_slot h game.id w) alive)
                (time_at h w.ticks) in
            let admitted : (settle_admission h p game none w).1 ≡ (admit_payment h p game w).1 =
              ground arith in
            rw admitted (
              save-Evolves row w (admit_payment h p game w).1 (admit_payment-players h p game w)
                (λ q found. absurd (ground (arith, new, found))))
      ]

  record_payment-Evolves : (p : Payment) (w : World h) → Evolves w (record_payment h p w).1
  unfolding record_payment
  record_payment-Evolves p w = elim (Option-cases (h.games.get p.game_id w.games)) [
    | inl missing ↦
        let same : (record_payment h p w).1 ≡ w = ground arith in rw same (same-Evolves w w refl)
    | inr (game, arena) ↦
        let settled : (record_payment h p w).1
            ≡ (settle_admission h p game (h.players.get p.payment_hash w.players) w).1 =
          ground arith in
        rw settled (settle_admission-Evolves p game (h.players.get p.payment_hash w.players) w refl)
  ]

  pub record_bananabreadwasm_payment-Evolves :
      (input : Value) (w : World h) → Evolves w (record_bananabreadwasm_payment h input w).1
  unfolding record_bananabreadwasm_payment
  record_bananabreadwasm_payment-Evolves input w =
      elim (Result-cases (parse_json_object h.engine input)) [
        | inl (e, threw) ↦
            let same : (record_bananabreadwasm_payment h input w).1 ≡ w = ground arith in
            rw same (same-Evolves w w refl)
        | inr (event, parsed) ↦ elim (Result-cases (payment_of h event w).0) [
          | inl (e, threw) ↦
              let same : (record_bananabreadwasm_payment h input w).1 ≡ w =
                ground (arith, payment_of-world h event w) in
              rw same (same-Evolves w w refl)
          | inr (p, read) ↦
              let recorded : (record_bananabreadwasm_payment h input w).1
                  ≡ (record_payment h p w).1 =
                ground (arith, payment_of-world h event w) in
              rw recorded (record_payment-Evolves p w)
        ]
      ]

  enter_arena-Evolves :
      (game : Game) (token : Text) (p : Player) (w : World h)
      → h.players.get p.id w.players ≡ some p
      → Evolves w (enter_arena h game token p w).1
  enter_arena-Evolves game token p w stored =
      save-Evolves (connected_row h p w) w (enter_arena h game token p w).1
        (enter_arena-players h game token p w)
        (λ q found.
          let same : p ≡ q = ground (arith, stored, found) in
          subst (λ v. Advances v (connected_row h p w)) same
            ((refl, refl, refl, refl, refl, refl, refl, refl), here))

  pub admit_bananabreadwasm_player-Evolves :
      (input : Value) (w : World h) → Evolves w (admit_bananabreadwasm_player h input w).1
  unfolding admit_bananabreadwasm_player
  admit_bananabreadwasm_player-Evolves input w = elim (Result-cases (admit_call h input w).0) [
    | inl (e, threw) ↦
        let same : (admit_bananabreadwasm_player h input w).1 ≡ w =
          ground (arith, admit_call-world h input w) in
        rw same (same-Evolves w w refl)
    | inr (c, read) ↦
        let called : admit_call h input w ≡ (ok c, w) =
          ground (arith, admit_call-world h input w) in
        let entered : (admit_bananabreadwasm_player h input w).1
            ≡ (enter_arena h c.game c.token c.player w).1 =
          ground arith in
        let row = (admit_call-row h input w w c called).0 in
        rw entered (enter_arena-Evolves c.game c.token c.player w row)
  ]
