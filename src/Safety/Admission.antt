-- ===== src/Safety/Admission.antt =====
-- The players' table at the admissions of dev/src/index.js, by a payment and by the gateway.
use bananabreadwasm.Prelude.{
  suc, ◌<◌, ◌≡◌, refl, Option, none, some, arith, Bool-cases, Option-cases, inl, inr, if◌then◌else◌,
  length, leb,
}
use bananabreadwasm.Text.{Text, codes}
use bananabreadwasm.Result.{ok, Result-cases}
use bananabreadwasm.Js.{Value, Fields}
use bananabreadwasm.Normalize.{parse_json_object}
use bananabreadwasm.Rows.{Game, Player, alive, refund_processing}
use bananabreadwasm.Players.{
  alive_in, make_player, max_players, alive_players_for_game, next_slot, get_game,
  require_server_secret, require_alive_player,
}
use bananabreadwasm.Players.Lookup.{require_alive_player-eq-ok}
use bananabreadwasm.Players.Capacity.{
  length-alive_players_for_game, next_slot-placed, next_slot-apart,
}
use bananabreadwasm.Settlement.{pay_player, apply_refund, refund_request}
use bananabreadwasm.Host.{Host, World, time_at}
use bananabreadwasm.Handlers.Admission.{
  Payment, admission_of, payment_of, recorded_before, refuse_admission, admit_payment,
  settle_admission, record_payment, record_bananabreadwasm_payment,
}
use bananabreadwasm.Handlers.Match.{
  AdmitCall, is_stamped, admit_call, enter_arena, admit_bananabreadwasm_player,
}
use bananabreadwasm.Safety.{
  IsSafe, resave-IsSafe, Writes, Writes-IsSafe, admit-IsSafe, players-IsSafe,
}
use bananabreadwasm.Safety.Calls.{apply_refund-IsConsistent}

module _ (h : Host) where
  pub refuse_admission-Writes :
      (p : Payment) (game : Game) (w : World h)
      → let locked = make_player (admission_of h p game 0 refund_processing) (time_at h w.ticks) in
        Writes locked (apply_refund locked) w (refuse_admission h p game w).1
  unfolding refuse_admission pay_player
  refuse_admission-Writes p game w =
      let locked = make_player (admission_of h p game 0 refund_processing) (time_at h w.ticks) in
      let asked : World h = record w {
        ticks = suc w.ticks;
        players = h.players.set locked w.players;
      } in
      elim (Result-cases
        (pay_player h (refund_request game locked (codes "Arena filled before payment settled."))
          asked).0) [ inl (e, threw) ↦ inl (ground arith) | inr (p, paid) ↦ inr (p, ground arith) ]

  pub admit_payment-players :
      (p : Payment) (game : Game) (w : World h)
      → (admit_payment h p game w).1.players
        ≡ h.players.set
            (make_player (admission_of h p game (next_slot h game.id w) alive) (time_at h w.ticks))
            w.players
  unfolding admit_payment
  admit_payment-players p game w = ground arith

  pub recorded_before-world :
      (game : Game) (existing : Player) (w : World h) → (recorded_before h game existing w).1 ≡ w
  unfolding recorded_before
  recorded_before-world game existing w = ground arith

  settle_admission-IsSafe :
      (p : Payment) (game : Game) (known : Option Player) (w : World h)
      → IsSafe w
      → IsSafe (settle_admission h p game known w).1
  unfolding settle_admission make_player
  settle_admission-IsSafe p game (some existing) w s = rw (recorded_before-world game existing w) s
  settle_admission-IsSafe p game none w s =
      elim (Bool-cases (leb max_players (length (alive_players_for_game h game.id w)))) [
        | inl full ↦
            let locked =
              make_player (admission_of h p game 0 refund_processing) (time_at h w.ticks) in
            let refused : (settle_admission h p game none w).1 ≡ (refuse_admission h p game w).1 =
              ground arith in
            rw refused (
              Writes-IsSafe locked (apply_refund locked) w _ (refuse_admission-Writes p game w) refl
                refl (apply_refund-IsConsistent locked refl) s)
        | inr room ↦
            let row =
              make_player (admission_of h p game (next_slot h game.id w) alive)
                (time_at h w.ticks) in
            let few : h.players.count (alive_in game.id) w.players < 5 =
              ground (arith, length-alive_players_for_game h game.id w) in
            let admitted : (settle_admission h p game none w).1 ≡ (admit_payment h p game w).1 =
              ground arith in
            rw admitted (
              players-IsSafe (record w { players = h.players.set row w.players }) _
                (admit_payment-players p game w)
                (admit-IsSafe w row refl few (next_slot-placed h game.id w few)
                  (λ j q stored. next_slot-apart h game.id j q w few stored) s))
      ]

  pub payment_of-world : (event : Fields) (w : World h) → (payment_of h event w).1 ≡ w
  unfolding payment_of
  payment_of-world event w = ground arith

  record_payment-IsSafe : (p : Payment) (w : World h) → IsSafe w → IsSafe (record_payment h p w).1
  unfolding record_payment
  record_payment-IsSafe p w s = elim (Option-cases (h.games.get p.game_id w.games)) [
    | inl missing ↦ let same : (record_payment h p w).1 ≡ w = ground arith in rw same s
    | inr (game, arena) ↦
        let settled : (record_payment h p w).1
            ≡ (settle_admission h p game (h.players.get p.payment_hash w.players) w).1 =
          ground arith in
        rw settled (settle_admission-IsSafe p game (h.players.get p.payment_hash w.players) w s)
  ]

  pub record_bananabreadwasm_payment-IsSafe :
      (input : Value) (w : World h) → IsSafe w → IsSafe (record_bananabreadwasm_payment h input w).1
  unfolding record_bananabreadwasm_payment
  record_bananabreadwasm_payment-IsSafe input w s =
      elim (Result-cases (parse_json_object h.engine input)) [
        | inl (e, threw) ↦
            let same : (record_bananabreadwasm_payment h input w).1 ≡ w = ground arith in rw same s
        | inr (event, parsed) ↦ elim (Result-cases (payment_of h event w).0) [
          | inl (e, threw) ↦
              let same : (record_bananabreadwasm_payment h input w).1 ≡ w =
                ground (arith, payment_of-world event w) in
              rw same s
          | inr (p, read) ↦
              let recorded : (record_bananabreadwasm_payment h input w).1
                  ≡ (record_payment h p w).1 =
                ground (arith, payment_of-world event w) in
              rw recorded (record_payment-IsSafe p w s)
        ]
      ]

  pub admit_call-row :
      (input : Value) (w w' : World h) (c : AdmitCall)
      → admit_call h input w ≡ (ok c, w')
      → (h.players.get c.player.id w.players ≡ some c.player) × (w' ≡ w)
  unfolding admit_call get_game require_server_secret require_alive_player
  admit_call-row input w w' c e = grind (arith, require_alive_player-eq-ok)

  -- The row as it is written.
  abbrev pub connected_row : Player → World h → Player
  connected_row p w = record p {
    connected_at = if is_stamped p.connected_at then p.connected_at else some (time_at h w.ticks);
    disconnected_at = none;
    last_seen_at = some (time_at h (if is_stamped p.connected_at then w.ticks else suc w.ticks));
  }

  pub enter_arena-players :
      (game : Game) (token : Text) (p : Player) (w : World h)
      → (enter_arena h game token p w).1.players ≡ h.players.set (connected_row p w) w.players
  unfolding enter_arena
  enter_arena-players game token p w = ground arith

  enter_arena-IsSafe :
      (game : Game) (token : Text) (p : Player) (w : World h)
      → h.players.get p.id w.players ≡ some p
      → IsSafe w
      → IsSafe (enter_arena h game token p w).1
  enter_arena-IsSafe game token p w stored s =
      let row = connected_row p w in
      players-IsSafe (record w { players = h.players.set row w.players }) _
        (enter_arena-players game token p w)
        (resave-IsSafe w row p stored (s.consistent p.id p stored) refl refl refl s)

  pub admit_call-world : (input : Value) (w : World h) → (admit_call h input w).1 ≡ w
  unfolding admit_call get_game require_server_secret require_alive_player
  admit_call-world input w = ground arith

  pub admit_bananabreadwasm_player-IsSafe :
      (input : Value) (w : World h) → IsSafe w → IsSafe (admit_bananabreadwasm_player h input w).1
  unfolding admit_bananabreadwasm_player
  admit_bananabreadwasm_player-IsSafe input w s = elim (Result-cases (admit_call h input w).0) [
    | inl (e, threw) ↦
        let same : (admit_bananabreadwasm_player h input w).1 ≡ w =
          ground (arith, admit_call-world input w) in
        rw same s
    | inr (c, read) ↦
        let called : admit_call h input w ≡ (ok c, w) = ground (arith, admit_call-world input w) in
        let entered : (admit_bananabreadwasm_player h input w).1
            ≡ (enter_arena h c.game c.token c.player w).1 =
          ground arith in
        rw entered
          (enter_arena-IsSafe c.game c.token c.player w (admit_call-row input w w c called).0 s)
  ]
