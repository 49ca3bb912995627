-- ===== src/Handlers/Once/Payment.antt =====
-- The event of a settled invoice in dev/src/index.js, delivered twice.
use bananabreadwasm.Prelude.{
  ℕ, suc, ◌≡◌, refl, subst, ◌⊎◌, none, some, arith, inl, inr, Option, leb, length, Bool-cases,
  Option-cases,
}
use bananabreadwasm.Text.{text_eq_refl}
use bananabreadwasm.Result.{ok}
use bananabreadwasm.Js.{Value, Fields}
use bananabreadwasm.Normalize.{parse_json_object}
use bananabreadwasm.Rows.{Game, Player, alive, refund_processing}
use bananabreadwasm.Players.{
  max_players, alive_players_for_game, make_player, next_slot, with_fresh_player_count,
}
use bananabreadwasm.Settlement.{Payout, pay_player, apply_refund}
use bananabreadwasm.Views.{PublicPlayer, private_player, public_game}
use bananabreadwasm.Host.{Host, World, lift, time_at, ◌>>=◌}
use bananabreadwasm.Host.Bind.{bind-eq-ok}
use bananabreadwasm.Handlers.Admission.{
  Payment, Recorded, admission_of, payment_of, recorded_before, refuse_admission, admit_payment,
  settle_admission, record_payment, record_bananabreadwasm_payment,
}

module _ (h : Host) where
  -- What an event says is read from the event alone.
  payment_of_pure :
      (event : Fields) (w w1 w' : World h) (p : Payment)
      → payment_of h event w ≡ (ok p, w1)
      → (w1 ≡ w) × (payment_of h event w' ≡ (ok p, w'))
  unfolding payment_of
  payment_of_pure event w w1 w' p e = grind arith

  -- The rows that the three outcomes leave of the player, and of the arena.
  abbrev refused_row : Payment → Game → ℕ → Option Payout → Player
  refused_row p game ticks none =
      make_player (admission_of h p game 0 refund_processing) (time_at h ticks)
  refused_row p game ticks (some payout) =
      apply_refund (make_player (admission_of h p game 0 refund_processing) (time_at h ticks))
        payout

  refuse_admission-rows :
      (p : Payment) (game : Game) (w w' : World h) (r : Recorded)
      → refuse_admission h p game w ≡ (ok r, w')
      → (w'.games ≡ w.games)
        × (h.players.get p.payment_hash w'.players ≡ some (refused_row p game w.ticks r.refund))
        × ((refused_row p game w.ticks r.refund).status ≡ r.status)
        × (private_player h.engine (refused_row p game w.ticks r.refund) game ≡ ok r.player)
  unfolding refuse_admission pay_player make_player apply_refund
  refuse_admission-rows p game w w' r e = grind (arith, h.players.get_set, text_eq_refl)

  abbrev admitted_row : Payment → Game → World h → Player
  admitted_row p game w =
      make_player (admission_of h p game (next_slot h game.id w) alive) (time_at h w.ticks)

  abbrev fresh_arena : Game → World h → World h → Game
  fresh_arena game w w' =
      with_fresh_player_count h (record game { updated_at = time_at h (suc w.ticks) }) w'

  admit_payment-rows :
      (p : Payment) (game : Game) (w w' : World h) (r : Recorded)
      → admit_payment h p game w ≡ (ok r, w')
      → (h.games.get game.id w'.games ≡ some (fresh_arena game w w'))
        × (h.players.get p.payment_hash w'.players ≡ some (admitted_row p game w))
        × ((admitted_row p game w).status ≡ r.status)
        × (private_player h.engine (admitted_row p game w) game ≡ ok r.player)
  unfolding admit_payment make_player
  admit_payment-rows p game w w' r e =
      grind (arith, h.players.get_set, h.games.get_set, text_eq_refl)

  recorded_before-rows :
      (game : Game) (existing : Player) (w w' : World h) (r : Recorded)
      → recorded_before h game existing w ≡ (ok r, w')
      → (w' ≡ w)
        × (existing.status ≡ r.status)
        × (private_player h.engine existing game ≡ ok r.player)
  unfolding recorded_before
  recorded_before-rows game existing w w' r e = grind arith

  -- A payment whose player is stored is answered from the row.
  record_payment_known :
      (p : Payment) (w : World h) (g : Game) (row : Player) (shown : PublicPlayer)
      → h.games.get p.game_id w.games ≡ some g
      → h.players.get p.payment_hash w.players ≡ some row
      → private_player h.engine row g ≡ ok shown
      → record_payment h p w ≡ (
        ok (record {
          game = public_game (with_fresh_player_count h g w);
          player = shown;
          status = row.status;
          refund = none;
        }),
        w,
      )
  unfolding record_payment settle_admission recorded_before
  record_payment_known p w g row shown arena found view = ground arith

  -- What a payment that was recorded leaves behind.
  record IsRecorded (p : Payment) (r : Recorded) (w' : World h) : Type 0 where
    game : Game
    row : Player
    arena : h.games.get p.game_id w'.games ≡ some game
    found : h.players.get p.payment_hash w'.players ≡ some row
    status : row.status ≡ r.status
    view : private_player h.engine row game ≡ ok r.player

  settle_new-cases :
      (p : Payment) (game : Game) (w w' : World h) (r : Recorded)
      → settle_admission h p game none w ≡ (ok r, w')
      → (refuse_admission h p game w ≡ (ok r, w')) ⊎ (admit_payment h p game w ≡ (ok r, w'))
  unfolding settle_admission
  settle_new-cases p game w w' r e =
      elim (Bool-cases (leb max_players (length (alive_players_for_game h game.id w)))) [
        | inl full ↦ inl (ground arith)
        | inr room ↦ inr (ground arith)
      ]

  settle_admission-IsRecorded :
      (p : Payment) (game : Game) (known : Option Player) (w w' : World h) (r : Recorded)
      → h.games.get p.game_id w.games ≡ some game
      → game.id ≡ p.game_id
      → h.players.get p.payment_hash w.players ≡ known
      → settle_admission h p game known w ≡ (ok r, w')
      → IsRecorded p r w'
  unfolding settle_admission with_fresh_player_count private_player
  settle_admission-IsRecorded p game (some existing) w w' r arena same found e =
      let (stay, status, view) = recorded_before-rows game existing w w' r e in
      record {
        game = game;
        row = existing;
        arena = rw stay arena;
        found = rw stay found;
        status = status;
        view = view;
      }
  settle_admission-IsRecorded p game none w w' r arena same found e =
      elim (settle_new-cases p game w w' r e) [
        | inl refused ↦
            let (games, row, status, view) = refuse_admission-rows p game w w' r refused in
            record {
              game = game;
              row = refused_row p game w.ticks r.refund;
              arena = rw games arena;
              found = row;
              status = status;
              view = view;
            }
        | inr admitted ↦
            let (games, row, status, view) = admit_payment-rows p game w w' r admitted in
            record {
              game = fresh_arena game w w';
              row = admitted_row p game w;
              arena = subst (λ i. h.games.get i w'.games ≡ some (fresh_arena game w w')) same games;
              found = row;
              status = status;
              view = view;
            }
      ]

  record_payment-IsRecorded :
      (p : Payment) (w w' : World h) (r : Recorded)
      → record_payment h p w ≡ (ok r, w')
      → IsRecorded p r w'
  unfolding record_payment
  record_payment-IsRecorded p w w' r e = elim (Option-cases (h.games.get p.game_id w.games)) [
    | inl missing ↦ absurd (ground arith)
    | inr (game, arena) ↦
        settle_admission-IsRecorded p game (h.players.get p.payment_hash w.players) w w' r arena
          (h.games.get_key p.game_id game w.games arena) refl (ground arith)
  ]

  -- A payment event that was recorded is answered from the table when it is delivered again: nothing
  -- changes, nothing is paid, and the player is shown as before.
  pub record_bananabreadwasm_payment_again :
      (input : Value) (w w' : World h) (r : Recorded)
      → record_bananabreadwasm_payment h input w ≡ (ok r, w')
      → (again : Recorded) × (record_bananabreadwasm_payment h input w' ≡ (ok again, w'))
        × (again.player ≡ r.player)
        × (again.status ≡ r.status)
  unfolding record_bananabreadwasm_payment
  record_bananabreadwasm_payment_again input w w' r e =
      let (event, w1, parsed, e1) =
        bind-eq-ok (lift (parse_json_object h.engine input))
          (λ event. payment_of h event >>= λ p. record_payment h p) w w' e in
      let (p, w2, read, e2) = bind-eq-ok (payment_of h event) (λ p. record_payment h p) w1 w' e1 in
      let (same, reread) = payment_of_pure event w1 w2 w' p read in
      let done = record_payment-IsRecorded p w2 w' r e2 in
      (
        record {
          game = public_game (with_fresh_player_count h done.game w');
          player = r.player;
          status = done.row.status;
          refund = none;
        },
        ground (
          arith,
          record_payment_known p w' done.game done.row r.player done.arena done.found done.view,
        ),
        refl,
        done.status,
      )
