-- ===== src/Safety/Sequence.antt =====
-- The players' table over any sequence of the calls of dev/src/index.js.
use bananabreadwasm.Prelude.{◌≡◌, refl, List, [], ◌∷◌, arith, inl, inr}
use bananabreadwasm.Result.{Result-cases}
use bananabreadwasm.Js.{Value}
use bananabreadwasm.Rows.{Player}
use bananabreadwasm.Players.{alive_in}
use bananabreadwasm.Host.{Host, World, now}
use bananabreadwasm.Handlers.Config.{
  get_settings, get_bananabreadwasm_settings, save_bananabreadwasm_settings,
  list_bananabreadwasm_wallets,
}
use bananabreadwasm.Handlers.Arenas.{
  create_bananabreadwasm_game, list_bananabreadwasm_games, delete_call, delete_players,
  delete_bananabreadwasm_game, get_public_bananabreadwasm_game, show_lobby,
}
use bananabreadwasm.Handlers.Admission.{join_bananabreadwasm_game}
use bananabreadwasm.Run.{
  Call, get_settings as call_get_settings, list_wallets, save_settings, create_game, list_games,
  delete_game, get_public_game, join_game, record_payment, admit_player, settle_kill,
  expire_disconnect, settle_payout, run, run_all,
}
use bananabreadwasm.Safety.{IsSafe, players-IsSafe}
use bananabreadwasm.Safety.Calls.{
  settle_bananabreadwasm_kill-IsSafe, expire_bananabreadwasm_disconnect-IsSafe,
}
use bananabreadwasm.Safety.Admission.{
  record_bananabreadwasm_payment-IsSafe, admit_bananabreadwasm_player-IsSafe,
}
use bananabreadwasm.Safety.Loop.{settle_bananabreadwasm_payout-IsSafe}

module _ (h : Host) where
  delete_players-IsSafe :
      (ps : List Player) (w : World h) → IsSafe w → IsSafe (delete_players h ps w)
  unfolding delete_players
  delete_players-IsSafe [] w s = s
  delete_players-IsSafe (p ∷ ps) w s =
      delete_players-IsSafe ps (record w { players = h.players.delete p.id w.players })
        (record {
          consistent = λ i q e. grind (arith, h.players.get_delete, s.consistent);
          within =
              λ g. ground (arith, h.players.count_delete (alive_in g) p.id w.players, s.within g);
          placed = λ i q e live. grind (arith, h.players.get_delete, s.placed);
          apart = λ i j a b fa fb la lb home slot. grind (arith, h.players.get_delete, s.apart);
        })

  pub delete_call-world : (input : Value) (w : World h) → (delete_call h input w).1 ≡ w
  unfolding delete_call
  delete_call-world input w = ground arith

  delete_bananabreadwasm_game-IsSafe :
      (input : Value) (w : World h) → IsSafe w → IsSafe (delete_bananabreadwasm_game h input w).1
  unfolding delete_bananabreadwasm_game
  delete_bananabreadwasm_game-IsSafe input w s = elim (Result-cases (delete_call h input w).0) [
    | inl (e, threw) ↦
        let same : (delete_bananabreadwasm_game h input w).1 ≡ w =
          ground (arith, delete_call-world input w) in
        rw same s
    | inr (c, read) ↦
        let called : (delete_call h input w).1 ≡ w = delete_call-world input w in
        let players : (delete_bananabreadwasm_game h input w).1.players
            ≡ (delete_players h c.players w).players =
          ground arith in
        players-IsSafe (delete_players h c.players w) _ players
          (delete_players-IsSafe c.players w s)
  ]

  -- Each of these leaves the players' table as it is.
  pub create_bananabreadwasm_game-players :
      (input : Value) (w : World h) → (create_bananabreadwasm_game h input w).1.players ≡ w.players
  unfolding create_bananabreadwasm_game
  create_bananabreadwasm_game-players input w = ground arith

  pub save_bananabreadwasm_settings-players :
      (input : Value) (w : World h)
      → (save_bananabreadwasm_settings h input w).1.players ≡ w.players
  unfolding save_bananabreadwasm_settings
  save_bananabreadwasm_settings-players input w = ground arith

  pub get_public_bananabreadwasm_game-players :
      (input : Value) (w : World h)
      → (get_public_bananabreadwasm_game h input w).1.players ≡ w.players
  unfolding get_public_bananabreadwasm_game show_lobby get_settings now
  get_public_bananabreadwasm_game-players input w = ground arith

  pub join_bananabreadwasm_game-players :
      (input : Value) (w : World h) → (join_bananabreadwasm_game h input w).1.players ≡ w.players
  unfolding join_bananabreadwasm_game
  join_bananabreadwasm_game-players input w = ground arith

  pub list_bananabreadwasm_games-players :
      (input : Value) (w : World h) → (list_bananabreadwasm_games h input w).1.players ≡ w.players
  unfolding list_bananabreadwasm_games
  list_bananabreadwasm_games-players input w = ground arith

  pub run-IsSafe : (c : Call) (w : World h) → IsSafe w → IsSafe (run h c w)
  unfolding run get_bananabreadwasm_settings list_bananabreadwasm_wallets
  run-IsSafe call_get_settings w s = players-IsSafe w _ refl s
  run-IsSafe list_wallets w s = s
  run-IsSafe (save_settings v) w s =
      players-IsSafe w _ (save_bananabreadwasm_settings-players v w) s
  run-IsSafe (create_game v) w s = players-IsSafe w _ (create_bananabreadwasm_game-players v w) s
  run-IsSafe (list_games v) w s = players-IsSafe w _ (list_bananabreadwasm_games-players v w) s
  run-IsSafe (delete_game v) w s = delete_bananabreadwasm_game-IsSafe v w s
  run-IsSafe (get_public_game v) w s =
      players-IsSafe w _ (get_public_bananabreadwasm_game-players v w) s
  run-IsSafe (join_game v) w s = players-IsSafe w _ (join_bananabreadwasm_game-players v w) s
  run-IsSafe (record_payment v) w s = record_bananabreadwasm_payment-IsSafe h v w s
  run-IsSafe (admit_player v) w s = admit_bananabreadwasm_player-IsSafe h v w s
  run-IsSafe (settle_kill v) w s = settle_bananabreadwasm_kill-IsSafe h v w s
  run-IsSafe (expire_disconnect v) w s = expire_bananabreadwasm_disconnect-IsSafe h v w s
  run-IsSafe (settle_payout v) w s = settle_bananabreadwasm_payout-IsSafe h v w s

  -- From a safe state, whatever calls come, returned or thrown, the state stays safe: every stored
  -- row's payout and refund columns fit its status, no arena has more than five live players, and
  -- every live player has a slot from 1 to 5 that no other live player of the arena has.
  pub run_all-IsSafe : (cs : List Call) (w : World h) → IsSafe w → IsSafe (run_all h cs w)
  unfolding run_all
  run_all-IsSafe [] w s = s
  run_all-IsSafe (c ∷ cs) w s = run_all-IsSafe cs (run h c w) (run-IsSafe c w s)
