-- ===== src/Run.antt =====
-- The life of the extension's storage: any sequence of the calls that dev/src/index.js exports.
use bananabreadwasm.Prelude.{List, [], ◌∷◌}
use bananabreadwasm.Js.{Value}
use bananabreadwasm.Host.{Host, World}
use bananabreadwasm.Handlers.Config.{
  run_json, get_bananabreadwasm_settings, save_bananabreadwasm_settings,
  list_bananabreadwasm_wallets,
}
use bananabreadwasm.Handlers.Arenas.{
  create_bananabreadwasm_game, list_bananabreadwasm_games, delete_bananabreadwasm_game,
  get_public_bananabreadwasm_game,
}
use bananabreadwasm.Handlers.Admission.{join_bananabreadwasm_game, record_bananabreadwasm_payment}
use bananabreadwasm.Handlers.Match.{
  admit_bananabreadwasm_player, settle_bananabreadwasm_kill, expire_bananabreadwasm_disconnect,
}
use bananabreadwasm.Handlers.Retry.{settle_bananabreadwasm_payout}

-- The exports; two of them do not read their argument.
pub data Call : Type 0 where
  get_settings list_wallets : Call
  save_settings create_game list_games delete_game get_public_game : Value → Call
  join_game record_payment admit_player settle_kill expire_disconnect settle_payout : Value → Call

module _ (h : Host) where
  -- What a call leaves behind, whether it returned or threw.
  unfoldable pub run : Call → World h → World h
  unfolding run_json
  run get_settings w = (run_json (get_bananabreadwasm_settings h) w).1
  run list_wallets w = (run_json (list_bananabreadwasm_wallets h) w).1
  run (save_settings v) w = (run_json (save_bananabreadwasm_settings h v) w).1
  run (create_game v) w = (run_json (create_bananabreadwasm_game h v) w).1
  run (list_games v) w = (run_json (list_bananabreadwasm_games h v) w).1
  run (delete_game v) w = (run_json (delete_bananabreadwasm_game h v) w).1
  run (get_public_game v) w = (run_json (get_public_bananabreadwasm_game h v) w).1
  run (join_game v) w = (run_json (join_bananabreadwasm_game h v) w).1
  run (record_payment v) w = (run_json (record_bananabreadwasm_payment h v) w).1
  run (admit_player v) w = (run_json (admit_bananabreadwasm_player h v) w).1
  run (settle_kill v) w = (run_json (settle_bananabreadwasm_kill h v) w).1
  run (expire_disconnect v) w = (run_json (expire_bananabreadwasm_disconnect h v) w).1
  run (settle_payout v) w = (run_json (settle_bananabreadwasm_payout h v) w).1

  unfoldable pub run_all : List Call → World h → World h
  run_all [] w = w
  run_all (c ∷ cs) w = run_all cs (run c w)
