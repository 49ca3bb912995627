-- ===== src/Account/Sequence.antt =====
-- Stakes over any sequence of the calls of dev/src/index.js.
use bananabreadwasm.Prelude.{ℕ, ◌+◌, ◌≤◌, refl, List, [], ◌∷◌, arith}
use bananabreadwasm.Handlers.Config.{get_bananabreadwasm_settings, list_bananabreadwasm_wallets}
use bananabreadwasm.Host.{Host, World}
use bananabreadwasm.Run.{
  Call, get_settings, list_wallets, save_settings, create_game, list_games, delete_game,
  get_public_game, join_game, record_payment, admit_player, settle_kill, expire_disconnect,
  settle_payout, run, run_all,
}
use bananabreadwasm.Safety.{IsSafe}
use bananabreadwasm.Safety.Sequence.{run-IsSafe}
use bananabreadwasm.Account.{book, IsFunded}
use bananabreadwasm.Account.Around.{Step, Step-trans}
use bananabreadwasm.Account.Kill.{settle_bananabreadwasm_kill-Step}
use bananabreadwasm.Account.Disconnect.{expire_bananabreadwasm_disconnect-Step}
use bananabreadwasm.Account.Admission.{received, record_bananabreadwasm_payment-Step}
use bananabreadwasm.Account.Loop.{settle_bananabreadwasm_payout-Step}
use bananabreadwasm.Account.Others.{
  IsQuiet-Step, save_bananabreadwasm_settings-IsQuiet, get_public_bananabreadwasm_game-IsQuiet,
  join_bananabreadwasm_game-IsQuiet, list_bananabreadwasm_games-IsQuiet,
  admit_bananabreadwasm_player-Step, delete_bananabreadwasm_game-Step,
  create_bananabreadwasm_game-Step,
}

module _ (h : Host) where
  -- What the players pay in by a call.
  abbrev pub deposit : Call → World h → ℕ
  deposit (record_payment v) w = received h v w
  deposit _ w = 0

  unfoldable pub deposits : List Call → World h → ℕ
  deposits [] w = 0
  deposits (c ∷ cs) w = deposit c w + deposits cs (run h c w)

  run-Step : (c : Call) (w : World h) → IsSafe w → IsFunded h w → Step h (deposit c w) w (run h c w)
  unfolding run get_bananabreadwasm_settings list_bananabreadwasm_wallets
  run-Step get_settings w s f = IsQuiet-Step h w _ (refl, refl, refl) f
  run-Step list_wallets w s f = IsQuiet-Step h w _ (refl, refl, refl) f
  run-Step (save_settings v) w s f =
      IsQuiet-Step h w _ (save_bananabreadwasm_settings-IsQuiet h v w) f
  run-Step (create_game v) w s f = create_bananabreadwasm_game-Step h v w f
  run-Step (list_games v) w s f = IsQuiet-Step h w _ (list_bananabreadwasm_games-IsQuiet h v w) f
  run-Step (delete_game v) w s f = delete_bananabreadwasm_game-Step h v w f
  run-Step (get_public_game v) w s f =
      IsQuiet-Step h w _ (get_public_bananabreadwasm_game-IsQuiet h v w) f
  run-Step (join_game v) w s f = IsQuiet-Step h w _ (join_bananabreadwasm_game-IsQuiet h v w) f
  run-Step (record_payment v) w s f = record_bananabreadwasm_payment-Step h v w f
  run-Step (admit_player v) w s f = admit_bananabreadwasm_player-Step h v w f
  run-Step (settle_kill v) w s f = settle_bananabreadwasm_kill-Step h v w s f
  run-Step (expire_disconnect v) w s f = expire_bananabreadwasm_disconnect-Step h v w s f
  run-Step (settle_payout v) w s f = settle_bananabreadwasm_payout-Step h v w s f

  run_all-Step :
      (cs : List Call) (w : World h)
      → IsSafe w
      → IsFunded h w
      → Step h (deposits cs w) w (run_all h cs w)
  unfolding run_all deposits
  run_all-Step [] w s f = (omega arith, f)
  run_all-Step (c ∷ cs) w s f =
      let w1 = run h c w in
      let first = run-Step c w s f in
      Step-trans h (deposit c w) (deposits cs w1) w w1 (run_all h cs w1) first
        (run_all-Step cs w1 (run-IsSafe h c w s) first.1)

  -- From a safe state in which every arena has a price and every player paid, whatever calls come,
  -- returned or thrown: what the arenas' wallets sent, without the requests that the wallet answered
  -- with a failure, and what is owed, which is the stakes of the live players and the rewards and
  -- refunds that failed, are together at most what they were before and what the payments that were
  -- newly recorded for an arena brought in. A call of the wallet that threw counts as sent.
  pub stakes_cover_payments :
      (cs : List Call) (w : World h)
      → IsSafe w
      → IsFunded h w
      → book h (run_all h cs w) ≤ book h w + deposits cs w
  stakes_cover_payments cs w s f = (run_all-Step cs w s f).0
