-- ===== src/Tests/Lifecycle.antt =====
-- Players' rows over calls, at concrete inputs.
use bananabreadwasm.Prelude.{◌≡◌, refl, ◌⊎◌, some, [], ◌∷◌}
use bananabreadwasm.Text.{text_eq, codes}
use bananabreadwasm.Rows.{Player, dead, processing}
use bananabreadwasm.Host.{World}
use bananabreadwasm.Table.Memory.{memory, find, upsert}
use bananabreadwasm.Run.{delete_game, settle_kill, settle_payout, run_all}
use bananabreadwasm.Safety.{IsSafe, save-IsSafe}
use bananabreadwasm.Lifecycle.{phase_of, IsSamePlayer, Advances}
use bananabreadwasm.Lifecycle.Sequence.{WasRemoved, players_advance, unanswered_stays}
use bananabreadwasm.Tests.Sample.{
  player_named, host, bob, with_player, duel, kill_input, arena_input,
}
use bananabreadwasm.Tests.Account.{duel-IsSafe}

bob_stored : host.players.get (codes "bob") duel.players ≡ some bob
unfolding memory find upsert text_eq
bob_stored = refl

-- Bob is killed, and the arena is to be deleted.
players_advance_example :
    let calls = settle_kill kill_input ∷ delete_game arena_input ∷ [] in
    (q : Player) × Advances bob q
    × ((host.players.get (codes "bob") (run_all host calls duel).players ≡ some q)
        ⊎ WasRemoved host calls duel (codes "bob") q)
players_advance_example =
    players_advance host (settle_kill kill_input ∷ delete_game arena_input ∷ []) duel (codes "bob")
      bob duel-IsSafe bob_stored

-- The wallet threw when the reward for this player was to be paid.
abbrev dee : Player
dee = player_named (codes "dee") dead processing

abbrev stuck : World host
stuck = with_player dee duel

stuck-IsSafe : IsSafe stuck
stuck-IsSafe = save-IsSafe duel dee refl refl duel-IsSafe

dee_stored : host.players.get (codes "dee") stuck.players ≡ some dee
unfolding memory find upsert text_eq
dee_stored = refl

-- A retry of the arena, a kill of another player, and a deletion.
unanswered_stays_example :
    (q : Player) × (host.players.get
        (codes "dee")
        (run_all host
          (settle_payout arena_input ∷ settle_kill kill_input ∷ delete_game arena_input ∷ [])
          stuck).players
      ≡ some q)
    × IsSamePlayer dee q
    × (phase_of q ≡ phase_of dee)
unanswered_stays_example =
    unanswered_stays host
      (settle_payout arena_input ∷ settle_kill kill_input ∷ delete_game arena_input ∷ []) stuck
      (codes "dee") dee stuck-IsSafe dee_stored refl
