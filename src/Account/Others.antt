-- ===== src/Account/Others.antt =====
-- Stakes at the other calls of dev/src/index.js: an admission to the match, the calls of the owner,
-- joins and the lobby.
use bananabreadwasm.Prelude.{◌≡◌, refl, List, [], ◌∷◌, some, arith, inl, inr}
use bananabreadwasm.Text.{Text}
use bananabreadwasm.Result.{ok, Result-cases}
use bananabreadwasm.Js.{Value}
use bananabreadwasm.Normalize.Bounds.{normalize_integer_bounds}
use bananabreadwasm.Rows.{Game, Player}
use bananabreadwasm.Host.{Host, World, now}
use bananabreadwasm.Handlers.Config.{get_settings, save_bananabreadwasm_settings}
use bananabreadwasm.Handlers.Arenas.{
  create_bananabreadwasm_game, list_bananabreadwasm_games, delete_call, delete_players,
  delete_bananabreadwasm_game, get_public_bananabreadwasm_game, show_lobby,
}
use bananabreadwasm.Handlers.Admission.{join_bananabreadwasm_game}
use bananabreadwasm.Handlers.Match.{admit_call, enter_arena, admit_bananabreadwasm_player}
use bananabreadwasm.Safety.Admission.{
  connected_row, enter_arena-players, admit_call-row, admit_call-world,
}
use bananabreadwasm.Safety.Sequence.{delete_call-world}
use bananabreadwasm.Account.{book, owed, save-book, same-book, IsFunded}
use bananabreadwasm.Account.Around.{Step, set-staked}

module _ (h : Host) where
  -- The stakes, the arenas and the payments are as they were.
  abbrev pub IsQuiet : World h → World h → Type 0
  IsQuiet w w' = (w'.players ≡ w.players) × (w'.games ≡ w.games) × (w'.payments ≡ w.payments)

  pub IsQuiet-Step : (w w' : World h) → IsQuiet w w' → IsFunded h w → Step h 0 w w'
  IsQuiet-Step w w' (players, games, log) f = (
    omega (arith, same-book h w w' players log),
    record {
      priced = λ i g stored. f.priced i g (rw (← games) stored);
      staked = λ i p stored. f.staked i p (rw (← players) stored);
    },
  )

  pub save_bananabreadwasm_settings-IsQuiet :
      (input : Value) (w : World h) → IsQuiet w (save_bananabreadwasm_settings h input w).1
  unfolding save_bananabreadwasm_settings
  save_bananabreadwasm_settings-IsQuiet input w = (ground arith, ground arith, ground arith)

  pub get_public_bananabreadwasm_game-IsQuiet :
      (input : Value) (w : World h) → IsQuiet w (get_public_bananabreadwasm_game h input w).1
  unfolding get_public_bananabreadwasm_game show_lobby get_settings now
  get_public_bananabreadwasm_game-IsQuiet input w = (ground arith, ground arith, ground arith)

  pub join_bananabreadwasm_game-IsQuiet :
      (input : Value) (w : World h) → IsQuiet w (join_bananabreadwasm_game h input w).1
  unfolding join_bananabreadwasm_game
  join_bananabreadwasm_game-IsQuiet input w = (ground arith, ground arith, ground arith)

  pub list_bananabreadwasm_games-IsQuiet :
      (input : Value) (w : World h) → IsQuiet w (list_bananabreadwasm_games h input w).1
  unfolding list_bananabreadwasm_games
  list_bananabreadwasm_games-IsQuiet input w = (ground arith, ground arith, ground arith)

  enter_arena-rest :
      (game : Game) (token : Text) (p : Player) (w : World h)
      → ((enter_arena h game token p w).1.games ≡ w.games)
        × ((enter_arena h game token p w).1.payments ≡ w.payments)
  unfolding enter_arena
  enter_arena-rest game token p w = (ground arith, ground arith)

  enter_arena-Step :
      (game : Game) (token : Text) (p : Player) (w : World h)
      → h.players.get p.id w.players ≡ some p
      → IsFunded h w
      → Step h 0 w (enter_arena h game token p w).1
  unfolding owed
  enter_arena-Step game token p w stored f =
      let w' = (enter_arena h game token p w).1 in
      let row = connected_row h p w in
      let players = enter_arena-players h game token p w in
      let (games, log) = enter_arena-rest game token p w in
      (
        ground (arith, save-book h row w w' players log, stored),
        record {
          priced = λ i g found. f.priced i g (rw (← games) found);
          staked = rw players (set-staked h row w.players (f.staked p.id p stored) f.staked);
        },
      )

  pub admit_bananabreadwasm_player-Step :
      (input : Value) (w : World h)
      → IsFunded h w
      → Step h 0 w (admit_bananabreadwasm_player h input w).1
  unfolding admit_bananabreadwasm_player
  admit_bananabreadwasm_player-Step input w f = elim (Result-cases (admit_call h input w).0) [
    | inl (e, threw) ↦
        let same : (admit_bananabreadwasm_player h input w).1 ≡ w =
          ground (arith, admit_call-world h input w) in
        rw same (omega arith, f)
    | inr (c, read) ↦
        let called : admit_call h input w ≡ (ok c, w) =
          ground (arith, admit_call-world h input w) in
        let entered : (admit_bananabreadwasm_player h input w).1
            ≡ (enter_arena h c.game c.token c.player w).1 =
          ground arith in
        let row = (admit_call-row h input w w c called).0 in
        rw entered (enter_arena-Step c.game c.token c.player w row f)
  ]

  delete_players-Step :
      (ps : List Player) (w : World h) → IsFunded h w → Step h 0 w (delete_players h ps w)
  unfolding delete_players book
  delete_players-Step [] w f = (omega arith, f)
  delete_players-Step (p ∷ ps) w f =
      let w1 : World h = record w { players = h.players.delete p.id w.players } in
      let f1 : IsFunded h w1 = record {
        priced = f.priced;
        staked = λ i q e. grind (arith, h.players.get_delete, f.staked);
      } in
      let (after, f2) = delete_players-Step ps w1 f1 in
      (omega (arith, after, h.players.sum_delete owed p.id w.players), f2)

  pub delete_bananabreadwasm_game-Step :
      (input : Value) (w : World h)
      → IsFunded h w
      → Step h 0 w (delete_bananabreadwasm_game h input w).1
  unfolding delete_bananabreadwasm_game
  delete_bananabreadwasm_game-Step input w f = elim (Result-cases (delete_call h input w).0) [
    | inl (e, threw) ↦
        let same : (delete_bananabreadwasm_game h input w).1 ≡ w =
          ground (arith, delete_call-world h input w) in
        rw same (omega arith, f)
    | inr (c, read) ↦
        let called : (delete_call h input w).1 ≡ w = delete_call-world h input w in
        let w1 = delete_players h c.players w in
        let same : (delete_bananabreadwasm_game h input w).1
            ≡ record w1 { games = h.games.delete c.game_id w1.games } =
          ground arith in
        let (fewer, f1) = delete_players-Step c.players w f in
        let w2 : World h = record w1 { games = h.games.delete c.game_id w1.games } in
        rw same (
          omega (arith, fewer, same-book h w1 w2 refl refl),
          record {
            priced = λ i g e. grind (arith, h.games.get_delete, f1.priced);
            staked = f1.staked;
          },
        )
  ]

  pub create_bananabreadwasm_game-Step :
      (input : Value) (w : World h)
      → IsFunded h w
      → Step h 0 w (create_bananabreadwasm_game h input w).1
  unfolding create_bananabreadwasm_game
  create_bananabreadwasm_game-Step input w f =
      let w' = (create_bananabreadwasm_game h input w).1 in
      let players : w'.players ≡ w.players = ground arith in
      let log : w'.payments ≡ w.payments = ground arith in
      (
        omega (arith, same-book h w w' players log),
        record {
          priced =
              λ i g e. grind (arith, h.games.get_set, f.priced, normalize_integer_bounds h.engine);
          staked = λ i p stored. f.staked i p (rw (← players) stored);
        },
      )
