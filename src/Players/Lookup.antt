-- ===== src/Players/Lookup.antt =====
-- What the lookups of dev/src/index.js find in the tables.
use bananabreadwasm.Prelude.{
  ℕ, ◌≤◌, any, ◌≡◌, refl, subst, List, [], ◌∷◌, All, true, some, String, arith,
}
use bananabreadwasm.Text.{Text, text_eq, text_eq_iff, text_eq_refl}
use bananabreadwasm.Result.{Result, ok, err}
use bananabreadwasm.Js.{Value, Fields}
use bananabreadwasm.Normalize.{required_text, either_field}
use bananabreadwasm.Rows.{Game, Player, is_alive}
use bananabreadwasm.Players.{
  get_game, player_for_token, require_player_id, require_server_secret, require_alive_player,
  has_token, token_query, first, in_game, by_paid_at, players_for_game,
}
use bananabreadwasm.Table.{Query}
use bananabreadwasm.Host.{Host, World}

module _ (h : Host) where
  -- The arena that was found is stored under the id that was asked for.
  pub get_game-eq-ok :
      (i : Text) (w w' : World h) (g : Game)
      → get_game h i w ≡ (ok g, w')
      → (w' ≡ w) × (h.games.get i w.games ≡ some g) × (g.id ≡ i)
  unfolding get_game
  get_game-eq-ok i w w' g e = ground (arith, h.games.get_key i g w.games)

  pub get_game_of_get :
      (i : Text) (w : World h) (g : Game)
      → h.games.get i w.games ≡ some g
      → get_game h i w ≡ (ok g, w)
  unfolding get_game
  get_game_of_get i w g e = ground arith

  pub require_player_id-eq-ok :
      (game_id : Text) (v : Value) (n : String) (w w' : World h) (p : Player)
      → require_player_id h game_id v n w ≡ (ok p, w')
      → (w' ≡ w)
        × (required_text h.engine v n 256 ≡ ok p.id)
        × (h.players.get p.id w.players ≡ some p)
        × (p.game_id ≡ game_id)
  unfolding require_player_id
  require_player_id-eq-ok game_id v n w w' p e = go (required_text h.engine v n 256) refl
    where
      go :
          (t : Result Text)
          → required_text h.engine v n 256 ≡ t
          → (w' ≡ w)
            × (required_text h.engine v n 256 ≡ ok p.id)
            × (h.players.get p.id w.players ≡ some p)
            × (p.game_id ≡ game_id)
      go (ok i) q = ground (arith, h.players.get_key i p w.players, text_eq_iff p.game_id game_id)
      go (err x) q = ground arith

  pub require_player_id_of_get :
      (game_id : Text) (v : Value) (n : String) (i : Text) (w : World h) (p : Player)
      → required_text h.engine v n 256 ≡ ok i
      → h.players.get i w.players ≡ some p
      → p.game_id ≡ game_id
      → require_player_id h game_id v n w ≡ (ok p, w)
  unfolding require_player_id
  require_player_id_of_get game_id v n i w p e f same =
      ground (arith, text_eq_iff p.game_id game_id)

  pub require_server_secret-eq-ok :
      (g : Game) (fs : Fields) (w w' : World h)
      → require_server_secret h g fs w ≡ (ok tt, w')
      → (w' ≡ w)
        × (required_text h.engine
              (either_field "serverSecret" "server_secret" fs)
              "serverSecret"
              256
            ≡ ok g.server_secret)
  unfolding require_server_secret
  require_server_secret-eq-ok g fs w w' e =
      go
        (required_text h.engine (either_field "serverSecret" "server_secret" fs) "serverSecret" 256)
        refl
    where
      go :
          (t : Result Text)
          → required_text h.engine
              (either_field "serverSecret" "server_secret" fs)
              "serverSecret"
              256
            ≡ t
          → (w' ≡ w)
            × (required_text h.engine
                  (either_field "serverSecret" "server_secret" fs)
                  "serverSecret"
                  256
                ≡ ok g.server_secret)
      go (ok s) q = ground (arith, text_eq_iff s g.server_secret)
      go (err x) q = ground arith

  pub require_server_secret_of_eq :
      (g : Game) (fs : Fields) (w : World h)
      → required_text h.engine (either_field "serverSecret" "server_secret" fs) "serverSecret" 256
        ≡ ok g.server_secret
      → require_server_secret h g fs w ≡ (ok tt, w)
  unfolding require_server_secret
  require_server_secret_of_eq g fs w e = ground (arith, text_eq_refl g.server_secret)

  first-All {κ} :
      (P : Player → Type κ) (ps : List Player) (p : Player) → All P ps → first ps ≡ some p → P p
  first-All P [] p a e = absurd (ground arith)
  first-All P (q ∷ ps) p a e = subst P (ground arith) a.0

  -- The player that a token names is a stored row of the arena with that token.
  pub player_for_token-eq-some :
      (game_id token : Text) (w : World h) (p : Player)
      → player_for_token h game_id token w ≡ some p
      → (h.players.get p.id w.players ≡ some p) × (has_token game_id token p ≡ true)
  unfolding player_for_token
  player_for_token-eq-some game_id token w p found =
      let q : Query Player = token_query game_id token in
      let (listed, stored) =
        first-All (λ r. (q.filter r ≡ true) × (h.players.get r.id w.players ≡ some r))
          (h.players.page q w.players) p (h.players.page_rows q w.players) found in
      (stored, listed)

  -- The player that a token names is a stored live row of the arena.
  pub require_alive_player-eq-ok :
      (game_id token : Text) (w w' : World h) (p : Player)
      → require_alive_player h game_id token w ≡ (ok p, w')
      → (w' ≡ w)
        × (is_alive p.status ≡ true)
        × (h.players.get p.id w.players ≡ some p)
        × (has_token game_id token p ≡ true)
  unfolding require_alive_player
  require_alive_player-eq-ok game_id token w w' p e =
      let found : player_for_token h game_id token w ≡ some p = ground arith in
      let (stored, listed) = player_for_token-eq-some game_id token w p found in
      (ground arith, ground arith, stored, listed)

  -- Every row of an arena's page is stored, and of that arena.
  pub players_for_game-rows :
      (game_id : Text) (limit : ℕ) (w : World h)
      → All
          (λ p. (in_game game_id p ≡ true) × (h.players.get p.id w.players ≡ some p))
          (players_for_game h game_id limit w)
  unfolding players_for_game
  players_for_game-rows game_id limit w =
      h.players.page_rows (by_paid_at (in_game game_id) limit) w.players

  -- Up to its limit, the page holds every player of the arena.
  pub players_for_game_complete :
      (game_id i : Text) (limit : ℕ) (w : World h) (p : Player)
      → h.players.count (in_game game_id) w.players ≤ limit
      → h.players.get i w.players ≡ some p
      → in_game game_id p ≡ true
      → any (λ q. text_eq q.id i) (players_for_game h game_id limit w) ≡ true
  unfolding players_for_game
  players_for_game_complete game_id i limit w p fits stored home =
      h.players.page_complete (by_paid_at (in_game game_id) limit) i p w.players refl refl fits
        stored home
