-- ===== src/PublicPage/Server.antt =====
-- What static/public.js shows of the lobby that dev/src/index.js answers with.
use bananabreadwasm.Prelude.{
  ◌≡◌, refl, sym, ◌∙◌, ◌⊎◌, inl, inr, true, Option, none, some, [], arith, if◌then◌else◌,
  Option-cases,
}
use bananabreadwasm.Text.{Text, codes, is_empty, or_text}
use bananabreadwasm.Result.{ok, err, admissions_disabled, arena_inactive, arena_full}
use bananabreadwasm.Js.{Value, Fields, Engine, get_field}
use bananabreadwasm.Normalize.{parse_json_object, required_text, clean_text, either_field}
use bananabreadwasm.Gateway.{build_enter_url}
use bananabreadwasm.Rows.{Game, Player, is_alive}
use bananabreadwasm.Players.{player_for_token, has_token, with_fresh_player_count}
use bananabreadwasm.Players.Lookup.{get_game_of_get, player_for_token-eq-some}
use bananabreadwasm.Host.{Host, World, time_at}
use bananabreadwasm.Views.{PublicPlayer, private_player}
use bananabreadwasm.Handlers.Config.{settings_id, or_default, default_row}
use bananabreadwasm.Handlers.Arenas.{Lobby, get_public_bananabreadwasm_game, show_lobby}
use bananabreadwasm.Handlers.Admission.{join_bananabreadwasm_game}
use bananabreadwasm.Handlers.Effects.Joining.{join_refused, get_settings-eq}
use bananabreadwasm.PublicPage.{
  Panel, join, admitted, Response, Page, url_of, take_answer, render_player,
}
use bananabreadwasm.PublicPage.Panels.{FitsPanel, take_answer-IsFitting}
use bananabreadwasm.PublicPage.Races.{take_answer-vacant}

-- The lobby as the page receives it.
unfoldable pub response_of : Lobby → Response
response_of lobby = record {
  game = some lobby.game;
  player = lobby.player;
  players = lobby.players;
  admissions_enabled = lobby.admissions_enabled;
  can_join = lobby.can_join;
}

take_answer-player :
    (engine : Engine) (r : Response) (s : Page) → (take_answer engine r s).player ≡ r.player
unfolding take_answer render_player
take_answer-player engine r s = ground arith

admitted_inv :
    (panel : Panel) (o : Option PublicPlayer) (href : Text)
    → panel ≡ admitted
    → FitsPanel panel o href
    → (q : PublicPlayer) × (o ≡ some q)
      × (is_alive q.status ≡ true)
      × (href ≡ or_text (url_of q.enter_url) (codes "#"))
admitted_inv admitted (some q) href e (live, link) = (q, refl, live, link)
admitted_inv admitted none href e f = absurd f
admitted_inv join o href e f = cc
admitted_inv Panel.invoice o href e f = cc
admitted_inv Panel.settled o href e f = cc

module _ (h : Host) where
  -- The page's own view of a live player has the link that the gateway expects.
  private_player-live :
      (p : Player) (g : Game) (q : PublicPlayer)
      → private_player h.engine p g ≡ ok q
      → is_alive q.status ≡ true
      → (is_alive p.status ≡ true)
        × (build_enter_url g.gateway_url g.id p.player_token ≡ ok (url_of q.enter_url))
  unfolding private_player
  private_player-live p g q e live = ground arith

  module _ (input : Value) (request : Fields) (game_id : Text) (game : Game) (lobby : Lobby)
      (w w' : World h) (parsed : parse_json_object h.engine input ≡ ok request)
      (named : required_text h.engine (get_field "gameId" request) "gameId" 128 ≡ ok game_id)
      (stored : h.games.get game_id w.games ≡ some game)
      (shown : get_public_bananabreadwasm_game h input w ≡ (ok lobby, w')) where
    abbrev token : Text
    token = clean_text h.engine (either_field "playerToken" "player_token" request) 128

    lobby-player :
        (q : PublicPlayer)
        → lobby.player ≡ some q
        → (p : Player) × (player_for_token h game.id token w ≡ some p)
          × (private_player h.engine p (with_fresh_player_count h game w) ≡ ok q)
    unfolding get_public_bananabreadwasm_game show_lobby with_fresh_player_count
    lobby-player q e =
        let found : Option Player =
          if is_empty token then none else player_for_token h game.id token w in
        let s =
          or_default (h.settings.get settings_id w.settings) (default_row (time_at h w.ticks)) in
        elim (Option-cases found) [
          | inl unknown ↦
              absurd (
                ground (arith, get_game_of_get h game_id w game stored, get_settings-eq h w s refl))
          | inr (p, known) ↦ (
            p,
            ground arith,
            ground (arith, get_game_of_get h game_id w game stored, get_settings-eq h w s refl),
          )
        ]

    -- If the page shows the admitted panel for the lobby of a stored arena, then the token of the
    -- request belongs to a stored live player of that arena, and the link of the panel is the URL at
    -- which the gateway admits that player.
    pub admitted_is_live :
        (s : Page)
        → let after = take_answer h.engine (response_of lobby) s in
          after.elements.panel ≡ admitted
          → (p : Player) × (url : Text) × (h.players.get p.id w.players ≡ some p)
            × (has_token game.id token p ≡ true)
            × (is_alive p.status ≡ true)
            × (build_enter_url game.gateway_url game.id p.player_token ≡ ok url)
            × (after.elements.enter_href ≡ or_text url (codes "#"))
    unfolding response_of with_fresh_player_count
    admitted_is_live s panel =
        let after = take_answer h.engine (response_of lobby) s in
        let fits = take_answer-IsFitting h.engine (response_of lobby) s (ground arith) in
        let (q, held, live, link) =
          admitted_inv after.elements.panel after.player after.elements.enter_href panel fits in
        let (p, known, view) =
          lobby-player q (sym (take_answer-player h.engine (response_of lobby) s) ∙ held) in
        let (row, owned) = player_for_token-eq-some h game.id token w p known in
        let (alive_row, url) =
          private_player-live p (with_fresh_player_count h game w) q view live in
        (p, url_of q.enter_url, row, owned, alive_row, url, link)

    -- If the lobby of a stored arena has no player for a visitor without an invoice, the page shows the
    -- join panel. If it then disables the join button, a join of that arena is refused: the call throws
    -- the error of one of its three tests, and asks for no invoice.
    pub disabled_join_refused :
        (s : Page)
        → lobby.player ≡ none
        → s.payment_request ≡ []
        → (take_answer h.engine (response_of lobby) s).elements.join_disabled ≡ true
        → let joined = join_bananabreadwasm_game h input w in
          ((take_answer h.engine (response_of lobby) s).elements.panel ≡ join)
          × (joined.1.invoices ≡ w.invoices)
          × ((joined.0 ≡ err admissions_disabled)
              ⊎ (joined.0 ≡ err arena_inactive)
              ⊎ (joined.0 ≡ err arena_full))
    unfolding response_of
    disabled_join_refused s nobody no_invoice disabled =
        let (panel, off, _, _, _, _) =
          take_answer-vacant h.engine (response_of lobby) lobby.game s (refl, nobody) no_invoice in
        let (quiet, refused) =
          join_refused h input request game_id game lobby w w' parsed named stored shown
            (ground arith) in
        (panel, quiet, refused)
