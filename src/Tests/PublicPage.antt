-- ===== src/Tests/PublicPage.antt =====
-- Runs of static/public.js at concrete answers, and of the lobby that it shows.
use bananabreadwasm.Prelude.{◌≡◌, refl, ◌⊎◌, not, true, false, none, some, List, [], ◌∷◌, ◌≢◌}
use bananabreadwasm.Text.{Text, codes, text_eq, or_text, is_space, trim_start, drop_end, trim}
use bananabreadwasm.Result.{Result, ok, err, admissions_disabled, arena_inactive, arena_full}
use bananabreadwasm.Js.{obj, get_field, string_of, nullish_or, truthy, Fields, end}
use bananabreadwasm.Normalize.{clean_text, required_text, parse_json_object, mask_ln_address}
use bananabreadwasm.Gateway.{build_enter_url, encode_uri_component, percent_utf8}
use bananabreadwasm.Table.Memory.{memory, find, upsert}
use bananabreadwasm.Rows.{Player, is_alive}
use bananabreadwasm.Host.{World, now_of, time_at, now}
use bananabreadwasm.Players.{
  get_game, players_for_game, alive_players_for_game, player_for_token, has_token,
  with_fresh_player_count,
}
use bananabreadwasm.Views.{public_game, public_player, private_player}
use bananabreadwasm.Handlers.Config.{get_settings, default_settings}
use bananabreadwasm.Handlers.Arenas.{Lobby, get_public_bananabreadwasm_game, show_lobby}
use bananabreadwasm.Handlers.Admission.{join_bananabreadwasm_game}
use bananabreadwasm.PublicPage.{
  join, Response, take_answer, render_player, render_admitted, show_only, render_entry,
  render_join_availability,
}
use bananabreadwasm.PublicPage.Events.{
  Asked, public_game as ask_game, join_game, refresh_answered, poll_ticked, play_again_clicked,
  join_submitted, first_visit, step, steps,
}
use bananabreadwasm.PublicPage.Panels.{IsFitting, steps-IsFitting}
use bananabreadwasm.PublicPage.Races.{play_again_returns, join_twice}
use bananabreadwasm.PublicPage.Server.{response_of, admitted_is_live, disabled_join_refused}
use bananabreadwasm.Tests.Sample.{engine, host, arena, ann, duel, empty_world, text_field}
use bananabreadwasm.Tests.Joining.{lobby, fields, after_lobby, parsed, named, stored, shown}

abbrev qr_data_uri : Text → Text
qr_data_uri t = codes "data:"

-- Answers for the arena: for a visitor that it does not know, and for Ann.
abbrev vacant : Response
vacant = record {
  game = some lobby.game;
  player = none;
  players = [];
  admissions_enabled = true;
  can_join = true;
}

abbrev late : Response
late = record vacant { player = some (public_player engine ann true) }

some_not_none : {A : Type 0} {a : A} → some a ≢ none
some_not_none e = cc

steps-IsFitting_example :
    IsFitting
      (steps engine qr_data_uri (refresh_answered late ∷ play_again_clicked ∷ []) first_visit).page
unfolding first_visit
steps-IsFitting_example =
    steps-IsFitting engine qr_data_uri (refresh_answered late ∷ play_again_clicked ∷ []) first_visit
      (some_not_none, (tt, tt)) tt

play_again_returns_example :
    let polled =
      steps engine qr_data_uri
        (play_again_clicked ∷ refresh_answered late ∷ poll_ticked ∷ [])
        first_visit in
    let after = step engine qr_data_uri (refresh_answered vacant) polled in
    (rest : List Asked) × (polled.asked ≡ ask_game first_visit.page.game_id [] ∷ rest)
    × (after.page.elements.panel ≡ join)
    × (after.page.player ≡ none)
    × (after.page.elements.join_disabled ≡ not vacant.can_join)
play_again_returns_example =
    play_again_returns engine qr_data_uri late vacant lobby.game first_visit (refl, refl)

no_invoice : first_visit.page.payment_request ≡ []
unfolding first_visit
no_invoice = refl

join_twice_example :
    let sent = step engine qr_data_uri (join_submitted (codes "Cy") (codes "c@d.e")) first_visit in
    let polled = step engine qr_data_uri (refresh_answered vacant) sent in
    (sent.page.elements.join_disabled ≡ true)
    × (polled.page.elements.join_disabled ≡ false)
    × ((step engine qr_data_uri (join_submitted (codes "Cy") (codes "c@d.e")) polled).asked
        ≡ join_game first_visit.page.game_id (codes "Cy") (codes "c@d.e")
          ∷ join_game first_visit.page.game_id (codes "Cy") (codes "c@d.e")
          ∷ first_visit.asked)
join_twice_example =
    join_twice engine qr_data_uri vacant lobby.game (codes "Cy") (codes "c@d.e") first_visit
      (refl, refl) no_invoice refl

disabled_join_refused_example :
    let joined = join_bananabreadwasm_game host (obj fields) empty_world in
    ((take_answer engine (response_of lobby) first_visit.page).elements.panel ≡ join)
    × (joined.1.invoices ≡ empty_world.invoices)
    × ((joined.0 ≡ err admissions_disabled)
        ⊎ (joined.0 ≡ err arena_inactive)
        ⊎ (joined.0 ≡ err arena_full))
unfolding take_answer response_of render_player render_entry render_join_availability first_visit
disabled_join_refused_example =
    disabled_join_refused host (obj fields) fields (codes "arena") arena lobby empty_world
      after_lobby parsed named stored shown first_visit.page refl no_invoice refl

-- The lobby as Ann asks for it.
abbrev ann_fields : Fields
ann_fields = text_field "gameId" "arena" (text_field "playerToken" "ann" end)

abbrev lobby_or : Result Lobby → Lobby
lobby_or (ok l) = l
lobby_or (err e) = lobby

abbrev ann_lobby : Lobby
ann_lobby = lobby_or (get_public_bananabreadwasm_game host (obj ann_fields) duel).0

abbrev after_ann : World host
after_ann = (get_public_bananabreadwasm_game host (obj ann_fields) duel).1

ann_parsed : parse_json_object engine (obj ann_fields) ≡ ok ann_fields
unfolding parse_json_object truthy
ann_parsed = refl

ann_named : required_text engine (get_field "gameId" ann_fields) "gameId" 128 ≡ ok (codes "arena")
unfolding required_text clean_text string_of nullish_or get_field trim trim_start drop_end is_space
ann_named = refl

ann_stored : host.games.get (codes "arena") duel.games ≡ some arena
unfolding memory find upsert text_eq
ann_stored = refl

ann_shown : get_public_bananabreadwasm_game host (obj ann_fields) duel ≡ (ok ann_lobby, after_ann)
unfolding get_public_bananabreadwasm_game show_lobby parse_json_object truthy required_text
    clean_text string_of nullish_or get_field trim trim_start drop_end is_space memory find upsert
    text_eq get_game get_settings default_settings now time_at now_of with_fresh_player_count
    alive_players_for_game players_for_game player_for_token public_game public_player
    private_player build_enter_url encode_uri_component percent_utf8 mask_ln_address
ann_shown = refl

admitted_is_live_example :
    let after = take_answer engine (response_of ann_lobby) first_visit.page in
    (p : Player) × (url : Text) × (host.players.get p.id duel.players ≡ some p)
    × (has_token arena.id (codes "ann") p ≡ true)
    × (is_alive p.status ≡ true)
    × (build_enter_url arena.gateway_url arena.id p.player_token ≡ ok url)
    × (after.elements.enter_href ≡ or_text url (codes "#"))
unfolding get_public_bananabreadwasm_game show_lobby parse_json_object truthy required_text
    clean_text string_of nullish_or get_field trim trim_start drop_end is_space memory find upsert
    text_eq get_game get_settings default_settings now time_at now_of with_fresh_player_count
    alive_players_for_game players_for_game player_for_token public_game public_player
    private_player build_enter_url encode_uri_component percent_utf8 mask_ln_address take_answer
    response_of render_player render_admitted show_only first_visit
admitted_is_live_example =
    admitted_is_live host (obj ann_fields) ann_fields (codes "arena") arena ann_lobby duel after_ann
      ann_parsed ann_named ann_stored ann_shown first_visit.page refl
