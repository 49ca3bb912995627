-- ===== src/Tests/Client.antt =====
-- Replies to the client of static/lnbits-extension-sdk.js.
use bananabreadwasm.Prelude.{◌++◌, ◌≡◌, refl, some, []}
use bananabreadwasm.Text.{Text, codes, drop_end}
use bananabreadwasm.Result.{ok, err, arena_full}
use bananabreadwasm.Js.{null, str, Fields, end, get_field}
use bananabreadwasm.Gateway.{is_slash, encode_uri_component, percent_utf8, build_enter_url}
use bananabreadwasm.Gateway.Segments.{IsSegment, enter_url-parameters}
use bananabreadwasm.Handlers.Arenas.{Lobby}
use bananabreadwasm.Handlers.Config.{Reply, error_of}
use bananabreadwasm.Client.Paths.{game_calls_stay}
use bananabreadwasm.Client.{
  Browser, ClientCall, delete_game, join_game, settle_game, base_url, game_path, message_of,
  unwrap_runtime_response,
}
use bananabreadwasm.Client.LobbyJson.{lobby_fields}
use bananabreadwasm.Client.Replies.{reply_value, seen, reply_returns}
use bananabreadwasm.Tests.Sample.{engine}

abbrev full : Reply Lobby
full = error_of arena_full

-- A browser that reads the refusal of a full arena.
abbrev browser : Browser
browser = record {
  engine = record engine { json_parse = λ t. some (reply_value lobby_fields [] full) };
  form_encode = λ ps. [];
  plain = λ v. v;
  syntax_message = λ t. codes "Unexpected token";
}

reply_returns_example :
    unwrap_runtime_response browser (str (codes "{}")) ≡ seen lobby_fields [] full
reply_returns_example = reply_returns lobby_fields [] browser full (codes "{}") refl

-- A browser with nothing to parse, and the messages of calls for an arena.
abbrev message : ClientCall → Fields
message call = elim (message_of browser (codes "bananabreadwasm") call) [ ok m ↦ m | err e ↦ end ]

game_calls_stay_example :
    (segment : Text) × (encode_uri_component (codes "a/b") ≡ ok segment)
    × IsSegment segment
    × (let path = base_url browser (codes "bananabreadwasm") ++ codes "/games/" ++ segment in
        (get_field "path" (message (delete_game (codes "a/b"))) ≡ str path)
        × (get_field "path" (message (join_game (codes "a/b") null)) ≡ str (path ++ codes "/join"))
        × (get_field "path" (message (settle_game (codes "a/b") null))
            ≡ str (path ++ codes "/settle")))
unfolding message_of game_path encode_uri_component percent_utf8
game_calls_stay_example =
    game_calls_stay browser (codes "bananabreadwasm") (codes "a/b") null
      (message (delete_game (codes "a/b"))) (message (join_game (codes "a/b") null))
      (message (settle_game (codes "a/b") null)) refl refl refl

enter_url-parameters_example :
    (game : Text) × (ticket : Text) × (encode_uri_component (codes "a&b") ≡ ok game)
    × (encode_uri_component (codes "ann") ≡ ok ticket)
    × IsSegment game
    × IsSegment ticket
    × (codes "https://play.example.org/lnbits/enter?game=a%26b&ticket=ann"
        ≡ drop_end is_slash (codes "https://play.example.org")
          ++ codes "/lnbits/enter?game="
          ++ game
          ++ codes "&ticket="
          ++ ticket)
unfolding build_enter_url encode_uri_component percent_utf8 drop_end
enter_url-parameters_example =
    enter_url-parameters (codes "https://play.example.org") (codes "a&b") (codes "ann")
      (codes "https://play.example.org/lnbits/enter?game=a%26b&ticket=ann") refl refl
