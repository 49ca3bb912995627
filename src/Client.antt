-- ===== src/Client.antt =====
-- The client of static/lnbits-extension-sdk.js: the message that each of its calls sends over the
-- bridge, and what it makes of the extension's replies. The bridge itself is in Bridge.
pub mod LobbyJson
pub mod Paths
pub mod Replies
use bananabreadwasm.Prelude.{
  ℕ, Bool, true, false, Option, none, some, List, [], ◌∷◌, ◌++◌, take, if◌then◌else◌,
}
use bananabreadwasm.Text.{Text, codes, is_empty}
use bananabreadwasm.Result.{Result, ok, ◌>>=◌}
use bananabreadwasm.Js.{
  Engine, Value, undefined, null, bool, str, obj, Fields, field, end, member, or_value, string_of,
}
use bananabreadwasm.Gateway.{encode_uri_component}
use bananabreadwasm.Bridge.{Outcome, answered, rejected, Request, Bridge, settle, bridge_request}
use bananabreadwasm.Bridge.Subscriptions.{Topic, payment, websocket, Subscription}

-- What the browser supplies: `URLSearchParams`, `JSON.parse(JSON.stringify(…))`, and the message of
-- the error of `JSON.parse`.
pub record Browser : Type 0 where
  pub engine : Engine
  pub form_encode : List (Text × Text) → Text
  pub plain : Value → Value
  pub syntax_message : Text → Text

-- The calls of `createLNbitsExtensionClient` but those for subscriptions.
pub data ClientCall : Type 0 where
  context get_settings list_wallets : ClientCall
  notify : Value → Text → ClientCall
  get_session_value : Text → ClientCall
  set_session_value : Text → Value → ClientCall
  request_background_payment_permission : Value → Bool → ClientCall
  save_settings create_game : Value → ClientCall
  list_games : List (Text × Value) → ClientCall
  delete_game : Text → ClientCall
  get_public_game : Text → Text → ClientCall
  join_game settle_game : Text → Value → ClientCall

-- `Object.entries(params)`, less those that are undefined, null or empty.
abbrev is_absent : Value → Bool
is_absent undefined = true
is_absent null = true
is_absent (str s) = is_empty s
is_absent _ = false

module _ (b : Browser) where
  open b use {engine, form_encode, plain}

  -- `errorMessage`
  unfoldable pub error_message : Value → Text
  unfolding or_value string_of
  error_message value =
      take 500 (string_of engine (or_value value (str (codes "Something went wrong."))))

  -- `plainData`
  unfoldable pub plain_data : Value → Value
  plain_data undefined = null
  plain_data null = null
  plain_data v = plain v

  -- `request`, up to the bridge.
  unfoldable pub api_message : Text → Text → Value → Fields
  unfolding plain_data
  api_message method path body =
      field "action" (str (codes "api"))
        (field "method" (str method) (field "path" (str path) (field "body" (plain_data body) end)))

  unfoldable pub query_of : List (Text × Value) → List (Text × Text)
  unfolding string_of
  query_of [] = []
  query_of ((key, value) ∷ ps) =
      if is_absent value then query_of ps else (key, string_of engine value) ∷ query_of ps

  abbrev with_query : Text → List (Text × Text) → Text
  with_query path [] = path
  with_query path (p ∷ ps) =
      let query = form_encode (p ∷ ps) in if is_empty query then path else path ++ b'?' ∷ query

  module _ (extension_id : Text) where
    abbrev pub base_url : Text
    base_url = codes "/api/v1/ext/" ++ extension_id

    -- `${baseUrl}/games/${encodeURIComponent(gameId)}`
    unfoldable pub game_path : Text → Result Text
    game_path game_id =
        encode_uri_component game_id >>= λ id. ok (base_url ++ codes "/games/" ++ id)

    abbrev game_request : Text → Text → Text → Value → Result Fields
    game_request method game_id suffix body =
        game_path game_id >>= λ path. ok (api_message method (path ++ suffix) body)

    -- The message of a call. A game id that is no well-formed text makes `encodeURIComponent` throw.
    unfoldable pub message_of : ClientCall → Result Fields
    unfolding error_message api_message query_of game_path
    message_of context = ok (field "action" (str (codes "context")) end)
    message_of (notify message level) = ok (
        field "action" (str (codes "ui.notify"))
          (field "level" (str level) (field "message" (str (error_message message)) end)))
    message_of (get_session_value key) =
        ok (field "action" (str (codes "storage.session.get")) (field "key" (str key) end))
    message_of (set_session_value key value) = ok (
        field "action" (str (codes "storage.session.set"))
          (field "key" (str key) (field "value" value end)))
    message_of (request_background_payment_permission grant force_prompt) = ok (
        field "action" (str (codes "permissions.request_background_payment"))
          (field "grant" grant (field "forcePrompt" (bool force_prompt) end)))
    message_of get_settings = ok (api_message (codes "GET") (base_url ++ codes "/settings") null)
    message_of (save_settings payload) =
        ok (api_message (codes "PUT") (base_url ++ codes "/settings") payload)
    message_of list_wallets = ok (api_message (codes "GET") (base_url ++ codes "/wallets") null)
    message_of (create_game payload) =
        ok (api_message (codes "POST") (base_url ++ codes "/games") payload)
    message_of (list_games params) =
        ok (
          api_message (codes "GET") (with_query (base_url ++ codes "/games") (query_of params))
            null)
    message_of (delete_game game_id) = game_request (codes "DELETE") game_id [] null
    message_of (get_public_game game_id player_token) =
        game_request (codes "GET") game_id
          (if is_empty player_token
            then []
            else b'?' ∷ form_encode ((codes "playerToken", player_token) ∷ []))
          null
    message_of (join_game game_id payload) =
        game_request (codes "POST") game_id (codes "/join") payload
    message_of (settle_game game_id payload) =
        game_request (codes "POST") game_id (codes "/settle") payload

  abbrev parsed_or : Text → Option Value → Outcome
  parsed_or s none = rejected (b.syntax_message s)
  parsed_or s (some v) = answered v

  abbrev is_ok : Value → Bool → Bool
  is_ok (bool x) true = x
  is_ok (bool true) false = false
  is_ok (bool false) false = true
  is_ok _ _ = false

  -- What `unwrapRuntimeResponse` makes of a value that is no text.
  unfoldable pub unwrap_value : Value → Outcome
  unfolding member or_value string_of
  unwrap_value value =
      if is_ok (member "ok" value) false
      then rejected (
          string_of engine (or_value (member "error" value) (str (codes "Extension call failed."))))
      else if is_ok (member "ok" value) true
      then answered (or_value (member "data" value) (obj end))
      else answered (or_value value (obj end))

  abbrev unwrap_parsed : Outcome → Outcome
  unwrap_parsed (answered v) = unwrap_value v
  unwrap_parsed (rejected e) = rejected e

  -- `unwrapRuntimeResponse`
  unfoldable pub unwrap_runtime_response : Value → Outcome
  unfolding unwrap_value
  unwrap_runtime_response (str s) = unwrap_parsed (parsed_or s (engine.json_parse s))
  unwrap_runtime_response v = unwrap_value v

  -- The message of the `send` of a websocket subscription.
  unfoldable pub send_message : Text → Value → Fields
  unfolding plain_data or_value
  send_message id value =
      field "action" (str (codes "websocket.send"))
        (field "subscriptionId" (str id) (field "data" (or_value (plain_data value) (obj end)) end))

  abbrev not_open : Outcome
  not_open = rejected (codes "Websocket subscription is not open.")

  -- `sendWebsocket`: only the function that a websocket subscription resolved with can send. It does so
  -- whether or not it was called to unsubscribe.
  unfoldable pub send_websocket :
      (ℕ → Text) → Bool → Option Subscription → Value → ℕ → Bridge → Bridge
  unfolding send_message bridge_request settle
  send_websocket request_id is_framed none value call bridge = settle call not_open bridge
  send_websocket request_id is_framed (some s) value call bridge = elim s.topic [
    | payment hash ↦ settle call not_open bridge
    | websocket item ↦
        bridge_request engine request_id is_framed
          (record { call = call; message = send_message s.id value }) bridge
  ]
