-- ===== src/Client/Replies.antt =====
-- The JSON of the replies of `runJson` in dev/src/index.js, and what `unwrapRuntimeResponse` of
-- static/lnbits-extension-sdk.js makes of it.
use bananabreadwasm.Prelude.{◌≡◌, refl, true, false, some, [], ◌∷◌, ◌++◌}
use bananabreadwasm.Text.{Text, codes, or_text}
use bananabreadwasm.Result.{
  Error, syntax_error, not_object, required, not_a_player, wallet_id_required, gateway_url_required,
  server_secret_short, arenas_disabled, wallet_unset, gateway_unset, secret_unset, arena_not_found,
  live_players_left, settlements_left, admissions_disabled, arena_inactive, arena_full,
  payment_hash_required, no_live_player, invalid_secret, self_kill, victim_not_alive,
  killer_not_alive, too_few_players, player_not_alive, bad_kind, invalid_ln_address,
  invalid_gateway_url, gateway_not_https, malformed_uri, host_threw,
}
use bananabreadwasm.Js.{
  Value, bool, str, obj, Fields, field, end, get_field, member, or_value, string_of,
}
use bananabreadwasm.Handlers.Config.{Reply, data_of, error_of}
use bananabreadwasm.Bridge.{Outcome, answered, rejected}
use bananabreadwasm.Client.{Browser, unwrap_value, unwrap_runtime_response}

-- The message of a thrown error; `syntax` is that of the engine's `JSON.parse`.
unfoldable pub error_text : Text → Error → Text
error_text syntax syntax_error = syntax
error_text syntax not_object = codes "request must be a JSON object."
error_text syntax (required name) = codes name ++ codes " is required."
error_text syntax (not_a_player name) = codes name ++ codes " is not a player in this arena."
error_text syntax wallet_id_required = codes "walletId is required when BananaBread is enabled."
error_text syntax gateway_url_required = codes "gatewayUrl is required when BananaBread is enabled."
error_text syntax server_secret_short =
    codes "serverSecret must contain at least 32 characters when BananaBread is enabled."
error_text syntax arenas_disabled = codes "BananaBread arenas are disabled."
error_text syntax wallet_unset = codes "BananaBread wallet is not configured."
error_text syntax gateway_unset = codes "BananaBread gateway is not configured."
error_text syntax secret_unset = codes "BananaBread server secret is not configured."
error_text syntax arena_not_found = codes "BananaBread arena not found."
error_text syntax live_players_left =
    codes "Remove or settle all live players before deleting this arena."
error_text syntax settlements_left =
    codes "Retry or resolve all pending settlements before deleting this arena."
error_text syntax admissions_disabled = codes "Arena admissions are disabled."
error_text syntax arena_inactive = codes "This arena is not active."
error_text syntax arena_full = codes "This arena is full."
error_text syntax payment_hash_required = codes "paymentHash is required."
error_text syntax no_live_player = codes "A live paid player token is required."
error_text syntax invalid_secret = codes "Invalid BananaBread server secret."
error_text syntax self_kill = codes "Self kills cannot be paid out."
error_text syntax victim_not_alive = codes "Victim is not alive in this arena."
error_text syntax killer_not_alive = codes "Killer is not alive in this arena."
error_text syntax too_few_players = codes "Rewards require at least two paid live players."
error_text syntax player_not_alive = codes "Player is not alive in this arena."
error_text syntax bad_kind = codes "kind must be all, payout, or refund."
error_text syntax invalid_ln_address = codes "Enter a valid Lightning address."
error_text syntax invalid_gateway_url = codes "Enter a valid gateway URL."
error_text syntax gateway_not_https =
    codes "gatewayUrl must use HTTPS (HTTP is allowed on localhost)."
error_text syntax malformed_uri = codes "URI malformed"
error_text syntax (host_threw message) = message

module _ {A : Type 0} (encode : A → Fields) (syntax : Text) where
  -- The value that `runJson` writes as JSON.
  unfoldable pub reply_value : Reply A → Value
  unfolding error_text
  reply_value (data_of a) = obj (field "ok" (bool true) (field "data" (obj (encode a)) end))
  reply_value (error_of e) =
      obj (field "ok" (bool false) (field "error" (str (error_text syntax e)) end))

  -- What the caller of the client should see of a reply.
  abbrev pub seen : Reply A → Outcome
  seen (data_of a) = answered (obj (encode a))
  seen (error_of e) = rejected (or_text (error_text syntax e) (codes "Extension call failed."))

  -- A reply reaches the caller of the client whole, if the engine reads from its text the value that was
  -- written: the data of a call that returned, or the message of the error that it threw.
  pub reply_returns :
      (b : Browser) (r : Reply A) (text : Text)
      → b.engine.json_parse text ≡ some (reply_value r)
      → unwrap_runtime_response b (str text) ≡ seen r
  unfolding unwrap_runtime_response unwrap_value reply_value member get_field or_value string_of
  reply_returns b (data_of a) text read = rw read refl
  reply_returns b (error_of e) text read = rw read (shown_error (error_text syntax e))
    where
      shown_error :
          (t : Text)
          → rejected (string_of b.engine (or_value (str t) (str (codes "Extension call failed."))))
            ≡ rejected (or_text t (codes "Extension call failed."))
      shown_error [] = refl
      shown_error (c ∷ t) = refl
