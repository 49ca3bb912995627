-- ===== src/Handlers/Checks.antt =====
-- The tests of settings in dev/src/index.js: those of `saveBananabreadwasmSettings` and
-- `validateEnabledSettings`.
use bananabreadwasm.Prelude.{◌&&◌, length, ltb}
use bananabreadwasm.Text.{is_empty}
use bananabreadwasm.Result.{
  Result, throw_if, wallet_id_required, gateway_url_required, server_secret_short, wallet_unset,
  gateway_unset, secret_unset, ◌>>◌,
}
use bananabreadwasm.Rows.{Settings}

-- The three tests on a row that is about to be saved.
unfoldable pub check_settings : Settings → Result (Unit {0})
check_settings s =
    throw_if (s.enabled && is_empty s.wallet_id) wallet_id_required
    >> throw_if (s.enabled && is_empty s.gateway_url) gateway_url_required
    >> throw_if (s.enabled && ltb (length s.server_secret) 32) server_secret_short

unfoldable pub validate_enabled_settings : Settings → Result (Unit {0})
validate_enabled_settings s =
    throw_if (is_empty s.wallet_id) wallet_unset
    >> throw_if (is_empty s.gateway_url) gateway_unset
    >> throw_if (ltb (length s.server_secret) 32) secret_unset
