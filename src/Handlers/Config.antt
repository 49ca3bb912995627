-- ===== src/Handlers/Config.antt =====
-- The arena owner's settings: `getSettings`, `saveBananabreadwasmSettings` and the two exports that
-- only read. `runJson` turns a throw into a reply.
use bananabreadwasm.Prelude.{ℕ, Bool, false, Option, none, some, List, []}
use bananabreadwasm.Text.{Text, codes}
use bananabreadwasm.Result.{Result, ok, err, Error}
use bananabreadwasm.Js.{Value, bool, get_field}
use bananabreadwasm.Normalize.{clean_text, either_field, normalize_integer, parse_json_object}
use bananabreadwasm.Gateway.{normalize_gateway_url}
use bananabreadwasm.Rows.{Settings}
use bananabreadwasm.Players.{or_number}
use bananabreadwasm.Host.{
  Host, World, Exec, Wallet, pure, lift, gets, now, save_settings, ◌>>=◌, ◌>>◌,
}
use bananabreadwasm.Handlers.Checks.{check_settings}

abbrev pub settings_id : Text
settings_id = codes "bananabreadwasm-settings"

abbrev default_haircut : ℕ
default_haircut = 10

-- `value === true`
abbrev pub is_true : Value → Bool
is_true (bool b) = b
is_true _ = false

abbrev pub or_default : Option Settings → Settings → Settings
or_default none d = d
or_default (some s) d = s

-- The replies of `runJson`, before they are written as JSON.
pub data Reply (A : Type 0) : Type 0 where
  data_of : A → Reply A
  error_of : Error → Reply A

abbrev reply_of : {A : Type 0} → Result A → Reply A
reply_of (ok a) = data_of a
reply_of (err e) = error_of e

unfoldable pub run_json : {h : Host} {A : Type 0} → Exec h A → World h → Reply A × World h
run_json f w = let (r, w') = f w in (reply_of r, w')

-- The settings before any are saved.
abbrev pub default_row : ℕ → Settings
default_row at = record {
  id = settings_id;
  wallet_id = [];
  wallet_name = [];
  enabled = false;
  haircut = default_haircut;
  gateway_url = [];
  server_secret = [];
  created_at = at;
  updated_at = at;
}

module _ (h : Host) where
  -- The clock is read whether or not a row is stored.
  unfoldable pub default_settings : Exec h Settings
  unfolding now
  default_settings = do at ← now h; pure (default_row at)

  unfoldable pub get_settings : Exec h Settings
  unfolding default_settings
  get_settings = do
    fallback ← default_settings
    found ← gets (λ w. h.settings.get settings_id w.settings)
    pure (or_default found fallback)

  -- `ownerSettings` shows a row as it is, under other field names.
  unfoldable pub get_bananabreadwasm_settings : Exec h Settings
  unfolding get_settings
  get_bananabreadwasm_settings = get_settings

  unfoldable pub save_bananabreadwasm_settings : Value → Exec h Settings
  unfolding get_settings check_settings
  save_bananabreadwasm_settings input = do
    request ← lift (parse_json_object h.engine input)
    existing ← get_settings
    at ← now h
    gateway_url ←
        lift (normalize_gateway_url h.engine (either_field "gatewayUrl" "gateway_url" request))
    let settings : Settings = record {
      id = settings_id;
      wallet_id = clean_text h.engine (either_field "walletId" "wallet_id" request) 128;
      wallet_name = clean_text h.engine (either_field "walletName" "wallet_name" request) 120;
      enabled = is_true (get_field "enabled" request);
      haircut = normalize_integer h.engine (get_field "haircut" request) default_haircut 0 100;
      gateway_url = gateway_url;
      server_secret = clean_text h.engine (either_field "serverSecret" "server_secret" request) 256;
      created_at = or_number existing.created_at at;
      updated_at = at;
    }
    lift (check_settings settings)
    save_settings h settings
    pure settings

  unfoldable pub list_bananabreadwasm_wallets : Exec h (List Wallet)
  list_bananabreadwasm_wallets = pure h.wallets
