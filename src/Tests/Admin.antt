-- ===== src/Tests/Admin.antt =====
-- Runs of the owner's page and of the call that saves its settings.
use bananabreadwasm.Prelude.{◌≤◌, ◌≡◌, refl, true, false, none, [], ◌∷◌, length, take, arith}
use bananabreadwasm.Text.{
  Text, codes, is_empty, trim, trim_start, drop_end, is_space, includes, span_while, ascii_lower,
  text_eq,
}
use bananabreadwasm.Result.{ok}
use bananabreadwasm.Js.{null, str, number_of, nullish_or}
use bananabreadwasm.Gateway.{normalize_gateway_url, match_url, match_rest, strip_prefix, hostname}
use bananabreadwasm.Rows.{Settings}
use bananabreadwasm.Handlers.Config.{save_bananabreadwasm_settings}
use bananabreadwasm.Admin.{
  Page, normalized_gateway_url, gateway_url_error, fault_of, effective_wallet_id, can_save,
  save_request, settings_validation_error, wallet_error, gateway_error, server_secret_error,
}
use bananabreadwasm.Admin.Agreement.{verdict, gateway_url_error-agrees}
use bananabreadwasm.Handlers.Config.{get_bananabreadwasm_settings}
use bananabreadwasm.Admin.{ten, Form, settings_are_saved, can_authorize_payouts}
use bananabreadwasm.Admin.Desk.{first_desk}
use bananabreadwasm.Admin.Saving.{fee_of}
use bananabreadwasm.Admin.Methods.{take_settings}
use bananabreadwasm.Admin.Loading.{natural, owner_settings, read_form, settings_survive_reload}
use bananabreadwasm.Tests.Sample.{engine, host, empty_world}

abbrev play_url : Text
play_url = codes " http://localhost:8080/ "

play_url_short : length (trim play_url) ≤ 500
unfolding trim trim_start drop_end is_space
play_url_short = omega arith

gateway_url_error-agrees_example :
    normalize_gateway_url engine (str play_url)
    ≡ verdict (normalized_gateway_url play_url) (gateway_url_error engine play_url)
gateway_url_error-agrees_example = gateway_url_error-agrees engine play_url play_url_short

abbrev page : Page
page = record {
  settings = record {
    enabled = true;
    haircut = null;
    wallet_id = [];
    gateway_url = play_url;
    server_secret = codes "0123456789abcdef0123456789abcdef";
  };
  saved_settings = none;
  game_name = codes "Arena";
  join_amount = null;
  wallets = record { id = codes "purse"; name = codes "Purse" } ∷ [];
}

abbrev form : Form
form = record {
  enabled = false;
  haircut = null;
  wallet_id = [];
  gateway_url = [];
  server_secret = [];
}

page_saves : can_save engine page ≡ true
unfolding can_save settings_validation_error wallet_error gateway_error server_secret_error
    effective_wallet_id gateway_url_error fault_of normalized_gateway_url match_url match_rest
    strip_prefix hostname trim trim_start drop_end is_space includes span_while ascii_lower text_eq
page_saves = refl

purse_visible : is_empty (trim (effective_wallet_id page)) ≡ false
unfolding effective_wallet_id trim trim_start drop_end is_space
purse_visible = refl

settings_survive_reload_example :
    let after = save_bananabreadwasm_settings host (save_request engine page) empty_world in
    (s : Settings) × (after.0 ≡ ok s)
    × ((get_bananabreadwasm_settings host after.1).0 ≡ ok s)
    × (let loaded = (take_settings (read_form form (owner_settings s)) (first_desk page)).page in
        (loaded.settings.enabled ≡ true)
        × (loaded.settings.gateway_url ≡ normalized_gateway_url page.settings.gateway_url)
        × (loaded.settings.wallet_id ≡ take 128 (trim (effective_wallet_id page)))
        × (loaded.settings.haircut
            ≡ natural (fee_of (number_of engine (nullish_or page.settings.haircut ten))))
        × (loaded.settings.server_secret ≡ take 256 (trim page.settings.server_secret))
        × (settings_are_saved engine loaded ≡ true)
        × (can_authorize_payouts engine loaded ≡ true))
settings_survive_reload_example =
    settings_survive_reload host page form (first_desk page) empty_world page_saves refl
      play_url_short purse_visible
