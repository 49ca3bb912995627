-- ===== src/Admin.antt =====
-- The owner's page, static/admin.js: what it computes from its form before it makes a call. Its
-- methods are in Admin/Methods, and the render function is in Admin/Render.
pub mod Agreement
pub mod Arenas
pub mod Cards
pub mod Desk
pub mod Loading
pub mod Markup
pub mod Methods
pub mod Render
pub mod Saving
use bananabreadwasm.Prelude.{
  ℕ, ◌%◌, ◌^◌, Bool, true, false, not, ◌&&◌, Option, none, some, List, [], ◌∷◌, length, ltb, leb,
  ◌==◌, if◌then◌else◌,
}
use bananabreadwasm.Text.{Text, codes, text_eq, is_empty, or_text, trim, drop_end, includes}
use bananabreadwasm.Js.{
  Number, nan, finite, Value, null, bool, str, obj, Fields, field, end, Engine, nullish_or,
  number_of, whole,
}
use bananabreadwasm.Gateway.{Scheme, is_slash, is_local_name, is_allowed, match_url, hostname}
use bananabreadwasm.Host.{Wallet}
use bananabreadwasm.Handlers.Arenas.{min_join_sats, max_join_sats}

-- The messages of the form; no message is the empty string.
pub data Fault : Type 0 where
  select_wallet enter_gateway invalid_gateway insecure_gateway short_secret : Fault

-- The fields of `settings`; the haircut is what the input holds.
pub record Form : Type 0 where
  pub enabled : Bool
  pub haircut : Value
  pub wallet_id : Text
  pub gateway_url : Text
  pub server_secret : Text

-- The data of the page that the computed properties read.
pub record Page : Type 0 where
  pub settings : Form
  pub saved_settings : Option Form
  pub game_name : Text
  pub join_amount : Value
  pub wallets : List Wallet

-- The fields that `settingsFingerprint` writes as JSON. Equal texts are equal fields.
pub record Fingerprint : Type 0 where
  pub enabled : Bool
  pub wallet_id : Text
  pub haircut : Text
  pub gateway_url : Text
  pub server_secret : Text

unfoldable pub normalized_gateway_url : Text → Text
normalized_gateway_url value = drop_end is_slash (trim value)

-- `a || b` on messages.
abbrev pub or_fault : Option Fault → Option Fault → Option Fault
or_fault none b = b
or_fault (some a) b = some a

abbrev first_wallet : List Wallet → Text
first_wallet [] = []
first_wallet (w ∷ ws) = w.id

-- `wallets.find(wallet => wallet.id === id)?.name || ''`
unfoldable pub wallet_name : Text → List Wallet → Text
wallet_name id [] = []
wallet_name id (w ∷ ws) = let later = wallet_name id ws in if text_eq w.id id then w.name else later

unfoldable pub effective_wallet_id : Page → Text
effective_wallet_id page = or_text page.settings.wallet_id (first_wallet page.wallets)

unfoldable pub wallet_error : Page → Option Fault
wallet_error page =
    if page.settings.enabled && is_empty (effective_wallet_id page)
    then some select_wallet
    else none

unfoldable pub server_secret_error : Form → Option Fault
server_secret_error form =
    if form.enabled && ltb (length (trim form.server_secret)) 32 then some short_secret else none

abbrev is_none : Option Fault → Bool
is_none none = true
is_none (some f) = false

abbrev same_bool : Bool → Bool → Bool
same_bool true b = b
same_bool false b = not b

unfoldable pub same_fingerprint : Fingerprint → Fingerprint → Bool
unfolding text_eq
same_fingerprint a b =
    same_bool a.enabled b.enabled
    && text_eq a.wallet_id b.wallet_id
    && text_eq a.haircut b.haircut
    && text_eq a.gateway_url b.gateway_url
    && text_eq a.server_secret b.server_secret

-- `Number.isSafeInteger(n) && n >= 50 && n <= 100`
unfoldable pub is_join_amount : Number → Bool
is_join_amount nan = false
is_join_amount (finite true m d) = false
is_join_amount (finite false m d) =
    m % 10 ^ d == 0 && leb min_join_sats (whole m d) && leb (whole m d) max_join_sats

abbrev pub ten : Value
ten = Value.num (finite false 10 0)

-- A number in JSON.
abbrev pub json_number : Number → Value
json_number nan = null
json_number (finite neg m d) = Value.num (finite neg m d)

module _ (engine : Engine) where
  unfoldable pub fault_of : Option (Scheme × Text) → Option Fault
  fault_of none = some invalid_gateway
  fault_of (some (scheme, authority)) =
      if includes b'@' authority
      then some invalid_gateway
      else if is_allowed scheme (is_local_name (hostname engine authority))
      then none
      else some insecure_gateway

  unfoldable pub gateway_url_error : Text → Option Fault
  gateway_url_error value =
      let text = normalized_gateway_url value in
      if is_empty text then some enter_gateway else fault_of (match_url text)

  abbrev number_text : Number → Text
  number_text nan = codes "null"
  number_text (finite neg m d) = engine.text_of_number (finite neg m d)

  unfoldable pub settings_fingerprint : Form → Text → Fingerprint
  unfolding normalized_gateway_url number_of nullish_or trim
  settings_fingerprint form wallet_id = record {
    enabled = form.enabled;
    wallet_id = wallet_id;
    haircut = number_text (number_of engine (nullish_or form.haircut ten));
    gateway_url = normalized_gateway_url form.gateway_url;
    server_secret = trim form.server_secret;
  }

  unfoldable pub gateway_error : Form → Option Fault
  unfolding gateway_url_error
  gateway_error form = if form.enabled then gateway_url_error form.gateway_url else none

  unfoldable pub settings_validation_error : Page → Option Fault
  unfolding wallet_error gateway_error server_secret_error
  settings_validation_error page =
      or_fault (wallet_error page)
        (or_fault (gateway_error page.settings) (server_secret_error page.settings))

  unfoldable pub can_save : Page → Bool
  unfolding settings_validation_error
  can_save page = is_none (settings_validation_error page)

  abbrev saved_as : Page → Option Form → Bool
  saved_as page none = false
  saved_as page (some saved) =
      same_fingerprint (settings_fingerprint page.settings (effective_wallet_id page))
        (settings_fingerprint saved saved.wallet_id)

  abbrev is_enabled : Option Form → Bool
  is_enabled none = false
  is_enabled (some saved) = saved.enabled

  unfoldable pub settings_are_saved : Page → Bool
  unfolding settings_fingerprint same_fingerprint effective_wallet_id
  settings_are_saved page = saved_as page page.saved_settings

  unfoldable pub can_authorize_payouts : Page → Bool
  unfolding settings_are_saved effective_wallet_id
  can_authorize_payouts page =
      settings_are_saved page
      && is_enabled page.saved_settings
      && not (is_empty (effective_wallet_id page))

  unfoldable pub can_create : Page → Bool
  unfolding can_authorize_payouts number_of is_join_amount
  can_create page =
      can_authorize_payouts page
      && not (is_empty page.game_name)
      && is_join_amount (number_of engine page.join_amount)

  -- The request of `saveSettings`.
  unfoldable pub save_request : Page → Value
  unfolding effective_wallet_id wallet_name number_of nullish_or
  save_request page =
      let form = page.settings in
      obj (
        field "enabled" (bool form.enabled) (
          field "walletId" (str (effective_wallet_id page)) (
            field "walletName" (str (wallet_name (effective_wallet_id page) page.wallets)) (
              field "haircut" (json_number (number_of engine (nullish_or form.haircut ten))) (
                field "gatewayUrl" (str form.gateway_url)
                  (field "serverSecret" (str form.server_secret) end))))))

-- The request of `createGame`.
unfoldable pub create_request : Engine → Page → Value
unfolding number_of
create_request engine page = obj (
    field "name" (str page.game_name)
      (field "joinAmount" (json_number (number_of engine page.join_amount)) end))
