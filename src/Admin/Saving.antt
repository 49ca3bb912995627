-- ===== src/Admin/Saving.antt =====
-- The settings that static/admin.js lets its owner save, and saveBananabreadwasmSettings of
-- dev/src/index.js.
use bananabreadwasm.Prelude.{
  ℕ, suc, ◌≤◌, ◌≡◌, refl, true, false, none, some, [], ◌∷◌, length, take, ltb, arith, length-take,
  min, ◌/◌, ◌^◌,
}
use bananabreadwasm.Text.{Text, is_empty, trim, text_eq_refl}
use bananabreadwasm.Result.{ok}
use bananabreadwasm.Js.{
  Number, nan, finite, str, Engine, string_of, nullish_or, number_of, get_field, truthy,
}
use bananabreadwasm.Normalize.{clean_text, parse_json_object, normalize_integer}
use bananabreadwasm.Gateway.{normalize_gateway_url}
use bananabreadwasm.Rows.{Settings}
use bananabreadwasm.Players.{or_number}
use bananabreadwasm.Host.{Host, World, now, time_at}
use bananabreadwasm.Handlers.Checks.{check_settings}
use bananabreadwasm.Handlers.Config.{
  settings_id, or_default, default_row, get_settings, default_settings,
  save_bananabreadwasm_settings,
}
use bananabreadwasm.Admin.{
  Page, ten, json_number, wallet_name, effective_wallet_id, normalized_gateway_url,
  gateway_url_error, gateway_error, server_secret_error, wallet_error, settings_validation_error,
  can_save, save_request,
}
use bananabreadwasm.Admin.Agreement.{gateway_url_error-agrees}

cut_long : (n m : ℕ) → ltb n 32 ≡ false → m ≡ min 256 n → ltb m 32 ≡ false
cut_long n m long e = ground arith

check_settings_of :
    (s : Settings)
    → s.enabled ≡ true
    → is_empty s.wallet_id ≡ false
    → is_empty s.gateway_url ≡ false
    → ltb (length s.server_secret) 32 ≡ false
    → check_settings s ≡ ok tt
unfolding check_settings
check_settings_of s on wallet url secret = ground arith

module _ (engine : Engine) where
  -- A text whose trimmed form is not empty is not empty when it is cleaned.
  clean_text_full :
      (s : Text) → is_empty (trim s) ≡ false → is_empty (clean_text engine (str s) 128) ≡ false
  unfolding clean_text nullish_or string_of
  clean_text_full s full = go (trim s) full
    where
      go : (t : Text) → is_empty t ≡ false → is_empty (take 128 t) ≡ false
      go [] e = e
      go (c ∷ t) e = refl

  -- A secret of 32 characters or more is as long when it is cut at 256.
  clean_text_long :
      (s : Text)
      → ltb (length (trim s)) 32 ≡ false
      → ltb (length (clean_text engine (str s) 256)) 32 ≡ false
  unfolding clean_text nullish_or string_of
  clean_text_long s long =
      cut_long (length (trim s)) (length (take 256 (trim s))) long (length-take 256 (trim s))

  -- What the page checked of an enabled form.
  can_save-parts :
      (page : Page)
      → can_save engine page ≡ true
      → page.settings.enabled ≡ true
      → (gateway_url_error engine page.settings.gateway_url ≡ none)
        × (ltb (length (trim page.settings.server_secret)) 32 ≡ false)
  unfolding can_save settings_validation_error gateway_error server_secret_error wallet_error
  can_save-parts page saves on = (ground arith, ground arith)

  gateway_url_error_full :
      (s : Text) → gateway_url_error engine s ≡ none → is_empty (normalized_gateway_url s) ≡ false
  unfolding gateway_url_error
  gateway_url_error_full s e = ground arith

-- The fee in per cent of a number in the form: whole, at most 100, 10 if it is not a number.
abbrev pub fee_of : Number → ℕ
fee_of nan = 10
fee_of (finite true m d) = 0
fee_of (finite false m d) = min 100 (m / 10 ^ d)

normalize_integer-fee_of :
    (engine : Engine) (x : Number) → normalize_integer engine (json_number x) 10 0 100 ≡ fee_of x
unfolding normalize_integer number_of nullish_or
normalize_integer-fee_of engine nan = refl
normalize_integer-fee_of engine (finite true m d) = refl
normalize_integer-fee_of engine (finite false m d) = ground arith

module _ (h : Host) where
  -- The row that the extension makes of the page's request.
  abbrev saved_row : Page → Text → World h → Settings
  saved_row page url w = record {
    id = settings_id;
    wallet_id = clean_text h.engine (str (effective_wallet_id page)) 128;
    wallet_name =
        clean_text h.engine (str (wallet_name (effective_wallet_id page) page.wallets)) 120;
    enabled = page.settings.enabled;
    haircut =
        normalize_integer h.engine
          (json_number (number_of h.engine (nullish_or page.settings.haircut ten))) 10 0 100;
    gateway_url = url;
    server_secret = clean_text h.engine (str page.settings.server_secret) 256;
    created_at =
        or_number
          (or_default (h.settings.get settings_id w.settings)
            (default_row (time_at h w.ticks))).created_at
          (time_at h (suc w.ticks));
    updated_at = time_at h (suc w.ticks);
  }

  save_request-eq :
      (page : Page) (url : Text) (w : World h)
      → normalize_gateway_url h.engine (str page.settings.gateway_url) ≡ ok url
      → check_settings (saved_row page url w) ≡ ok tt
      → save_bananabreadwasm_settings h (save_request h.engine page) w ≡ (
        ok (saved_row page url w),
        record w {
          ticks = suc (suc w.ticks);
          settings = h.settings.set (saved_row page url w) w.settings;
        },
      )
  unfolding save_bananabreadwasm_settings save_request parse_json_object truthy get_field nullish_or
      get_settings default_settings now
  save_request-eq page url w e passes = rw (e, passes) refl

  -- If the page lets its owner save an enabled form, and the gateway's URL has at most 500
  -- characters and the wallet's id a visible one, then the extension accepts the request: it stores
  -- settings that are enabled, with the URL that the page checked, and with the wallet, the fee and
  -- the secret of the form, cut to their lengths.
  pub can_save-accepted :
      (page : Page) (w : World h)
      → can_save h.engine page ≡ true
      → page.settings.enabled ≡ true
      → length (trim page.settings.gateway_url) ≤ 500
      → is_empty (trim (effective_wallet_id page)) ≡ false
      → let after = save_bananabreadwasm_settings h (save_request h.engine page) w in
        (s : Settings) × (after.0 ≡ ok s)
        × (h.settings.get settings_id after.1.settings ≡ some s)
        × (s.enabled ≡ true)
        × (s.gateway_url ≡ normalized_gateway_url page.settings.gateway_url)
        × (is_empty s.wallet_id ≡ false)
        × (s.wallet_id ≡ take 128 (trim (effective_wallet_id page)))
        × (s.haircut ≡ fee_of (number_of h.engine (nullish_or page.settings.haircut ten)))
        × (s.server_secret ≡ take 256 (trim page.settings.server_secret))
  unfolding clean_text nullish_or string_of
  can_save-accepted page w saves on fits wallet =
      let (url, secret) = can_save-parts h.engine page saves on in
      let agreed = gateway_url_error-agrees h.engine page.settings.gateway_url fits in
      let full = gateway_url_error_full h.engine page.settings.gateway_url url in
      let wallet' = clean_text_full h.engine (effective_wallet_id page) wallet in
      let long = clean_text_long h.engine page.settings.server_secret secret in
      let row = saved_row page (normalized_gateway_url page.settings.gateway_url) w in
      let passes : check_settings row ≡ ok tt = check_settings_of row on wallet' full long in
      let stored : normalize_gateway_url h.engine (str page.settings.gateway_url)
          ≡ ok (normalized_gateway_url page.settings.gateway_url) =
        rw url at agreed in
      let saved =
        save_request-eq page (normalized_gateway_url page.settings.gateway_url) w stored passes in
      rw saved (
        row,
        refl,
        rw (h.settings.get_set settings_id row w.settings, text_eq_refl settings_id) refl,
        on,
        refl,
        wallet',
        refl,
        normalize_integer-fee_of h.engine
            (number_of h.engine (nullish_or page.settings.haircut ten)),
        refl,
      )
