-- ===== src/Admin/Loading.antt =====
-- Settings as JSON: `ownerSettings` of dev/src/index.js writes them, and fetchSettings of
-- static/admin.js spreads them over its form.
use bananabreadwasm.Prelude.{ℕ, ◌≤◌, ◌≡◌, refl, Bool, true, false, some, length, take, ap, arith}
use bananabreadwasm.Text.{Text, is_empty, trim}
use bananabreadwasm.Result.{ok}
use bananabreadwasm.Js.{
  Value, undefined, bool, num, finite, str, number_of, nullish_or, Fields, field, end, get_field,
}
use bananabreadwasm.Rows.{Settings}
use bananabreadwasm.Host.{Host, World, now}
use bananabreadwasm.Handlers.Config.{
  settings_id, get_settings, default_settings, get_bananabreadwasm_settings,
  save_bananabreadwasm_settings,
}
use bananabreadwasm.Admin.{
  ten, Form, Page, can_save, save_request, effective_wallet_id, normalized_gateway_url,
  settings_are_saved, can_authorize_payouts,
}
use bananabreadwasm.Admin.Desk.{Desk}
use bananabreadwasm.Admin.Methods.{take_settings}
use bananabreadwasm.Admin.Methods.Saved.{fresh_is_saved}
use bananabreadwasm.Admin.Saving.{fee_of, can_save-accepted}

abbrev pub natural : ℕ → Value
natural n = num (finite false n 0)

-- `ownerSettings`
unfoldable pub owner_settings : Settings → Fields
owner_settings s = field "id" (str s.id) (
    field "enabled" (bool s.enabled) (
      field "haircut" (natural s.haircut) (
        field "walletId" (str s.wallet_id) (
          field "walletName" (str s.wallet_name) (
            field "gatewayUrl" (str s.gateway_url) (
              field "serverSecret" (str s.server_secret) (
                field "createdAt" (natural s.created_at)
                  (field "updatedAt" (natural s.updated_at) end))))))))

abbrev bool_or : Bool → Value → Bool
bool_or old (bool b) = b
bool_or old _ = old

abbrev text_or : Text → Value → Text
text_or old (str t) = t
text_or old _ = old

abbrev value_or : Value → Value → Value
value_or old undefined = old
value_or old v = v

-- `{...this.settings, ...settings}`, for settings whose fields have the types of the form's.
unfoldable pub read_form : Form → Fields → Form
unfolding get_field
read_form old fs = record {
  enabled = bool_or old.enabled (get_field "enabled" fs);
  haircut = value_or old.haircut (get_field "haircut" fs);
  wallet_id = text_or old.wallet_id (get_field "walletId" fs);
  gateway_url = text_or old.gateway_url (get_field "gatewayUrl" fs);
  server_secret = text_or old.server_secret (get_field "serverSecret" fs);
}

-- A form with a wallet is taken as it is.
take_settings-page :
    (form : Form) (d : Desk)
    → is_empty form.wallet_id ≡ false
    → (take_settings form d).page ≡ record d.page { settings = form; saved_settings = some form }
unfolding take_settings
take_settings-page form d wallet = ground arith

module _ (h : Host) where
  stored_settings :
      (s : Settings) (w : World h)
      → h.settings.get settings_id w.settings ≡ some s
      → (get_bananabreadwasm_settings h w).0 ≡ ok s
  unfolding get_bananabreadwasm_settings get_settings default_settings now
  stored_settings s w stored = ground (arith, stored)

  -- If the page lets its owner save an enabled form, and the gateway's URL has at most 500 characters
  -- and the wallet's id a visible one, then the settings are answered when the page is loaded again:
  -- whatever its form held before, it then holds enabled settings with the URL that was checked, the
  -- wallet and the server secret of the saved form, trimmed and cut at 128 and 256 characters, and its
  -- fee as a whole number from 0 to 100, or 10 if it was no number. The page knows them as saved, and
  -- payouts can be authorized.
  pub settings_survive_reload :
      (page : Page) (old : Form) (d : Desk) (w : World h)
      → can_save h.engine page ≡ true
      → page.settings.enabled ≡ true
      → length (trim page.settings.gateway_url) ≤ 500
      → is_empty (trim (effective_wallet_id page)) ≡ false
      → let after = save_bananabreadwasm_settings h (save_request h.engine page) w in
        (s : Settings) × (after.0 ≡ ok s)
        × ((get_bananabreadwasm_settings h after.1).0 ≡ ok s)
        × (let loaded = (take_settings (read_form old (owner_settings s)) d).page in
            (loaded.settings.enabled ≡ true)
            × (loaded.settings.gateway_url ≡ normalized_gateway_url page.settings.gateway_url)
            × (loaded.settings.wallet_id ≡ take 128 (trim (effective_wallet_id page)))
            × (loaded.settings.haircut
                ≡ natural (fee_of (number_of h.engine (nullish_or page.settings.haircut ten))))
            × (loaded.settings.server_secret ≡ take 256 (trim page.settings.server_secret))
            × (settings_are_saved h.engine loaded ≡ true)
            × (can_authorize_payouts h.engine loaded ≡ true))
  unfolding read_form owner_settings can_authorize_payouts effective_wallet_id
  settings_survive_reload page old d w saves on fits wallet =
      let (s, accepted, stored, enabled, url, purse, owned, fee, secret) =
        can_save-accepted h page w saves on fits wallet in
      let form = read_form old (owner_settings s) in
      let loaded : Page = record d.page { settings = form; saved_settings = some form } in
      let fresh = fresh_is_saved h.engine loaded refl purse in
      (
        s,
        accepted,
        stored_settings s _ stored,
        rw (take_settings-page form d purse) (
          enabled,
          url,
          owned,
          ap natural fee,
          secret,
          fresh,
          ground (arith, fresh, enabled, purse),
        ),
      )
