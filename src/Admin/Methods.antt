-- ===== src/Admin/Methods.antt =====
-- The methods of the owner's page, static/admin.js. Each is cut where it waits for the host page: the
-- rest of a method is a task in flight, which the host page answers or rejects.
pub mod Permission
pub mod Saved
pub mod Spinners
use bananabreadwasm.Prelude.{
  ℕ, zero, suc, ◌+◌, ◌/◌, ◌%◌, Bool, true, false, not, ◌&&◌, Option, none, some, List, [], ◌∷◌,
  ◌++◌, any, ltb, ◌==◌, if◌then◌else◌,
}
use bananabreadwasm.Text.{Text, codes, is_empty, or_text}
use bananabreadwasm.Result.{Result, ok, err}
use bananabreadwasm.Js.{Engine, Value, num, finite, bool, str, Fields, field, end}
use bananabreadwasm.Gateway.{encode_uri_component}
use bananabreadwasm.Host.{Wallet}
use bananabreadwasm.Views.{OwnerGame}
use bananabreadwasm.Handlers.Arenas.{max_join_sats}
use bananabreadwasm.Admin.{
  Fault, select_wallet, enter_gateway, invalid_gateway, insecure_gateway, short_secret, Form, Page,
  ten, effective_wallet_id, settings_validation_error, can_save, can_create, can_authorize_payouts,
  save_request, create_request,
}
use bananabreadwasm.Admin.Desk.{
  Pagination, Caller, mounting, table_event, creation, retry, deletion, Task, fetch_wallets,
  fetch_settings, save_call, permit_creation, permit_payouts, create_call, fetch_games, retry_call,
  delete_call, Answer, Asked, list_wallets, get_settings, save_settings, create_game, list_games,
  settle_game, delete_game, request_permission, notify, write_clipboard, Desk, Event, mounted,
  save_clicked, create_clicked, authorize_clicked, edited, secret_generated, table_requested,
  retry_clicked, delete_requested, delete_clicked, copy_clicked, copied, delete_cancelled, answered,
  rejected, first_desk,
}

unfoldable pub fault_text : Option Fault → Text
fault_text none = []
fault_text (some select_wallet) = codes "Select an LNbits wallet."
fault_text (some enter_gateway) = codes "Enter the public Sour gateway URL."
fault_text (some invalid_gateway) = codes "Enter a valid gateway URL."
fault_text (some insecure_gateway) = codes "Use HTTPS, or HTTP on localhost."
fault_text (some short_secret) = codes "Generate or enter a secret of at least 32 characters."

abbrev pub hex_digit : ℕ → ℕ
hex_digit n = if ltb n 10 then 48 + n else 87 + n

-- The bytes in hexadecimal digits, two for each.
unfoldable pub hex_text : List ℕ → Text
hex_text [] = []
hex_text (n ∷ ns) = hex_digit (n / 16) ∷ hex_digit (n % 16) ∷ hex_text ns

abbrev pub ask : Asked → Desk → Desk
ask a d = record d { asked = a ∷ d.asked }

abbrev pub start : Task → Desk → Desk
start t d = record d { tasks = t ∷ d.tasks }

abbrev set_form : Form → Desk → Desk
set_form form d = record d { page = record d.page { settings = form } }

-- `showError`
unfoldable pub show_error : Text → Desk → Desk
show_error message d = ask (notify message (codes "negative")) d

unfoldable pub fetch_page : Caller → Pagination → Desk → Desk
fetch_page caller p d = start (fetch_games caller p) (ask (list_games p) d)

-- `payoutPermissionGrant`
unfoldable pub payout_grant : Page → Fields
unfolding effective_wallet_id
payout_grant page = field "walletId" (str (effective_wallet_id page)) (
    field "maxAmount" (num (finite false max_join_sats 0))
      (field "destinationPolicy" (str (codes "external_allowed")) end))

-- The tasks that `mounted` waits for after the wallets.
abbrev pub is_mounting : Task → Bool
is_mounting fetch_settings = true
is_mounting (fetch_games mounting p) = true
is_mounting _ = false

-- `Promise.all` of `mounted`, and its `finally`.
unfoldable pub finish_mount : Desk → Desk
finish_mount d = record d { loading = any is_mounting d.tasks && d.loading }

unfoldable pub mount_pages : Desk → Desk
unfolding fetch_page
mount_pages d = fetch_page mounting d.pagination (start fetch_settings (ask get_settings d))

-- What follows `fetchGames` in its caller.
unfoldable pub after_games : Caller → Desk → Desk
unfolding finish_mount
after_games mounting d = finish_mount d
after_games table_event d = d
after_games creation d = record d { creating = false }
after_games retry d = record d { retrying_game_id = [] }
after_games deletion d = record d { deleting_game_id = [] }

-- `if (!this.settings.walletId && this.wallets.length)`
abbrev with_wallet : List Wallet → Form → Form
with_wallet [] form = form
with_wallet (w ∷ ws) form = record form { wallet_id = or_text form.wallet_id w.id }

unfoldable pub take_settings : Form → Desk → Desk
take_settings form d =
    let chosen = with_wallet d.page.wallets form in
    record d { page = record d.page { settings = chosen; saved_settings = some chosen } }

-- The rest of a method whose call was rejected.
unfoldable pub refuse : Task → Text → Desk → Desk
unfolding show_error mount_pages finish_mount after_games
refuse fetch_wallets message d = mount_pages (show_error message d)
refuse fetch_settings message d = finish_mount (show_error message d)
refuse save_call message d = record (show_error message d) { saving = false }
refuse permit_creation message d = record (show_error message d) { creating = false }
refuse permit_payouts message d = record (show_error message d) { authorizing_payouts = false }
refuse create_call message d = record (show_error message d) { creating = false }
refuse (fetch_games caller p) message d = after_games caller (show_error message d)
refuse (retry_call id) message d = record (show_error message d) { retrying_game_id = [] }
refuse (delete_call id) message d = record (show_error message d) { deleting_game_id = [] }

abbrev past : Task → Option (Task × List Task) → Option (Task × List Task)
past t none = none
past t (some (u, us)) = some (u, t ∷ us)

-- A task taken out of its place.
abbrev pub take_task : ℕ → List Task → Option (Task × List Task)
take_task n [] = none
take_task zero (t ∷ ts) = some (t, ts)
take_task (suc n) (t ∷ ts) = past t (take_task n ts)

module _ (engine : Engine) (resolve : Text → Text) where
  abbrev retry_notice : ℕ → Asked
  retry_notice zero = notify (codes "No failed settlements to retry.") (codes "info")
  retry_notice (suc n) =
      notify
        (codes "Retried "
          ++ engine.text_of_number (finite false (suc n) 0)
          ++ codes " failed settlement(s).")
        (codes "positive")

  -- The rest of a method whose call was answered.
  unfoldable pub resume : Task → Answer → Desk → Desk
  unfolding mount_pages take_settings finish_mount after_games fetch_page create_request
  resume fetch_wallets a d = mount_pages (record d { page = record d.page { wallets = a.wallets } })
  resume fetch_settings a d = finish_mount (take_settings a.settings d)
  resume save_call a d =
      ask (notify (codes "BananaBread settings saved.") (codes "positive")) (record d {
        page = record d.page { settings = a.settings; saved_settings = some a.settings };
        saving = false;
      })
  resume permit_creation a d =
      start create_call (ask (create_game (create_request engine d.page)) d)
  resume permit_payouts a d =
      ask (notify (codes "Payout permission saved.") (codes "positive"))
        (record d { authorizing_payouts = false })
  resume create_call a d =
      fetch_page creation d.pagination (ask (notify (codes "Arena created.") (codes "positive")) d)
  resume (fetch_games caller p) a d =
      after_games caller
        (record d { games = a.games; pagination = record p { rows_number = a.total } })
  resume (retry_call id) a d = fetch_page retry d.pagination (ask (retry_notice a.settlements) d)
  resume (delete_call id) a d = fetch_page deletion d.pagination (record d { delete_dialog = none })

  abbrev copy_url : Result Text → Desk → Desk
  copy_url (ok id) d = ask (write_clipboard (resolve (codes "/ext/bananabreadwasm/games/" ++ id))) d
  copy_url (err e) d = d

  abbrev resume_taken : Option (Task × List Task) → Answer → Desk → Desk
  resume_taken none a d = d
  resume_taken (some (t, ts)) a d = resume t a (record d { tasks = ts })

  abbrev refuse_taken : Option (Task × List Task) → Text → Desk → Desk
  refuse_taken none message d = d
  refuse_taken (some (t, ts)) message d = refuse t message (record d { tasks = ts })

  unfoldable pub step : Event → Desk → Desk
  unfolding resume refuse show_error fetch_page payout_grant hex_text fault_text save_request
      can_save can_create can_authorize_payouts settings_validation_error encode_uri_component
  step mounted d = start fetch_wallets (ask list_wallets (record d { loading = true }))
  step save_clicked d =
      if can_save engine d.page
      then start save_call
          (ask (save_settings (save_request engine d.page)) (record d { saving = true }))
      else show_error (fault_text (settings_validation_error engine d.page)) d
  step create_clicked d =
      if can_create engine d.page
      then start permit_creation
          (ask (request_permission (payout_grant d.page) false) (record d { creating = true }))
      else d
  step authorize_clicked d =
      if can_authorize_payouts engine d.page
      then start permit_payouts (
          ask (request_permission (payout_grant d.page) true)
            (record d { authorizing_payouts = true }))
      else d
  step (edited page) d = record d { page = page }
  step (secret_generated bytes) d =
      set_form (record d.page.settings { server_secret = hex_text bytes }) d
  step (table_requested p) d = fetch_page table_event p d
  step (retry_clicked id) d =
      start (retry_call id) (ask (settle_game id) (record d { retrying_game_id = id }))
  step (delete_requested game) d = record d { delete_dialog = some game }
  step (delete_clicked id) d =
      start (delete_call id) (ask (delete_game id) (record d { deleting_game_id = id }))
  step (copy_clicked id) d = copy_url (encode_uri_component id) d
  step (copied id) d = ask (notify (codes "Arena link copied.") (codes "positive")) d
  step delete_cancelled d = record d { delete_dialog = none }
  step (answered n a) d = resume_taken (take_task n d.tasks) a d
  step (rejected n message) d = refuse_taken (take_task n d.tasks) message d

  unfoldable pub steps : List Event → Desk → Desk
  steps [] d = d
  steps (e ∷ es) d = steps es (step e d)
