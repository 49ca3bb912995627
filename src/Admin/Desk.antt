-- ===== src/Admin/Desk.antt =====
-- The state of the owner's page, static/admin.js, what it asks of the host page, and what happens to it.
use bananabreadwasm.Prelude.{ℕ, Bool, true, false, Option, none, List, []}
use bananabreadwasm.Text.{Text, codes}
use bananabreadwasm.Js.{Value, Fields}
use bananabreadwasm.Host.{Wallet}
use bananabreadwasm.Views.{OwnerGame}
use bananabreadwasm.Admin.{Form, Page}

pub record Pagination : Type 0 where
  pub page : ℕ
  pub rows_per_page : ℕ
  pub sort_by : Text
  pub descending : Bool
  pub rows_number : ℕ

-- Who waits for `fetchGames`.
pub data Caller : Type 0 where
  mounting table_event creation retry deletion : Caller

-- What is in flight: a call to the host page, and the rest of the method that made it.
pub data Task : Type 0 where
  fetch_wallets fetch_settings save_call permit_creation permit_payouts create_call : Task
  fetch_games : Caller → Pagination → Task
  retry_call delete_call : Text → Task

-- The fields of a reply that the page reads, with `|| []` and `|| 0` where they are missing. The replies
-- about settings have settings.
pub record Answer : Type 0 where
  pub wallets : List Wallet
  pub settings : Form
  pub games : List OwnerGame
  pub total : ℕ
  pub settlements : ℕ

-- What the page asks of the host page.
pub data Asked : Type 0 where
  list_wallets get_settings : Asked
  save_settings create_game : Value → Asked
  list_games : Pagination → Asked
  settle_game delete_game : Text → Asked
  request_permission : Fields → Bool → Asked
  notify : Text → Text → Asked
  write_clipboard : Text → Asked

pub record Desk : Type 0 where
  pub page : Page
  pub games : List OwnerGame
  pub pagination : Pagination
  pub loading : Bool
  pub saving : Bool
  pub creating : Bool
  pub authorizing_payouts : Bool
  pub retrying_game_id : Text
  pub deleting_game_id : Text
  -- The arena of the dialog, if it is shown.
  pub delete_dialog : Option OwnerGame
  pub tasks : List Task
  pub asked : List Asked

pub data Event : Type 0 where
  mounted save_clicked create_clicked authorize_clicked : Event
  edited : Page → Event
  secret_generated : List ℕ → Event
  table_requested : Pagination → Event
  retry_clicked delete_clicked copy_clicked copied : Text → Event
  delete_requested : OwnerGame → Event
  delete_cancelled : Event
  -- The task in that place was answered, or rejected with a message.
  answered : ℕ → Answer → Event
  rejected : ℕ → Text → Event

-- `data`, for a page with that form.
unfoldable pub first_desk : Page → Desk
first_desk page = record {
  page = page;
  games = [];
  pagination = record {
    page = 1;
    rows_per_page = 10;
    sort_by = codes "createdAt";
    descending = true;
    rows_number = 0;
  };
  loading = false;
  saving = false;
  creating = false;
  authorizing_payouts = false;
  retrying_game_id = [];
  deleting_game_id = [];
  delete_dialog = none;
  tasks = [];
  asked = [];
}
