-- ===== src/PublicPage/Events.antt =====
-- The handlers of static/public.js. Each is cut where it waits, so that the rest of a handler is an
-- event of its own: the host page and the visitor choose which event comes next.
use bananabreadwasm.Prelude.{ℕ, true, false, Option, none, some, List, [], ◌∷◌, ◌||◌, if◌then◌else◌}
use bananabreadwasm.Text.{Text, codes, is_empty, or_text}
use bananabreadwasm.Js.{Engine, Value, str, Fields, get_field, or_value, string_of}
use bananabreadwasm.PublicPage.{
  join, invoice, listed, Elements, Response, Page, render_join_availability, show_only, clear_error,
  show_error, session_key, take_answer,
}

-- What the page asks of the host page through its client.
pub data Asked : Type 0 where
  context : Asked
  session_value : Text → Asked
  set_session_value : Text → Text → Asked
  public_game : Text → Text → Asked
  join_game : Text → Text → Text → Asked
  subscribe_payment : Text → Asked
  unsubscribe : ℕ → Asked
  write_clipboard : Text → Asked

-- The page, and what it asked so far, the last request first.
pub record Visit : Type 0 where
  pub page : Page
  pub asked : List Asked

pub data Event : Type 0 where
  -- The answers that `init` waits for.
  context_known : Value → Event
  session_read : Value → Text → Event
  token_saved : Event
  first_refreshed : Event
  -- A call to the host page failed, and `.catch(showError)` took its message.
  call_failed : Text → Event
  poll_ticked payment_seen : Event
  refresh_answered : Response → Event
  join_submitted : Text → Text → Event
  join_answered : Fields → Event
  join_saved : Value → Event
  join_failed join_recovered : Text → Event
  subscribed : ℕ → Event
  subscribe_failed : Event
  play_again_clicked copy_clicked copied copy_failed page_hidden : Event

-- The markup of ui/public.html.
abbrev pub first_elements : Elements
first_elements = record {
  name = codes "BananaBread Arena";
  summary = codes "Loading paid arena…";
  error = none;
  join_disabled = false;
  join_label = codes "CREATE JOIN INVOICE";
  invoice_qr = [];
  payment_status = codes "The game unlocks only after the invoice settles.";
  admitted_copy = [];
  enter_href = codes "#";
  enter_disabled = false;
  settled_eyebrow = codes "ROUND OVER";
  settled_title = codes "You were eliminated";
  settled_copy = [];
  player_count = codes "0 / 5";
  player_list = listed [];
  panel = join;
}

-- `init` asks for the context at once.
unfoldable pub first_visit : Visit
first_visit = record {
  page = record {
    game_id = [];
    game = none;
    player = none;
    player_token = [];
    payment_request = [];
    admissions_enabled = false;
    can_join = false;
    payment_unsubscribe = none;
    poll_timer = false;
    elements = first_elements;
  };
  asked = context ∷ [];
}

abbrev pub ask : Asked → Visit → Visit
ask a v = record v { asked = a ∷ v.asked }

-- `refresh` up to its await.
unfoldable pub start_refresh : Visit → Visit
unfolding clear_error
start_refresh v =
    ask (public_game v.page.game_id v.page.player_token) (record v { page = clear_error v.page })

abbrev unsubscribe_old : Option ℕ → Visit → Visit
unsubscribe_old none v = v
unsubscribe_old (some s) v = ask (unsubscribe s) v

-- `subscribeToPayment` up to its await.
unfoldable pub start_subscription : Text → Visit → Visit
start_subscription payment_hash v =
    let ended = unsubscribe_old v.page.payment_unsubscribe v in
    ask (subscribe_payment payment_hash)
      (record ended { page = record ended.page { payment_unsubscribe = none } })

-- `showJoin`
unfoldable pub show_join : Visit → Visit
unfolding session_key render_join_availability show_only
show_join v =
    let page : Page = record v.page { player_token = []; player = none; payment_request = [] } in
    ask (set_session_value (session_key page) [])
      (record v { page = show_only join (render_join_availability page) })

module _ (engine : Engine) (qr_data_uri : Text → Text) where
  -- `String(value || '')`
  abbrev pub text_or_empty : Value → Text
  text_or_empty value = string_of engine (or_value value (str []))

  abbrev missing_arena : Text
  missing_arena = codes "Arena id is missing from this link."

  abbrev known_arena : Text → Visit → Visit
  known_arena game_id v =
      let page : Page = record v.page { game_id = game_id } in
      if is_empty game_id
      then record v { page = show_error missing_arena page }
      else ask (session_value (session_key page)) (record v { page = page })

  abbrev remembered_token : Text → Visit → Visit
  remembered_token token v =
      let known : Visit = record v { page = record v.page { player_token = token } } in
      if is_empty token
      then start_refresh known
      else ask (set_session_value (session_key known.page) token) known

  -- `joinArena` from the answer to its next await.
  unfoldable pub take_invoice : Fields → Visit → Visit
  unfolding start_refresh session_key
  take_invoice response v =
      let token = text_or_empty (get_field "playerToken" response) in
      let request = text_or_empty (get_field "paymentRequest" response) in
      let held : Visit = record v {
        page = record v.page { player_token = token; payment_request = request };
      } in
      if is_empty token || is_empty request
      then start_refresh held
      else ask (set_session_value (session_key held.page) token) held

  -- `joinArena` from the saved token to its refresh.
  unfoldable pub show_invoice : Value → Visit → Visit
  unfolding start_refresh start_subscription show_only
  show_invoice payment_hash v =
      let page : Page = record v.page {
        elements = record v.page.elements { invoice_qr = qr_data_uri v.page.payment_request };
      } in
      start_refresh (
        start_subscription (text_or_empty payment_hash)
          (record v { page = show_only invoice page }))

  abbrev set_elements : Elements → Visit → Visit
  set_elements elements v = record v { page = record v.page { elements = elements } }

  unfoldable pub copy_invoice : Visit → Visit
  copy_invoice v =
      if is_empty v.page.payment_request then v else ask (write_clipboard v.page.payment_request) v

  unfoldable pub step : Event → Visit → Visit
  unfolding start_refresh show_join take_invoice show_invoice copy_invoice take_answer show_error
      render_join_availability session_key or_value string_of clear_error
  step (context_known game_id) v = known_arena (text_or_empty game_id) v
  step (session_read query_token remembered) v =
      remembered_token (or_text (text_or_empty query_token) remembered) v
  step token_saved v = start_refresh v
  step first_refreshed v = record v { page = record v.page { poll_timer = true } }
  step (call_failed message) v = record v { page = show_error message v.page }
  step poll_ticked v = start_refresh v
  step payment_seen v = start_refresh v
  step (refresh_answered response) v = record v { page = take_answer engine response v.page }
  step (join_submitted name ln_address) v =
      let page = clear_error v.page in
      ask (join_game page.game_id name ln_address) (
        set_elements
          (record page.elements { join_disabled = true; join_label = codes "CREATING INVOICE…" })
          (record v { page = page }))
  step (join_answered response) v = take_invoice response v
  step (join_saved payment_hash) v = show_invoice payment_hash v
  step (join_failed message) v = start_refresh v
  step (join_recovered message) v = record v {
    page = render_join_availability (show_error message v.page);
  }
  step (subscribed s) v = record v { page = record v.page { payment_unsubscribe = some s } }
  step subscribe_failed v =
      set_elements
        (record v.page.elements {
          payment_status = codes "Invoice created. Waiting for LNbits to confirm settlement…";
        })
        v
  step play_again_clicked v = show_join v
  step copy_clicked v = copy_invoice v
  step copied v =
      set_elements (record v.page.elements { payment_status = codes "Invoice copied." }) v
  step copy_failed v =
      set_elements (record v.page.elements { payment_status = v.page.payment_request }) v
  step page_hidden v =
      unsubscribe_old v.page.payment_unsubscribe
        (record v { page = record v.page { poll_timer = false } })

  unfoldable pub steps : List Event → Visit → Visit
  steps [] v = v
  steps (e ∷ es) v = steps es (step e v)
