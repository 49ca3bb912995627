-- ===== src/PublicPage.antt =====
-- The visitor's page, static/public.js: its state, the elements that it fills, and what it renders
-- of an answer. Its handlers are in PublicPage/Events.
pub mod Events
pub mod Panels
pub mod Races
pub mod Server
use bananabreadwasm.Prelude.{
  ℕ, Bool, true, false, not, Option, none, some, List, [], ◌∷◌, ◌++◌, map, select, ◌==◌,
  if◌then◌else◌,
}
use bananabreadwasm.Text.{Text, codes, is_empty, or_text}
use bananabreadwasm.Js.{Engine, finite}
use bananabreadwasm.Rows.{
  PlayerStatus, alive, dead, refund_processing, refund_pending, refund_failed, left, is_alive,
  SettlementStatus, unset, processing, withheld, pending, paid, failed,
}
use bananabreadwasm.Views.{PublicGame, PublicPlayer}

-- The panels of which `showOnly` shows one.
pub data Panel : Type 0 where
  join invoice admitted settled : Panel

-- What `client.getPublicGame` answers.
pub record Response : Type 0 where
  pub game : Option PublicGame
  pub player : Option PublicPlayer
  pub players : List PublicPlayer
  pub admissions_enabled : Bool
  pub can_join : Bool

-- The items of the list of players: names with what is said of them, or the notice of an empty arena.
pub data PlayerList : Type 0 where
  no_players : PlayerList
  listed : List (Text × Text) → PlayerList

-- The contents of the elements that the page writes to. A hidden error is `none`.
pub record Elements : Type 0 where
  pub name : Text
  pub summary : Text
  pub error : Option Text
  pub join_disabled : Bool
  pub join_label : Text
  pub invoice_qr : Text
  pub payment_status : Text
  pub admitted_copy : Text
  pub enter_href : Text
  pub enter_disabled : Bool
  pub settled_eyebrow : Text
  pub settled_title : Text
  pub settled_copy : Text
  pub player_count : Text
  pub player_list : PlayerList
  pub panel : Panel

-- The page's state. A subscription stands for its function that ends it.
pub record Page : Type 0 where
  pub game_id : Text
  pub game : Option PublicGame
  pub player : Option PublicPlayer
  pub player_token : Text
  pub payment_request : Text
  pub admissions_enabled : Bool
  pub can_join : Bool
  pub payment_unsubscribe : Option ℕ
  pub poll_timer : Bool
  pub elements : Elements

-- What a status column holds, as text.
unfoldable pub status_text : SettlementStatus → Text
status_text unset = []
status_text processing = codes "processing"
status_text withheld = codes "withheld"
status_text pending = codes "pending"
status_text paid = codes "paid"
status_text failed = codes "failed"

-- `['left', 'refund-pending', 'refund-failed'].includes(status)`
unfoldable pub has_left : PlayerStatus → Bool
has_left left = true
has_left refund_pending = true
has_left refund_failed = true
has_left refund_processing = false
has_left alive = false
has_left dead = false

unfoldable pub refund_title : SettlementStatus → Text
refund_title paid = codes "Your stake was refunded"
refund_title failed = codes "Refund needs attention"
refund_title _ = codes "Refund is pending"

unfoldable pub render_join_availability : Page → Page
render_join_availability s = record s {
  elements = record s.elements {
    join_disabled = not s.can_join;
    join_label =
        if s.can_join
        then codes "CREATE JOIN INVOICE"
        else if s.admissions_enabled
        then codes "ARENA FULL"
        else codes "ADMISSIONS PAUSED";
  };
}

unfoldable pub show_only : Panel → Page → Page
show_only panel s = record s { elements = record s.elements { panel = panel } }

unfoldable pub clear_error : Page → Page
clear_error s = record s { elements = record s.elements { error = none } }

unfoldable pub show_error : Text → Page → Page
show_error message s = record s { elements = record s.elements { error = some message } }

-- `'arena.' + state.gameId + '.ticket'`
unfoldable pub session_key : Page → Text
session_key s = codes "arena." ++ s.game_id ++ codes ".ticket"

abbrev item_of : PublicPlayer → Text × Text
item_of p = (p.name, if p.connected_at == 0 then codes "PAID" else codes "IN GAME")

abbrev list_of : List PublicPlayer → PlayerList
list_of [] = no_players
list_of (p ∷ ps) = listed (map item_of (p ∷ ps))

unfoldable pub render_players : List PublicPlayer → PlayerList
render_players players = list_of (select (λ p. is_alive p.status) players)

abbrev pub url_of : Option Text → Text
url_of none = []
url_of (some url) = url

unfoldable pub render_settled : Text → Text → Text → Page → Page
unfolding show_only
render_settled eyebrow title copy s = show_only settled (record s {
  elements = record s.elements {
    settled_eyebrow = eyebrow;
    settled_title = title;
    settled_copy = copy;
  };
})

-- The end of `render`, for a visitor with no player to show.
unfoldable pub render_entry : Page → Page
unfolding render_join_availability show_only
render_entry s =
    if is_empty s.payment_request
    then show_only join (render_join_availability s)
    else show_only invoice s

module _ (engine : Engine) where
  -- A number joined to a text.
  abbrev pub number_text : ℕ → Text
  number_text n = engine.text_of_number (finite false n 0)

  unfoldable pub payout_copy : PublicPlayer → Text
  unfolding status_text
  payout_copy p = elim p.payout_status [
    | paid ↦
        number_text p.payout_amount
        ++ codes " sats from your stake were paid to the killer. Pay again to respawn."
    | withheld ↦ codes "No reward was due for this elimination. Pay again to respawn."
    | other ↦
        codes "The "
        ++ number_text p.payout_amount
        ++ codes "-sat reward is "
        ++ or_text (status_text other) (codes "being processed")
        ++ codes ". The arena owner can retry a failed payment."
  ]

  unfoldable pub refund_copy : PublicPlayer → Text
  unfolding status_text
  refund_copy p =
      number_text (if p.refund_amount == 0 then p.paid_amount else p.refund_amount)
      ++ codes " sats: "
      ++ or_text (status_text p.refund_status) (codes "processing")
      ++ codes ". You may pay again for a new admission."

  unfoldable pub render_admitted : PublicPlayer → Page → Page
  unfolding show_only
  render_admitted p s = show_only admitted (record s {
    elements = record s.elements {
      admitted_copy =
          codes "Paid as "
          ++ p.name
          ++ codes ". Your "
          ++ number_text p.paid_amount
          ++ codes "-sat stake is live.";
      enter_href = or_text (url_of p.enter_url) (codes "#");
      enter_disabled = is_empty (url_of p.enter_url);
    };
  })

  unfoldable pub render_player : Option PublicPlayer → Page → Page
  unfolding render_admitted render_settled render_entry has_left payout_copy refund_title
      refund_copy
  render_player none s = render_entry s
  render_player (some p) s = elim p.status [
    | alive ↦ render_admitted p s
    | dead ↦ render_settled (codes "ELIMINATED") (codes "Your stake was claimed") (payout_copy p) s
    | other ↦
        if has_left other
        then render_settled (codes "DISCONNECTED") (refund_title p.refund_status) (refund_copy p) s
        else render_entry s
  ]

  -- The elements that every render fills.
  unfoldable pub render_game : PublicGame → List PublicPlayer → Page → Page
  unfolding render_players
  render_game game players s = record s {
    elements = record s.elements {
      name = game.name;
      summary =
          number_text game.join_amount
          ++ codes " sats to enter · "
          ++ number_text game.haircut
          ++ codes "% arena fee · winner receives the remainder";
      player_count = number_text game.players_count ++ codes " / " ++ number_text game.max_players;
      player_list = render_players players;
    };
  }

  abbrev render_of : Option PublicGame → List PublicPlayer → Page → Page
  render_of none players s = s
  render_of (some game) players s = render_player s.player (render_game game players s)

  unfoldable pub render : Response → Page → Page
  unfolding render_player render_game
  render response s = render_of s.game response.players s

  -- `refresh` from its answer on.
  unfoldable pub take_answer : Response → Page → Page
  unfolding render
  take_answer response s = render response (record s {
    game = response.game;
    player = response.player;
    admissions_enabled = response.admissions_enabled;
    can_join = response.can_join;
  })
