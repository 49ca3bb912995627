-- ===== src/Admin/Methods/Spinners.antt =====
-- The signs of work in progress on the owner's page, static/admin.js, and the calls that they stand for.
use bananabreadwasm.Prelude.{
  ℕ, zero, suc, ◌≡◌, refl, Bool, true, false, not, ◌||◌, some, List, [], ◌∷◌, any, arith,
  Option-cases, Bool-cases, inl, inr,
}
use bananabreadwasm.Text.{Text, is_empty}
use bananabreadwasm.Result.{Result-cases}
use bananabreadwasm.Js.{Engine}
use bananabreadwasm.Gateway.{encode_uri_component}
use bananabreadwasm.Admin.{Page, can_save, can_create, can_authorize_payouts}
use bananabreadwasm.Admin.Desk.{
  mounting, table_event, creation, retry, deletion, Task, fetch_wallets, fetch_settings, save_call,
  permit_creation, permit_payouts, create_call, fetch_games, retry_call, delete_call, Answer, Desk,
  Event, mounted, save_clicked, create_clicked, authorize_clicked, edited, secret_generated,
  table_requested, retry_clicked, delete_requested, delete_clicked, copy_clicked, copied,
  delete_cancelled, answered, rejected, first_desk,
}
use bananabreadwasm.Admin.Methods.{is_mounting, refuse, take_task, resume, step, steps}

-- The tasks in flight that each sign stands for.
abbrev is_loading : Task → Bool
is_loading fetch_wallets = true
is_loading t = is_mounting t

abbrev pub is_saving : Task → Bool
is_saving save_call = true
is_saving _ = false

abbrev pub is_creating : Task → Bool
is_creating permit_creation = true
is_creating create_call = true
is_creating (fetch_games creation p) = true
is_creating _ = false

abbrev pub is_authorizing : Task → Bool
is_authorizing permit_payouts = true
is_authorizing _ = false

abbrev is_retrying : Task → Bool
is_retrying (retry_call id) = true
is_retrying (fetch_games retry p) = true
is_retrying _ = false

abbrev is_deleting : Task → Bool
is_deleting (delete_call id) = true
is_deleting (fetch_games deletion p) = true
is_deleting _ = false

-- A sign that is shown has its task in flight.
abbrev HasTask : Bool → (Task → Bool) → List Task → Type 0
HasTask sign f ts = (not sign || any f ts) ≡ true

abbrev pub IsHonest : Desk → Type 0
IsHonest d =
    HasTask d.loading is_loading d.tasks
    × HasTask d.saving is_saving d.tasks
    × HasTask d.creating is_creating d.tasks
    × HasTask d.authorizing_payouts is_authorizing d.tasks
    × HasTask (not (is_empty d.retrying_game_id)) is_retrying d.tasks
    × HasTask (not (is_empty d.deleting_game_id)) is_deleting d.tasks

-- A task that is taken out leaves the others.
take_task-any :
    (f : Task → Bool) (n : ℕ) (ts us : List Task) (t : Task)
    → take_task n ts ≡ some (t, us)
    → any f ts ≡ (f t || any f us)
take_task-any f n [] us t e = cc
take_task-any f zero (u ∷ ts) us t e = ground arith
take_task-any f (suc n) (u ∷ ts) us t e = elim (Option-cases (take_task n ts)) [
  | inl gone ↦ absurd (ground arith)
  | inr ((v, vs), found) ↦ ground (arith, take_task-any f n ts vs v found)
]

abbrev Waits : Desk → Task → List Task → Type 0
Waits d t us =
    HasTask d.loading is_loading (t ∷ us)
    × HasTask d.saving is_saving (t ∷ us)
    × HasTask d.creating is_creating (t ∷ us)
    × HasTask d.authorizing_payouts is_authorizing (t ∷ us)
    × HasTask (not (is_empty d.retrying_game_id)) is_retrying (t ∷ us)
    × HasTask (not (is_empty d.deleting_game_id)) is_deleting (t ∷ us)

take_task-Waits :
    (n : ℕ) (us : List Task) (t : Task) (d : Desk)
    → take_task n d.tasks ≡ some (t, us)
    → IsHonest d
    → Waits d t us
take_task-Waits n us t d e honest = ground (
  arith,
  take_task-any is_loading n d.tasks us t e,
  take_task-any is_saving n d.tasks us t e,
  take_task-any is_creating n d.tasks us t e,
  take_task-any is_authorizing n d.tasks us t e,
  take_task-any is_retrying n d.tasks us t e,
  take_task-any is_deleting n d.tasks us t e,
)

mounting-loading : (ts : List Task) → HasTask (any is_mounting ts) is_loading ts
mounting-loading [] = refl
mounting-loading (fetch_settings ∷ ts) = ground (arith, mounting-loading ts)
mounting-loading (fetch_games mounting p ∷ ts) = ground (arith, mounting-loading ts)
mounting-loading (t ∷ ts) = ground (arith, mounting-loading ts)

refuse-IsHonest :
    (t : Task) (message : Text) (us : List Task) (d : Desk)
    → Waits d t us
    → IsHonest (refuse t message (record d { tasks = us }))
unfolding refuse
refuse-IsHonest fetch_wallets m us d h = ground arith
refuse-IsHonest fetch_settings m us d h = ground (arith, mounting-loading us)
refuse-IsHonest save_call m us d h = ground arith
refuse-IsHonest permit_creation m us d h = ground arith
refuse-IsHonest permit_payouts m us d h = ground arith
refuse-IsHonest create_call m us d h = ground arith
refuse-IsHonest (fetch_games mounting p) m us d h = ground (arith, mounting-loading us)
refuse-IsHonest (fetch_games table_event p) m us d h = ground arith
refuse-IsHonest (fetch_games creation p) m us d h = ground arith
refuse-IsHonest (fetch_games retry p) m us d h = ground arith
refuse-IsHonest (fetch_games deletion p) m us d h = ground arith
refuse-IsHonest (retry_call id) m us d h = ground arith
refuse-IsHonest (delete_call id) m us d h = ground arith

module _ (engine : Engine) (resolve : Text → Text) where
  resume-IsHonest :
      (t : Task) (a : Answer) (us : List Task) (d : Desk)
      → Waits d t us
      → IsHonest (resume engine resolve t a (record d { tasks = us }))
  unfolding resume
  resume-IsHonest fetch_wallets a us d h = ground arith
  resume-IsHonest fetch_settings a us d h = ground (arith, mounting-loading us)
  resume-IsHonest save_call a us d h = ground arith
  resume-IsHonest permit_creation a us d h = ground arith
  resume-IsHonest permit_payouts a us d h = ground arith
  resume-IsHonest create_call a us d h = ground arith
  resume-IsHonest (fetch_games mounting p) a us d h = ground (arith, mounting-loading us)
  resume-IsHonest (fetch_games table_event p) a us d h = ground arith
  resume-IsHonest (fetch_games creation p) a us d h = ground arith
  resume-IsHonest (fetch_games retry p) a us d h = ground arith
  resume-IsHonest (fetch_games deletion p) a us d h = ground arith
  resume-IsHonest (retry_call id) a us d h = ground arith
  resume-IsHonest (delete_call id) a us d h = ground arith

  step-IsHonest : (e : Event) (d : Desk) → IsHonest d → IsHonest (step engine resolve e d)
  unfolding step
  step-IsHonest mounted d h = ground arith
  step-IsHonest save_clicked d h = elim (Bool-cases (can_save engine d.page)) [
    | inl valid ↦ rw valid (ground arith)
    | inr invalid ↦ rw invalid h
  ]
  step-IsHonest create_clicked d h = elim (Bool-cases (can_create engine d.page)) [
    | inl valid ↦ rw valid (ground arith)
    | inr invalid ↦ rw invalid h
  ]
  step-IsHonest authorize_clicked d h = elim (Bool-cases (can_authorize_payouts engine d.page)) [
    | inl valid ↦ rw valid (ground arith)
    | inr invalid ↦ rw invalid h
  ]
  step-IsHonest (edited page) d h = h
  step-IsHonest (secret_generated bytes) d h = h
  step-IsHonest (table_requested p) d h = ground arith
  step-IsHonest (retry_clicked id) d h = ground arith
  step-IsHonest (delete_requested g) d h = h
  step-IsHonest (delete_clicked id) d h = ground arith
  step-IsHonest (copy_clicked id) d h = elim (Result-cases (encode_uri_component id)) [
    | inl (e, bad) ↦ rw bad h
    | inr (t, good) ↦ rw good h
  ]
  step-IsHonest (copied id) d h = h
  step-IsHonest delete_cancelled d h = h
  step-IsHonest (answered n a) d h = elim (Option-cases (take_task n d.tasks)) [
    | inl none_there ↦ rw none_there h
    | inr ((t, us), e) ↦ rw e (resume-IsHonest t a us d (take_task-Waits n us t d e h))
  ]
  step-IsHonest (rejected n m) d h = elim (Option-cases (take_task n d.tasks)) [
    | inl none_there ↦ rw none_there h
    | inr ((t, us), e) ↦ rw e (refuse-IsHonest t m us d (take_task-Waits n us t d e h))
  ]

  steps-IsHonest : (es : List Event) (d : Desk) → IsHonest d → IsHonest (steps engine resolve es d)
  unfolding steps
  steps-IsHonest [] d h = h
  steps-IsHonest (e ∷ es) d h = steps-IsHonest es (step engine resolve e d) (step-IsHonest e d h)

  -- Whatever the owner does and however the host page answers, when no call of the owner's page is in
  -- flight, no sign of work in progress is left on it: every call that was answered or rejected has
  -- cleared its own.
  pub spinners_stop :
      (es : List Event) (page : Page)
      → let d = steps engine resolve es (first_desk page) in
        d.tasks ≡ []
        → (d.loading ≡ false)
          × (d.saving ≡ false)
          × (d.creating ≡ false)
          × (d.authorizing_payouts ≡ false)
          × (d.retrying_game_id ≡ [])
          × (d.deleting_game_id ≡ [])
  unfolding first_desk
  spinners_stop es page idle =
      let honest = steps-IsHonest es (first_desk page) (refl, refl, refl, refl, refl, refl) in
      ground (arith, honest, idle)
