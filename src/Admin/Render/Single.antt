-- ===== src/Admin/Render/Single.antt =====
-- What is in flight on the owner's page, static/admin.js, when its owner clicks what it offers.
use bananabreadwasm.Prelude.{
  ℕ, zero, suc, ◌+◌, ◌≡◌, refl, Bool, true, some, List, [], ◌∷◌, arith, Option-cases, Bool-cases,
  inl, inr,
}
use bananabreadwasm.Text.{Text}
use bananabreadwasm.Result.{Result-cases}
use bananabreadwasm.Js.{Engine}
use bananabreadwasm.Table.{hit}
use bananabreadwasm.Gateway.{encode_uri_component}
use bananabreadwasm.Admin.{Page, can_save, can_create, can_authorize_payouts}
use bananabreadwasm.Admin.Desk.{
  mounting, table_event, creation, retry, deletion, Task, fetch_wallets, fetch_settings, save_call,
  permit_creation, permit_payouts, create_call, fetch_games, retry_call, delete_call, Answer, Desk,
  Event, mounted, save_clicked, create_clicked, authorize_clicked, edited, secret_generated,
  table_requested, retry_clicked, delete_requested, delete_clicked, copy_clicked, copied,
  delete_cancelled, answered, rejected, first_desk,
}
use bananabreadwasm.Admin.Methods.{refuse, take_task, resume, step, steps}
use bananabreadwasm.Admin.Methods.Spinners.{is_saving, is_creating, is_authorizing}
use bananabreadwasm.Admin.Markup.{offers}
use bananabreadwasm.Admin.Render.{render}
use bananabreadwasm.Admin.Render.Clicks.{is_save, is_create, is_authorize, render-offers}

-- How many of the tasks pass a test.
abbrev pub tally : (Task → Bool) → List Task → ℕ
tally f [] = 0
tally f (t ∷ ts) = hit (f t) + tally f ts

-- A sign of work in progress is shown while its one task is in flight.
abbrev pub IsSingle : Desk → Type 0
IsSingle d =
    (tally is_saving d.tasks ≡ hit d.saving)
    × (tally is_creating d.tasks ≡ hit d.creating)
    × (tally is_authorizing d.tasks ≡ hit d.authorizing_payouts)

take_task-tally :
    (f : Task → Bool) (n : ℕ) (ts us : List Task) (t : Task)
    → take_task n ts ≡ some (t, us)
    → tally f ts ≡ hit (f t) + tally f us
take_task-tally f n [] us t e = cc
take_task-tally f zero (u ∷ ts) us t e = ground arith
take_task-tally f (suc n) (u ∷ ts) us t e = elim (Option-cases (take_task n ts)) [
  | inl gone ↦ absurd (ground arith)
  | inr ((v, vs), found) ↦ ground (arith, take_task-tally f n ts vs v found)
]

-- The signs with a task that was taken out.
abbrev Owns : Desk → Task → List Task → Type 0
Owns d t us =
    (hit (is_saving t) + tally is_saving us ≡ hit d.saving)
    × (hit (is_creating t) + tally is_creating us ≡ hit d.creating)
    × (hit (is_authorizing t) + tally is_authorizing us ≡ hit d.authorizing_payouts)

take_task-Owns :
    (n : ℕ) (us : List Task) (t : Task) (d : Desk)
    → take_task n d.tasks ≡ some (t, us)
    → IsSingle d
    → Owns d t us
take_task-Owns n us t d e single = ground (
  arith,
  take_task-tally is_saving n d.tasks us t e,
  take_task-tally is_creating n d.tasks us t e,
  take_task-tally is_authorizing n d.tasks us t e,
)

refuse-IsSingle :
    (t : Task) (message : Text) (us : List Task) (d : Desk)
    → Owns d t us
    → IsSingle (refuse t message (record d { tasks = us }))
unfolding refuse
refuse-IsSingle fetch_wallets m us d h = ground arith
refuse-IsSingle fetch_settings m us d h = ground arith
refuse-IsSingle save_call m us d h = ground arith
refuse-IsSingle permit_creation m us d h = ground arith
refuse-IsSingle permit_payouts m us d h = ground arith
refuse-IsSingle create_call m us d h = ground arith
refuse-IsSingle (fetch_games mounting p) m us d h = ground arith
refuse-IsSingle (fetch_games table_event p) m us d h = ground arith
refuse-IsSingle (fetch_games creation p) m us d h = ground arith
refuse-IsSingle (fetch_games retry p) m us d h = ground arith
refuse-IsSingle (fetch_games deletion p) m us d h = ground arith
refuse-IsSingle (retry_call id) m us d h = ground arith
refuse-IsSingle (delete_call id) m us d h = ground arith

module _ (engine : Engine) (resolve : Text → Text) where
  -- The three buttons are clicked only while the page offers them.
  abbrev IsOffered : Event → Desk → Type 0
  IsOffered save_clicked d = offers is_save (render engine [] d) ≡ true
  IsOffered create_clicked d = offers is_create (render engine [] d) ≡ true
  IsOffered authorize_clicked d = offers is_authorize (render engine [] d) ≡ true
  IsOffered _ d = Unit

  abbrev pub AreOffered : List Event → Desk → Type 0
  AreOffered [] d = Unit
  AreOffered (e ∷ es) d = IsOffered e d × AreOffered es (step engine resolve e d)

  resume-IsSingle :
      (t : Task) (a : Answer) (us : List Task) (d : Desk)
      → Owns d t us
      → IsSingle (resume engine resolve t a (record d { tasks = us }))
  unfolding resume
  resume-IsSingle fetch_wallets a us d h = ground arith
  resume-IsSingle fetch_settings a us d h = ground arith
  resume-IsSingle save_call a us d h = ground arith
  resume-IsSingle permit_creation a us d h = ground arith
  resume-IsSingle permit_payouts a us d h = ground arith
  resume-IsSingle create_call a us d h = ground arith
  resume-IsSingle (fetch_games mounting p) a us d h = ground arith
  resume-IsSingle (fetch_games table_event p) a us d h = ground arith
  resume-IsSingle (fetch_games creation p) a us d h = ground arith
  resume-IsSingle (fetch_games retry p) a us d h = ground arith
  resume-IsSingle (fetch_games deletion p) a us d h = ground arith
  resume-IsSingle (retry_call id) a us d h = ground arith
  resume-IsSingle (delete_call id) a us d h = ground arith

  step-IsSingle :
      (e : Event) (d : Desk) → IsOffered e d → IsSingle d → IsSingle (step engine resolve e d)
  unfolding step
  step-IsSingle mounted d o h = ground arith
  step-IsSingle save_clicked d o h = elim (Bool-cases (can_save engine d.page)) [
    | inl valid ↦ rw valid (ground (arith, render-offers engine [] d))
    | inr invalid ↦ rw invalid h
  ]
  step-IsSingle create_clicked d o h = elim (Bool-cases (can_create engine d.page)) [
    | inl valid ↦ rw valid (ground (arith, render-offers engine [] d))
    | inr invalid ↦ rw invalid h
  ]
  step-IsSingle authorize_clicked d o h = elim (Bool-cases (can_authorize_payouts engine d.page)) [
    | inl valid ↦ rw valid (ground (arith, render-offers engine [] d))
    | inr invalid ↦ rw invalid h
  ]
  step-IsSingle (edited page) d o h = h
  step-IsSingle (secret_generated bytes) d o h = h
  step-IsSingle (table_requested p) d o h = ground arith
  step-IsSingle (retry_clicked id) d o h = ground arith
  step-IsSingle (delete_requested g) d o h = h
  step-IsSingle (delete_clicked id) d o h = ground arith
  step-IsSingle (copy_clicked id) d o h = elim (Result-cases (encode_uri_component id)) [
    | inl (e, bad) ↦ rw bad h
    | inr (t, good) ↦ rw good h
  ]
  step-IsSingle (copied id) d o h = h
  step-IsSingle delete_cancelled d o h = h
  step-IsSingle (answered n a) d o h = elim (Option-cases (take_task n d.tasks)) [
    | inl none_there ↦ rw none_there h
    | inr ((t, us), e) ↦ rw e (resume-IsSingle t a us d (take_task-Owns n us t d e h))
  ]
  step-IsSingle (rejected n m) d o h = elim (Option-cases (take_task n d.tasks)) [
    | inl none_there ↦ rw none_there h
    | inr ((t, us), e) ↦ rw e (refuse-IsSingle t m us d (take_task-Owns n us t d e h))
  ]

  steps-IsSingle :
      (es : List Event) (d : Desk)
      → AreOffered es d
      → IsSingle d
      → IsSingle (steps engine resolve es d)
  unfolding steps
  steps-IsSingle [] d o h = h
  steps-IsSingle (e ∷ es) d (o, os) h =
      steps-IsSingle es (step engine resolve e d) os (step-IsSingle e d o h)

  -- If the buttons to save, to create and to authorize are clicked only while the rendered page has
  -- them neither disabled nor loading, then, whatever else happens and however the host page answers,
  -- at most one save, one creation and one authorization is in flight, and exactly while the page
  -- shows its sign of work in progress.
  pub one_call_of_each :
      (es : List Event) (page : Page)
      → AreOffered es (first_desk page)
      → IsSingle (steps engine resolve es (first_desk page))
  unfolding first_desk
  one_call_of_each es page offered = steps-IsSingle es (first_desk page) offered (refl, refl, refl)
