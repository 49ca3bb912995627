-- ===== src/Admin/Methods/Permission.antt =====
-- The creations of arenas that the owner's page, static/admin.js, asks for, and its requests for the
-- permission to pay.
use bananabreadwasm.Prelude.{
  ℕ, zero, suc, ◌+◌, ◌≤◌, ◌≡◌, Option, none, some, List, [], ◌∷◌, arith, Option-cases, Bool-cases,
  inl, inr,
}
use bananabreadwasm.Text.{Text}
use bananabreadwasm.Result.{Result-cases}
use bananabreadwasm.Js.{Engine}
use bananabreadwasm.Gateway.{encode_uri_component}
use bananabreadwasm.Admin.{Page, can_save, can_create, can_authorize_payouts}
use bananabreadwasm.Admin.Desk.{
  Task, permit_creation, permit_payouts, Answer, Asked, create_game, request_permission, Desk,
  Event, mounted, save_clicked, create_clicked, authorize_clicked, edited, secret_generated,
  table_requested, retry_clicked, delete_requested, delete_clicked, copy_clicked, copied,
  delete_cancelled, answered, rejected, first_desk,
}
use bananabreadwasm.Admin.Methods.{refuse, take_task, resume, step, steps}

-- How many requests to create an arena, and for the permission to pay, were made.
abbrev pub creates : Asked → ℕ
creates (create_game v) = 1
creates _ = 0

abbrev pub permissions : Asked → ℕ
permissions (request_permission grant force_prompt) = 1
permissions _ = 0

abbrev pub permits : Task → ℕ
permits permit_creation = 1
permits permit_payouts = 1
permits _ = 0

abbrev pub total_of {ℓ} : {A : Type ℓ} → (A → ℕ) → List A → ℕ
total_of f [] = 0
total_of f (x ∷ xs) = f x + total_of f xs

-- There were as many requests for permission as creations and requests that wait for an answer.
abbrev IsPermitted : List Task → Desk → Type 0
IsPermitted ts d = total_of creates d.asked + total_of permits ts ≤ total_of permissions d.asked

take_task-total :
    (n : ℕ) (ts us : List Task) (t : Task)
    → take_task n ts ≡ some (t, us)
    → total_of permits ts ≡ permits t + total_of permits us
take_task-total n [] us t e = cc
take_task-total zero (u ∷ ts) us t e = ground arith
take_task-total (suc n) (u ∷ ts) us t e = elim (Option-cases (take_task n ts)) [
  | inl gone ↦ absurd (ground arith)
  | inr ((v, vs), found) ↦ ground (arith, take_task-total n ts vs v found)
]

refuse-IsPermitted :
    (t : Task) (message : Text) (us : List Task) (d : Desk)
    → IsPermitted (t ∷ us) d
    → IsPermitted
        (refuse t message (record d { tasks = us })).tasks
        (refuse t message (record d { tasks = us }))
unfolding refuse
refuse-IsPermitted t m us d h = ground arith

-- Does a creation go on when this task is answered?
abbrev creation_awaited : Task → ℕ
creation_awaited permit_creation = 1
creation_awaited _ = 0

abbrev creation_of : Option (Task × List Task) → ℕ
creation_of none = 0
creation_of (some (t, us)) = creation_awaited t

module _ (engine : Engine) (resolve : Text → Text) where
  resume-IsPermitted :
      (t : Task) (a : Answer) (us : List Task) (d : Desk)
      → IsPermitted (t ∷ us) d
      → IsPermitted
          (resume engine resolve t a (record d { tasks = us })).tasks
          (resume engine resolve t a (record d { tasks = us }))
  unfolding resume
  resume-IsPermitted t a us d h = ground arith

  step-IsPermitted :
      (e : Event) (d : Desk)
      → IsPermitted d.tasks d
      → IsPermitted (step engine resolve e d).tasks (step engine resolve e d)
  unfolding step
  step-IsPermitted mounted d h = ground arith
  step-IsPermitted save_clicked d h = elim (Bool-cases (can_save engine d.page)) [
    | inl valid ↦ rw valid (ground arith)
    | inr invalid ↦ rw invalid (ground arith)
  ]
  step-IsPermitted create_clicked d h = elim (Bool-cases (can_create engine d.page)) [
    | inl valid ↦ rw valid (ground arith)
    | inr invalid ↦ rw invalid h
  ]
  step-IsPermitted authorize_clicked d h = elim (Bool-cases (can_authorize_payouts engine d.page)) [
    | inl valid ↦ rw valid (ground arith)
    | inr invalid ↦ rw invalid h
  ]
  step-IsPermitted (edited page) d h = h
  step-IsPermitted (secret_generated bytes) d h = h
  step-IsPermitted (table_requested p) d h = ground arith
  step-IsPermitted (retry_clicked id) d h = ground arith
  step-IsPermitted (delete_requested g) d h = h
  step-IsPermitted (delete_clicked id) d h = ground arith
  step-IsPermitted (copy_clicked id) d h = elim (Result-cases (encode_uri_component id)) [
    | inl (e, bad) ↦ rw bad h
    | inr (t, good) ↦ rw good (ground arith)
  ]
  step-IsPermitted (copied id) d h = ground arith
  step-IsPermitted delete_cancelled d h = h
  step-IsPermitted (answered n a) d h = elim (Option-cases (take_task n d.tasks)) [
    | inl none_there ↦ rw none_there h
    | inr ((t, us), e) ↦
        rw e (resume-IsPermitted t a us d (ground (arith, take_task-total n d.tasks us t e)))
  ]
  step-IsPermitted (rejected n m) d h = elim (Option-cases (take_task n d.tasks)) [
    | inl none_there ↦ rw none_there h
    | inr ((t, us), e) ↦
        rw e (refuse-IsPermitted t m us d (ground (arith, take_task-total n d.tasks us t e)))
  ]

  steps-IsPermitted :
      (es : List Event) (d : Desk)
      → IsPermitted d.tasks d
      → IsPermitted (steps engine resolve es d).tasks (steps engine resolve es d)
  unfolding steps
  steps-IsPermitted [] d h = h
  steps-IsPermitted (e ∷ es) d h =
      steps-IsPermitted es (step engine resolve e d) (step-IsPermitted e d h)

  abbrev grants : Event → Desk → ℕ
  grants (answered n a) d = creation_of (take_task n d.tasks)
  grants _ d = 0

  -- How many of the permissions that creations wait for are granted by the events, one after the
  -- other? A request that is rejected is not granted.
  unfoldable pub granted : List Event → Desk → ℕ
  granted [] d = 0
  granted (e ∷ es) d = grants e d + granted es (step engine resolve e d)

  refuse-creates :
      (t : Task) (message : Text) (us : List Task) (d : Desk)
      → total_of creates (refuse t message (record d { tasks = us })).asked
        ≡ total_of creates d.asked
  unfolding refuse
  refuse-creates t m us d = ground arith

  resume-creates :
      (t : Task) (a : Answer) (us : List Task) (d : Desk)
      → total_of creates (resume engine resolve t a (record d { tasks = us })).asked
        ≡ creation_awaited t + total_of creates d.asked
  unfolding resume
  resume-creates t a us d = ground arith

  step-creates :
      (e : Event) (d : Desk)
      → total_of creates (step engine resolve e d).asked ≡ grants e d + total_of creates d.asked
  unfolding step
  step-creates (answered n a) d = elim (Option-cases (take_task n d.tasks)) [
    | inl none_there ↦ rw none_there (omega arith)
    | inr ((t, us), e) ↦ rw e (resume-creates t a us d)
  ]
  step-creates (rejected n m) d = elim (Option-cases (take_task n d.tasks)) [
    | inl none_there ↦ rw none_there (omega arith)
    | inr ((t, us), e) ↦ rw e (omega (arith, refuse-creates t m us d))
  ]
  step-creates save_clicked d = ground arith
  step-creates create_clicked d = ground arith
  step-creates authorize_clicked d = ground arith
  step-creates (copy_clicked id) d = elim (Result-cases (encode_uri_component id)) [
    | inl (e, bad) ↦ rw bad (omega arith)
    | inr (t, good) ↦ rw good (ground arith)
  ]
  step-creates mounted d = ground arith
  step-creates (edited page) d = omega arith
  step-creates (secret_generated bytes) d = omega arith
  step-creates (table_requested p) d = ground arith
  step-creates (retry_clicked id) d = ground arith
  step-creates (delete_requested g) d = omega arith
  step-creates (delete_clicked id) d = ground arith
  step-creates (copied id) d = ground arith
  step-creates delete_cancelled d = omega arith

  steps-creates :
      (es : List Event) (d : Desk)
      → total_of creates (steps engine resolve es d).asked ≡ granted es d + total_of creates d.asked
  unfolding steps granted
  steps-creates [] d = omega arith
  steps-creates (e ∷ es) d =
      omega (arith, step-creates e d, steps-creates es (step engine resolve e d))

  -- Whatever the owner does and the host page answers, the owner's page asks for exactly as many
  -- arenas to be created as permissions to pay were granted to creations, rejected requests not
  -- counted, and it asked for at least as many permissions as it asked for creations and has
  -- requests for permissions unanswered.
  pub creation_needs_permission :
      (es : List Event) (page : Page)
      → let d = steps engine resolve es (first_desk page) in
        (total_of creates d.asked ≡ granted es (first_desk page))
        × (total_of creates d.asked + total_of permits d.tasks ≤ total_of permissions d.asked)
  unfolding first_desk
  creation_needs_permission es page = (
    omega (arith, steps-creates es (first_desk page)),
    steps-IsPermitted es (first_desk page) (ground arith),
  )
