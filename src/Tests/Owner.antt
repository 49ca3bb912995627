-- ===== src/Tests/Owner.antt =====
-- Runs of the methods of static/admin.js at concrete events.
use bananabreadwasm.Prelude.{
  ℕ, zero, suc, ◌+◌, ◌≤◌, ◌<◌, ◌≡◌, refl, true, false, none, some, List, [], ◌∷◌, length, All,
  arith,
}
use bananabreadwasm.Text.{Text, codes}
use bananabreadwasm.Js.{num, finite}
use bananabreadwasm.Admin.{
  Form, Page, ten, server_secret_error, can_save, settings_validation_error, wallet_error,
  gateway_error,
}
use bananabreadwasm.Admin.Desk.{
  Answer, Event, mounted, save_clicked, create_clicked, answered, rejected, secret_generated,
  first_desk,
}
use bananabreadwasm.Admin.Methods.{refuse, step, steps}
use bananabreadwasm.Admin.Methods.Permission.{
  granted, creates, permissions, permits, total_of, creation_needs_permission,
}
use bananabreadwasm.Admin.Methods.Saved.{generated_secret_passes}
use bananabreadwasm.Admin.Methods.Spinners.{spinners_stop}
use bananabreadwasm.Admin.Render.Clicks.{render-offers}
use bananabreadwasm.Admin.Render.Single.{IsSingle, AreOffered, one_call_of_each}
use bananabreadwasm.Tests.Sample.{engine}

abbrev resolve : Text → Text
resolve path = path

abbrev form : Form
form = record {
  enabled = false;
  haircut = ten;
  wallet_id = codes "purse";
  gateway_url = [];
  server_secret = [];
}

abbrev page : Page
page = record {
  settings = form;
  saved_settings = none;
  game_name = codes "BananaBread public arena";
  join_amount = ten;
  wallets = [];
}

-- The page is opened while the host page answers nothing.
abbrev unreachable : List Event
unreachable =
    mounted
    ∷ rejected 0 (codes "timed out")
    ∷ rejected 1 (codes "timed out")
    ∷ rejected 0 (codes "timed out")
    ∷ []

unreachable_idle : (steps engine resolve unreachable (first_desk page)).tasks ≡ []
unfolding steps step first_desk refuse
unreachable_idle = refl

spinners_stop_example :
    let d = steps engine resolve unreachable (first_desk page) in
    (d.loading ≡ false)
    × (d.saving ≡ false)
    × (d.creating ≡ false)
    × (d.authorizing_payouts ≡ false)
    × (d.retrying_game_id ≡ [])
    × (d.deleting_game_id ≡ [])
spinners_stop_example = spinners_stop engine resolve unreachable page unreachable_idle

abbrev saved : Answer
saved = record { wallets = []; settings = form; games = []; total = 0; settlements = 0 }

-- A page with saved settings, on which an arena is created and the permission is given.
abbrev ready : Page
ready = record page {
  settings = record form { enabled = true };
  saved_settings = some (record form { enabled = true });
  join_amount = num (finite false 100 0);
}

abbrev creation : List Event
creation = create_clicked ∷ answered 0 saved ∷ []

creation_needs_permission_example :
    let d = steps engine resolve creation (first_desk ready) in
    (total_of creates d.asked ≡ granted engine resolve creation (first_desk ready))
    × (total_of creates d.asked + total_of permits d.tasks ≤ total_of permissions d.asked)
creation_needs_permission_example = creation_needs_permission engine resolve creation ready

abbrev zeros : ℕ → List ℕ
zeros zero = []
zeros (suc n) = 0 ∷ zeros n

zeros_small : (k : ℕ) → All (λ n. n < 256) (zeros k)
zeros_small zero = tt
zeros_small (suc k) = (ground arith, zeros_small k)

length-zeros : (k : ℕ) → length (zeros k) ≡ k
length-zeros zero = refl
length-zeros (suc k) = omega (arith, length-zeros k)

generated_secret_passes_example :
    let form =
      (step engine resolve (secret_generated (zeros 32)) (first_desk page)).page.settings in
    (length form.server_secret ≡ length (zeros 32) + length (zeros 32))
    × (server_secret_error form ≡ none)
generated_secret_passes_example =
    generated_secret_passes engine resolve (zeros 32) (first_desk page) (zeros_small 32)
      (omega (arith, length-zeros 32))

-- The settings are saved, and saved again after the host page failed.
abbrev saved_twice : List Event
saved_twice = save_clicked ∷ rejected 0 (codes "timed out") ∷ save_clicked ∷ []

saved_twice_offered : AreOffered engine resolve saved_twice (first_desk page)
unfolding step steps first_desk refuse can_save settings_validation_error wallet_error gateway_error
    server_secret_error
saved_twice_offered =
    let after =
      steps engine resolve (save_clicked ∷ rejected 0 (codes "timed out") ∷ []) (first_desk page) in
    ((render-offers engine [] (first_desk page)).0, (tt, ((render-offers engine [] after).0, tt)))

one_call_of_each_example : IsSingle (steps engine resolve saved_twice (first_desk page))
one_call_of_each_example = one_call_of_each engine resolve saved_twice page saved_twice_offered
