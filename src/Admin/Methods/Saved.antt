-- ===== src/Admin/Methods/Saved.antt =====
-- Settings that the owner's page, static/admin.js, has saved, and secrets that it generates.
use bananabreadwasm.Prelude.{
  ℕ, ◌+◌, ◌≤◌, ◌≡◌, refl, true, false, none, some, List, [], ◌∷◌, ◌<◌, ◌/◌, ◌%◌, length, All, arith,
}
use bananabreadwasm.Text.{Text, text_eq_refl, is_empty, trim, trim_start, drop_end, is_space}
use bananabreadwasm.Js.{Engine}
use bananabreadwasm.Admin.{
  Page, Fingerprint, same_fingerprint, settings_fingerprint, settings_are_saved,
  can_authorize_payouts, effective_wallet_id, server_secret_error,
}
use bananabreadwasm.Admin.Desk.{Task, save_call, Answer, Desk, answered, secret_generated}
use bananabreadwasm.Admin.Methods.{take_task, resume, step, hex_text, hex_digit}

same_fingerprint_refl : (f : Fingerprint) → same_fingerprint f f ≡ true
unfolding same_fingerprint
same_fingerprint_refl f = ground (
  arith,
  text_eq_refl f.wallet_id,
  text_eq_refl f.haircut,
  text_eq_refl f.gateway_url,
  text_eq_refl f.server_secret,
)

module _ (engine : Engine) where
  -- A page whose form was just saved, with a wallet, knows it as saved.
  pub fresh_is_saved :
      (page : Page)
      → page.saved_settings ≡ some page.settings
      → is_empty page.settings.wallet_id ≡ false
      → settings_are_saved engine page ≡ true
  unfolding settings_are_saved effective_wallet_id
  fresh_is_saved page e wallet =
      let id : effective_wallet_id page ≡ page.settings.wallet_id = ground arith in
      rw (e, id)
        (same_fingerprint_refl (settings_fingerprint engine page.settings page.settings.wallet_id))

  -- When a save is answered with settings that have a wallet, the form holds those settings, the page
  -- knows them as saved, and payouts can be authorized exactly if they are enabled.
  save_settles :
      (resolve : Text → Text) (n : ℕ) (us : List Task) (a : Answer) (d : Desk)
      → take_task n d.tasks ≡ some (save_call, us)
      → is_empty a.settings.wallet_id ≡ false
      → let after = step engine resolve (answered n a) d in
        (after.page.settings ≡ a.settings)
        × (settings_are_saved engine after.page ≡ true)
        × (can_authorize_payouts engine after.page ≡ a.settings.enabled)
        × (after.saving ≡ false)
  unfolding step resume can_authorize_payouts effective_wallet_id
  save_settles resolve n us a d taken wallet =
      let page : Page = record d.page { settings = a.settings; saved_settings = some a.settings } in
      let fresh = fresh_is_saved page refl wallet in
      rw taken (refl, fresh, ground (arith, fresh), refl)

hex_digit-space : (n : ℕ) → n < 16 → is_space (hex_digit n) ≡ false
unfolding is_space
hex_digit-space n h = ground arith

hex_text-visible :
    (ns : List ℕ) → All (λ n. n < 256) ns → All (λ c. is_space c ≡ false) (hex_text ns)
unfolding hex_text
hex_text-visible [] h = tt
hex_text-visible (n ∷ ns) (small, h) = (
  hex_digit-space (n / 16) (ground arith),
  (hex_digit-space (n % 16) (ground arith), hex_text-visible ns h),
)

length-hex_text : (ns : List ℕ) → length (hex_text ns) ≡ length ns + length ns
unfolding hex_text
length-hex_text [] = refl
length-hex_text (n ∷ ns) = omega (arith, length-hex_text ns)

drop_end_visible : (s : Text) → All (λ c. is_space c ≡ false) s → drop_end is_space s ≡ s
unfolding drop_end
drop_end_visible [] h = refl
drop_end_visible (c ∷ []) (v, h) = rw v refl
drop_end_visible (c ∷ d ∷ s) (v, h) = rw (drop_end_visible (d ∷ s) h) refl

trim_visible : (s : Text) → All (λ c. is_space c ≡ false) s → trim s ≡ s
unfolding trim trim_start drop_end
trim_visible [] h = refl
trim_visible (c ∷ s) (v, h) = rw (drop_end_visible (c ∷ s) (v, h)) (rw v refl)

module _ (engine : Engine) (resolve : Text → Text) where
  -- A secret that the page generates from 32 bytes, or from more, has two digits for each byte, and
  -- passes the check of the form.
  pub generated_secret_passes :
      (bytes : List ℕ) (d : Desk)
      → All (λ n. n < 256) bytes
      → 32 ≤ length bytes
      → let form = (step engine resolve (secret_generated bytes) d).page.settings in
        (length form.server_secret ≡ length bytes + length bytes)
        × (server_secret_error form ≡ none)
  unfolding step server_secret_error
  generated_secret_passes bytes d small enough = (
    length-hex_text bytes,
    rw (trim_visible (hex_text bytes) (hex_text-visible bytes small))
        (ground (arith, length-hex_text bytes)),
  )
