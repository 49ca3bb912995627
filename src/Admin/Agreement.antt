-- ===== src/Admin/Agreement.antt =====
-- The checks of a gateway URL in static/admin.js and in dev/src/index.js.
use bananabreadwasm.Prelude.{
  ℕ, ◌≤◌, ◌≡◌, refl, Option, none, some, [], length, take_all, arith, Bool-cases,
}
use bananabreadwasm.Text.{Text, is_empty, trim}
use bananabreadwasm.Result.{Result, ok, err, invalid_gateway_url, gateway_not_https}
use bananabreadwasm.Js.{str, Engine, string_of, nullish_or}
use bananabreadwasm.Normalize.{clean_text}
use bananabreadwasm.Gateway.{Scheme, check_match, normalize_gateway_url, match_url}
use bananabreadwasm.Admin.{
  fault_of, Fault, select_wallet, enter_gateway, invalid_gateway, insecure_gateway, short_secret,
  normalized_gateway_url, gateway_url_error,
}

-- What the extension does with a URL of which the page says this.
abbrev pub verdict : Text → Option Fault → Result Text
verdict url none = ok url
verdict url (some enter_gateway) = ok []
verdict url (some invalid_gateway) = err invalid_gateway_url
verdict url (some insecure_gateway) = err gateway_not_https
verdict url (some select_wallet) = ok url
verdict url (some short_secret) = ok url

module _ (engine : Engine) where
  clean_text-fits : (s : Text) (n : ℕ) → length (trim s) ≤ n → clean_text engine (str s) n ≡ trim s
  unfolding clean_text nullish_or string_of
  clean_text-fits s n fits = take_all n (trim s) fits

  check_match-agrees :
      (text : Text) (m : Option (Scheme × Text))
      → check_match engine text m ≡ verdict text (fault_of engine m)
  unfolding check_match fault_of
  check_match-agrees text none = refl
  check_match-agrees text (some (scheme, authority)) = grind arith

  -- The page's check of a gateway URL and the extension's agree, for a URL of at most 500 characters
  -- without the white space around it: the extension accepts the URL without its trailing slashes if
  -- the page has no fault to report, takes it as absent if the page asks for a URL, and otherwise
  -- throws the error of the fault.
  pub gateway_url_error-agrees :
      (s : Text)
      → length (trim s) ≤ 500
      → normalize_gateway_url engine (str s)
        ≡ verdict (normalized_gateway_url s) (gateway_url_error engine s)
  unfolding normalize_gateway_url gateway_url_error normalized_gateway_url
  gateway_url_error-agrees s fits =
      let url = normalized_gateway_url s in
      grind (
        arith,
        clean_text-fits s 500 fits,
        check_match-agrees url (match_url url),
        Bool-cases (is_empty url),
      )
