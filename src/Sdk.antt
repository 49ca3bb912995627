-- ===== src/Sdk.antt =====
-- dev/src/lnbits-sdk.js: the arguments with which `extensionApi` calls the functions that the host
-- supplies. The functions of the other exports, which call it, are in Sdk/Wrappers.
pub mod Laws
pub mod Services
pub mod Wrappers
use bananabreadwasm.Prelude.{
  ℕ, Bool, true, false, not, List, [], ◌∷◌, String, ◌==◌, ltb, if◌then◌else◌,
}
use bananabreadwasm.Text.{Text, codes}
use bananabreadwasm.Result.{Result, ok, err, ◌>>=◌}
use bananabreadwasm.Js.{
  Engine, Number, nan, finite, Value, undefined, null, bool, num, str, arr, obj, Values, nil, cons,
  Fields, field, end, get_field, nullish_or, truthy, or_value, string_of, number_of,
}

-- The imports from the host.
pub data Import : Type 0 where
  storage_get storage_get_public storage_set storage_append_public : Import
  storage_get_paginated storage_get_public_paginated storage_delete : Import
  list_user_wallets create_invoice create_invoice_public pay_invoice pay_lnurl : Import
  websocket_publish http_request extension_api_request random_id now log : Import
  list_currencies rate convert fiat_to_sats sats_to_fiat health : Import
  decode_invoice validate_invoice invoice_payment_hash invoice_amount_msat : Import
  invoice_expiry invoice_memo verify_preimage random_secret_and_hash : Import

-- What the engine supplies besides `Engine`: `JSON.stringify`, `BigInt` and `Object.fromEntries`.
pub record Runtime : Type 0 where
  pub engine : Engine
  pub stringify : Value → Text
  pub big_int : Value → Result Value
  pub from_entries : Value → Value

abbrev pub empty_text : Value
empty_text = str []

abbrev pub empty_object : Value
empty_object = obj end

abbrev pub empty_list : Value
empty_list = arr nil

-- `value === true`
abbrev pub is_true : Value → Value
is_true (bool b) = bool b
is_true _ = bool false

abbrev pub whole_number : ℕ → Value
whole_number n = num (finite false n 0)

-- `value > 0`
abbrev is_positive : Number → Bool
is_positive (finite false m d) = ltb 0 m
is_positive (finite true m d) = false
is_positive nan = false

module _ (r : Runtime) where
  open r use {engine, stringify, big_int}

  abbrev pairs : Fields → Values
  pairs end = nil
  pairs (field k v fs) =
      cons (arr (cons (str (codes k)) (cons (str (string_of engine v)) nil))) (pairs fs)

  -- For an object or a falsy value: `Object.entries(value || {}).map(([key, value]) => [key, String(value)])`
  unfoldable pub text_entries : Value → Value
  unfolding string_of
  text_entries (obj fs) = arr (pairs fs)
  text_entries _ = arr nil

  abbrev json_of : String → Fields → Value
  json_of key input = str (stringify (or_value (get_field key input) empty_object))

  unfoldable pub set_argument : Fields → Fields
  unfolding get_field or_value
  set_argument input =
      field "table" (get_field "table" input) (field "dataJson" (json_of "data" input) end)

  unfoldable pub append_argument : Fields → Fields
  unfolding get_field or_value
  append_argument input =
      field "table" (get_field "table" input) (
        field "sourceId" (get_field "sourceId" input) (field "dataJson" (json_of "data" input) end))

  -- The part that both kinds of pages share.
  abbrev page_argument : Fields → Fields
  page_argument input = field "filtersJson" (json_of "filters" input) (
      field "search" (or_value (get_field "search" input) empty_text) (
        field "searchFields" (or_value (get_field "searchFields" input) empty_list) (
          field "sortBy" (or_value (get_field "sortBy" input) empty_text) (
            field "descending" (is_true (get_field "descending" input)) (
              field "limit" (or_value (get_field "limit" input) (whole_number 25))
                (field "offset" (or_value (get_field "offset" input) (whole_number 0)) end))))))

  unfoldable pub paginated_argument : Fields → Fields
  unfolding get_field or_value
  paginated_argument input = field "table" (get_field "table" input) (page_argument input)

  unfoldable pub public_paginated_argument : Fields → Fields
  unfolding get_field or_value
  public_paginated_argument input =
      field "table" (get_field "table" input)
        (field "sourceId" (get_field "sourceId" input) (page_argument input))

  -- The fields of the input follow; those before them come first.
  unfoldable pub invoice_argument : Fields → Fields
  unfolding get_field text_entries number_of
  invoice_argument input =
      field "amount" (num (number_of engine (get_field "amount" input)))
        (field "extra" (text_entries (get_field "extra" input)) input)

  unfoldable pub public_invoice_argument : Fields → Fields
  unfolding get_field or_value text_entries number_of
  public_invoice_argument input = field "sourceId" (get_field "sourceId" input) (
      field "amount" (num (number_of engine (get_field "amount" input))) (
        field "currency" (or_value (get_field "currency" input) (str (codes "sat"))) (
          field "memo" (or_value (get_field "memo" input) empty_text)
            (field "extra" (text_entries (get_field "extra" input)) end))))

  abbrev cap_of : Value → Result Value
  cap_of undefined = ok undefined
  cap_of null = ok undefined
  cap_of v = big_int v

  unfoldable pub pay_invoice_argument : Fields → Result Fields
  unfolding get_field or_value text_entries
  pay_invoice_argument input = cap_of (get_field "maxSat" input) >>= λ cap. ok (
      field "walletId" (get_field "walletId" input) (
        field "paymentRequest" (get_field "paymentRequest" input) (
          field "maxSat" cap (
            field "description" (or_value (get_field "description" input) empty_text)
              (field "extra" (text_entries (get_field "extra" input)) end)))))

  abbrev positive_cap : Value → Result Value
  positive_cap v = if is_positive (number_of engine v) then big_int v else ok undefined

  unfoldable pub pay_lnurl_argument : Fields → Result Fields
  unfolding get_field or_value text_entries number_of
  pay_lnurl_argument input = positive_cap (get_field "maxSat" input) >>= λ cap. ok (
      field "walletId" (get_field "walletId" input) (
        field "lnurl" (get_field "lnurl" input) (
          field "amount" (num (number_of engine (get_field "amount" input))) (
            field "currency" (or_value (get_field "currency" input) (str (codes "sat"))) (
              field "comment" (or_value (get_field "comment" input) undefined) (
                field "maxSat" cap (
                  field "description" (or_value (get_field "description" input) empty_text)
                    (field "extra" (text_entries (get_field "extra" input)) end))))))))

  unfoldable pub publish_argument : Fields → Fields
  unfolding get_field or_value
  publish_argument input =
      field "itemId" (get_field "itemId" input) (field "dataJson" (json_of "data" input) end)

  unfoldable pub http_argument : Fields → Fields
  unfolding get_field or_value nullish_or text_entries
  http_argument input = field "method" (or_value (get_field "method" input) (str (codes "GET"))) (
      field "url" (get_field "url" input) (
        field "headers" (text_entries (get_field "headers" input))
          (field "body" (nullish_or (get_field "body" input) undefined) end)))

  unfoldable pub extension_argument : Fields → Fields
  unfolding get_field or_value nullish_or
  extension_argument input = field "extensionId" (get_field "extensionId" input) (
      field "method" (or_value (get_field "method" input) (str (codes "GET"))) (
        field "path" (get_field "path" input)
          (field "body" (nullish_or (get_field "body" input) undefined) end)))
