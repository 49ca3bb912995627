-- ===== src/Sdk/Services.antt =====
-- The exports websocket, http, extension, utils and system.log of dev/src/lnbits-sdk.js.
use bananabreadwasm.Prelude.{String}
use bananabreadwasm.Text.{codes}
use bananabreadwasm.Js.{
  Value, undefined, str, arr, obj, Values, nil, cons, Fields, field, end, get_field, member,
  or_value, number_of,
}
use bananabreadwasm.Sdk.{
  Import, websocket_publish, http_request, extension_api_request, log, list_currencies, rate,
  convert, fiat_to_sats, sats_to_fiat, health, decode_invoice, validate_invoice,
  invoice_payment_hash, invoice_amount_msat, invoice_expiry, invoice_memo, verify_preimage,
  random_secret_and_hash, Runtime, empty_text, empty_object, empty_list, whole_number,
  publish_argument, http_argument, extension_argument,
}
use bananabreadwasm.Sdk.Wrappers.{
  Functions, Run, invoke, ask, return, default_to, number_or_zero, then_on,
}

module _ (r : Runtime) (f : Functions) where
  unfoldable pub publish : Value → Value → Run f
  unfolding publish_argument
  publish item_id message =
      invoke f websocket_publish
        (publish_argument r (field "itemId" item_id (field "data" message end)))

  -- What `http.request` and `extension.request` make of a response.
  unfoldable pub plain_response : Value → Value
  unfolding member or_value number_of
  plain_response response = obj (
      field "statusCode" (number_or_zero r f (member "statusCode" response)) (
        field "headers" (r.from_entries (or_value (member "headers" response) empty_list))
          (field "body" (or_value (member "body" response) empty_text) end)))

  unfoldable pub request : Fields → Run f
  unfolding http_argument plain_response get_field
  request o =
      ask f http_request
        (http_argument r (
          field "method" (default_to (get_field "method" o) (str (codes "GET"))) (
            field "url" (get_field "url" o) (
              field "headers" (default_to (get_field "headers" o) empty_object)
                (field "body" (get_field "body" o) end)))))
        λ response. return f (plain_response response)

  unfoldable pub extension_request : Fields → Run f
  unfolding extension_argument plain_response get_field
  extension_request o =
      ask f extension_api_request
        (extension_argument r (
          field "extensionId" (get_field "extensionId" o) (
            field "method" (default_to (get_field "method" o) (str (codes "GET")))
              (field "path" (get_field "path" o) (field "body" (get_field "body" o) end)))))
        λ response. return f (plain_response response)

  abbrev members : Value → Values
  members (arr vs) = vs
  members _ = nil

  unfoldable pub currencies : Run f
  unfolding member
  currencies s =
      then_on f (f.call list_currencies undefined s) λ response.
        return f (arr (cons (str (codes "sat")) (members (member "currencies" response))))

  unfoldable pub rate_of : Value → Run f
  rate_of currency = invoke f rate (field "currency" currency end)

  unfoldable pub converted : Fields → Run f
  unfolding member or_value get_field
  converted o =
      ask f convert
        (field "amount" (get_field "amount" o)
          (field "fromCurrency" (get_field "from" o) (field "to" (get_field "to" o) end)))
        λ response. return f (r.from_entries (or_value (member "amounts" response) empty_list))

  -- A number of an answer, or 0.
  abbrev number_answer : Import → String → Fields → Run f
  number_answer i key argument =
      ask f i argument λ response. return f (number_or_zero r f (member key response))

  abbrev amount_in : Value → Value → Fields
  amount_in amount currency = field "amount" amount (field "currency" currency end)

  unfoldable pub fiat_in_sats : Value → Value → Run f
  unfolding member or_value number_of
  fiat_in_sats amount currency = number_answer fiat_to_sats "amountSat" (amount_in amount currency)

  unfoldable pub sats_in_fiat : Value → Value → Run f
  unfolding member or_value number_of
  sats_in_fiat amount currency = number_answer sats_to_fiat "amount" (amount_in amount currency)

  unfoldable pub server_health : Run f
  server_health s = f.call health undefined s

  abbrev of_invoice : Value → Fields
  of_invoice bolt11 = field "bolt11" bolt11 end

  unfoldable pub decoded : Value → Run f
  decoded bolt11 = invoke f decode_invoice (of_invoice bolt11)

  unfoldable pub validated : Value → Run f
  validated bolt11 = invoke f validate_invoice (of_invoice bolt11)

  unfoldable pub hash_of : Value → Run f
  unfolding member
  hash_of bolt11 =
      ask f invoice_payment_hash (of_invoice bolt11)
        λ response. return f (member "paymentHash" response)

  unfoldable pub amount_of : Value → Run f
  unfolding member or_value number_of
  amount_of bolt11 = number_answer invoice_amount_msat "amountMsat" (of_invoice bolt11)

  unfoldable pub expiry_of : Value → Run f
  unfolding member or_value number_of
  expiry_of bolt11 = number_answer invoice_expiry "expiresAt" (of_invoice bolt11)

  unfoldable pub memo_of : Value → Run f
  unfolding member or_value
  memo_of bolt11 =
      ask f invoice_memo (of_invoice bolt11)
        λ response. return f (or_value (member "memo" response) empty_text)

  unfoldable pub is_preimage : Value → Value → Run f
  unfolding member
  is_preimage preimage payment_hash =
      ask f verify_preimage (field "preimage" preimage (field "paymentHash" payment_hash end))
        λ response. return f (member "valid" response)

  unfoldable pub new_secret : Value → Run f
  new_secret length =
      invoke f random_secret_and_hash (field "length" (default_to length (whole_number 32)) end)

  unfoldable pub write_log : Value → Value → Run f
  write_log message level =
      ask f log
        (field "level" (default_to level (str (codes "info"))) (field "message" message end))
        λ _. return f undefined
