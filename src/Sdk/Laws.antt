-- ===== src/Sdk/Laws.antt =====
-- What the host is asked for through dev/src/lnbits-sdk.js, and what comes back.
use bananabreadwasm.Prelude.{◌≡◌, refl, ◌<◌, true, false, some, List, [], ◌∷◌, String, arith}
use bananabreadwasm.Text.{Text, codes, is_empty}
use bananabreadwasm.Result.{ok}
use bananabreadwasm.Js.{
  Value, undefined, str, obj, Fields, field, end, get_field, member, truthy, or_value, number_of,
  string_of,
}
use bananabreadwasm.Host.{PayRequest}
use bananabreadwasm.Sdk.{
  storage_get, storage_set, pay_lnurl, Runtime, whole_number, empty_text, set_argument,
  text_entries, pay_lnurl_argument,
}
use bananabreadwasm.Sdk.Wrappers.{Functions, get, set, parse_json, pay_address}

module _ (r : Runtime) (f : Functions) where
  -- What was set is what is got, if the host answers with the text that it was given, and the engine
  -- reads from that text the value that it was written from.
  pub get-set :
      (table id row fallback response : Value) (w w' : f.State)
      → let text = r.stringify row in
        let argument = field "table" table (field "dataJson" (str text) end) in
        truthy row ≡ true
        → f.call storage_set (obj argument) w ≡ (ok response, w')
        → f.call storage_get (obj (field "table" table (field "id" id end))) w'
          ≡ (ok (obj (field "dataJson" (str text) end)), w')
        → is_empty text ≡ false
        → r.engine.json_parse text ≡ some row
        → (set r f table row w ≡ (ok row, w')) × (get r f table id fallback w' ≡ (ok row, w'))
  unfolding set get set_argument parse_json member get_field or_value truthy string_of
  get-set table id row fallback response w w' full stored found written read =
      (ground arith, ground arith)

  abbrev extra_fields : List (String × Text) → Fields
  extra_fields [] = end
  extra_fields ((key, value) ∷ es) = field key (str value) (extra_fields es)

  -- The argument of `wallet.payLnurl` in `payPlayer` of dev/src/index.js.
  unfoldable pub pay_fields : PayRequest → Fields
  pay_fields q = field "walletId" (str q.wallet_id) (
      field "lnurl" (str q.lnurl) (
        field "amount" (whole_number q.amount) (
          field "currency" (str (codes "sat")) (
            field "comment" (str q.comment) (
              field "maxSat" (whole_number q.max_sat) (
                field "description" (str q.description)
                  (field "extra" (obj (extra_fields q.extra)) end)))))))

  -- A payment of the extension with a positive cap reaches the host as one call, from the same wallet to
  -- the same address, for the same amount in sats, and with the cap as a BigInt.
  pub pay_address-reaches :
      (q : PayRequest) (cap : Value) (w : f.State)
      → 0 < q.max_sat
      → r.big_int (whole_number q.max_sat) ≡ ok cap
      → (argument : Fields) × (pay_address r f (pay_fields q) w ≡ f.call pay_lnurl (obj argument) w)
        × (get_field "walletId" argument ≡ str q.wallet_id)
        × (get_field "lnurl" argument ≡ str q.lnurl)
        × (get_field "amount" argument ≡ whole_number q.amount)
        × (get_field "currency" argument ≡ str (codes "sat"))
        × (get_field "maxSat" argument ≡ cap)
  unfolding pay_address pay_lnurl_argument pay_fields get_field or_value truthy number_of
  pay_address-reaches q cap w positive big =
      let argument : Fields = field "walletId" (str q.wallet_id) (
        field "lnurl" (str q.lnurl) (
          field "amount" (whole_number q.amount) (
            field "currency" (str (codes "sat")) (
              field "comment" (or_value (str q.comment) undefined) (
                field "maxSat" cap (
                  field "description" (or_value (str q.description) empty_text)
                    (field "extra" (text_entries r (obj (extra_fields q.extra))) end))))))) in
      (argument, ground (arith, big), refl, refl, refl, refl, refl)
