-- ===== src/Sdk/Wrappers.antt =====
-- The exports storage and wallet of dev/src/lnbits-sdk.js, which call `extensionApi` and take its answers apart. `extensionApi` passes an argument that Sdk does
-- not build on to the host as it is.
use bananabreadwasm.Prelude.{if◌then◌else◌, Option, none, some}
use bananabreadwasm.Text.{codes}
use bananabreadwasm.Result.{Result, ok, err, syntax_error}
use bananabreadwasm.Js.{
  Value, undefined, null, num, str, obj, Fields, field, end, get_field, member, truthy, or_value,
  string_of, number_of,
}
use bananabreadwasm.Sdk.{
  Import, storage_get, storage_get_public, storage_set, storage_append_public,
  storage_get_paginated, storage_get_public_paginated, storage_delete, list_user_wallets,
  create_invoice, create_invoice_public, pay_invoice, pay_lnurl, Runtime, empty_text, empty_object,
  empty_list, whole_number, is_true, set_argument, append_argument, paginated_argument,
  public_paginated_argument, invoice_argument, public_invoice_argument, pay_invoice_argument,
  pay_lnurl_argument,
}

-- The functions of the host, which throw or answer, and what they keep.
pub record Functions : Type 1 where
  pub State : Type 0
  pub call : Import → Value → State → Result Value × State

module _ (f : Functions) where
  -- A call of an export.
  abbrev pub Run : Type 0
  Run = f.State → Result Value × f.State

  abbrev pub invoke : Import → Fields → Run
  invoke i argument s = f.call i (obj argument) s

  abbrev pub then_on : Result Value × f.State → (Value → Run) → Result Value × f.State
  then_on (ok v, s) k = k v s
  then_on (err e, s) k = (err e, s)

  abbrev pub ask : Import → Fields → (Value → Run) → Run
  ask i argument k s = then_on (invoke i argument s) k

  abbrev pub return : Value → Run
  return v s = (ok v, s)

  abbrev pub built : Result Fields → Import → Run
  built (ok argument) i s = invoke i argument s
  built (err e) i s = (err e, s)

-- The default of a parameter that is taken apart.
abbrev pub default_to : Value → Value → Value
default_to undefined d = d
default_to v d = v

abbrev keyed : Value → Value → Fields
keyed table id = field "table" table (field "id" id end)

module _ (r : Runtime) (f : Functions) where
  open r use {engine}

  abbrev parsed : Option Value → Result Value
  parsed none = err syntax_error
  parsed (some v) = ok v

  -- `JSON.parse(value)`
  unfoldable pub parse_json : Value → Result Value
  unfolding string_of
  parse_json v = parsed (engine.json_parse (string_of engine v))

  abbrev pub number_or_zero : Value → Value
  number_or_zero v = num (number_of engine (or_value v (whole_number 0)))

  abbrev row_or : Value → Value → Run f
  row_or fallback response s =
      if truthy (member "dataJson" response)
      then (parse_json (member "dataJson" response), s)
      else (ok fallback, s)

  unfoldable pub get : Value → Value → Value → Run f
  unfolding parse_json member truthy
  get table id fallback = ask f storage_get (keyed table id) (row_or fallback)

  unfoldable pub get_public : Value → Value → Value → Run f
  unfolding parse_json member truthy
  get_public table id fallback = ask f storage_get_public (keyed table id) (row_or fallback)

  unfoldable pub set : Value → Value → Run f
  unfolding set_argument
  set table row =
      ask f storage_set (set_argument r (field "table" table (field "data" row end)))
        λ _. return f row

  unfoldable pub append_public : Value → Value → Value → Run f
  unfolding append_argument
  append_public table source_id row =
      invoke f storage_append_public (
        append_argument r (field "table" table (field "sourceId" source_id (field "data" row end))))

  abbrev page_of : Result Value → Value → Result Value
  page_of (ok rows) total = ok (obj (field "data" rows (field "total" total end)))
  page_of (err e) total = err e

  abbrev read_page : Value → Run f
  read_page response s = (
    page_of (parse_json (or_value (member "rowsJson" response) (str (codes "[]"))))
        (number_or_zero (member "total" response)),
    s,
  )

  -- The options with their defaults, which `extensionApi` fills in again.
  unfoldable pub page_options : Fields → Fields
  unfolding get_field or_value
  page_options options = field "filters" (or_value (get_field "filters" options) empty_object) (
      field "search" (or_value (get_field "search" options) empty_text) (
        field "searchFields" (or_value (get_field "searchFields" options) empty_list) (
          field "sortBy" (or_value (get_field "sortBy" options) empty_text) (
            field "descending" (is_true (get_field "descending" options)) (
              field "limit" (or_value (get_field "limit" options) (whole_number 25))
                (field "offset" (or_value (get_field "offset" options) (whole_number 0)) end))))))

  unfoldable pub get_paginated : Value → Fields → Run f
  unfolding page_options paginated_argument parse_json member or_value number_of
  get_paginated table options =
      ask f storage_get_paginated
        (paginated_argument r (field "table" table (page_options options))) read_page

  unfoldable pub get_public_paginated : Value → Fields → Run f
  unfolding page_options public_paginated_argument parse_json member or_value number_of get_field
  get_public_paginated table options =
      ask f storage_get_public_paginated
        (public_paginated_argument r (
          field "table" table (
            field "sourceId" (or_value (get_field "sourceId" options) empty_text)
              (page_options options))))
        read_page

  unfoldable pub delete : Value → Value → Run f
  delete table id = ask f storage_delete (keyed table id) λ _. return f undefined

  unfoldable pub wallets : Run f
  unfolding member or_value
  wallets s =
      then_on f (f.call list_user_wallets undefined s)
        λ response. return f (or_value (member "wallets" response) empty_list)

  abbrev currency_of : Fields → Value
  currency_of o = default_to (get_field "currency" o) (str (codes "sat"))

  abbrev extra_of : Fields → Value
  extra_of o = default_to (get_field "extra" o) empty_object

  abbrev fields_of : Value → Fields
  fields_of (obj fs) = fs
  fields_of _ = end

  -- `{tag, ...extra}`: a `tag` of `extra` replaces the other. An undefined one is taken for none.
  abbrev tagged : Value → Fields → Fields
  tagged tag extra = elim (get_field "tag" extra) [ undefined ↦ field "tag" tag extra | _ ↦ extra ]

  unfoldable pub invoice : Fields → Run f
  unfolding invoice_argument get_field
  invoice o = invoke f create_invoice (
      invoice_argument r (
        field "walletId" (get_field "walletId" o) (
          field "amount" (get_field "amount" o) (
            field "currency" (currency_of o) (
              field "memo" (get_field "memo" o) (
                field "tag" (get_field "tag" o) (
                  field "extra" (obj (tagged (get_field "tag" o) (fields_of (extra_of o))))
                    end)))))))

  unfoldable pub invoice_public : Fields → Run f
  unfolding public_invoice_argument get_field
  invoice_public o = invoke f create_invoice_public (
      public_invoice_argument r (
        field "sourceId" (get_field "sourceId" o) (
          field "amount" (get_field "amount" o) (
            field "currency" (currency_of o) (
              field "memo" (default_to (get_field "memo" o) empty_text)
                (field "extra" (extra_of o) end))))))

  unfoldable pub pay : Fields → Run f
  unfolding pay_invoice_argument get_field
  pay o =
      built f
        (pay_invoice_argument r (
          field "walletId" (get_field "walletId" o) (
            field "paymentRequest" (get_field "paymentRequest" o) (
              field "maxSat" (default_to (get_field "maxSat" o) null) (
                field "description" (default_to (get_field "description" o) empty_text)
                  (field "extra" (extra_of o) end))))))
        pay_invoice

  unfoldable pub pay_address : Fields → Run f
  unfolding pay_lnurl_argument get_field
  pay_address o =
      built f
        (pay_lnurl_argument r (
          field "walletId" (get_field "walletId" o) (
            field "lnurl" (get_field "lnurl" o) (
              field "amount" (get_field "amount" o) (
                field "currency" (currency_of o) (
                  field "comment" (default_to (get_field "comment" o) empty_text) (
                    field "maxSat" (default_to (get_field "maxSat" o) (whole_number 0)) (
                      field "description" (default_to (get_field "description" o) empty_text)
                        (field "extra" (extra_of o) end)))))))))
        pay_lnurl
