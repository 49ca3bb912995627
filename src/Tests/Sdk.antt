-- ===== src/Tests/Sdk.antt =====
-- Calls of dev/src/lnbits-sdk.js against functions of a host that keep one row.
use bananabreadwasm.Prelude.{◌≡◌, refl, some, [], arith}
use bananabreadwasm.Text.{codes}
use bananabreadwasm.Result.{Result, ok}
use bananabreadwasm.Js.{Value, undefined, str, obj, Fields, field, end, get_field, truthy}
use bananabreadwasm.Host.{PayRequest}
use bananabreadwasm.Sdk.{Import, storage_get, storage_set, pay_lnurl, Runtime, whole_number}
use bananabreadwasm.Sdk.Laws.{get-set, pay_fields, pay_address-reaches}
use bananabreadwasm.Sdk.Wrappers.{Functions, get, set, pay_address}
use bananabreadwasm.Tests.Sample.{engine}

abbrev row : Value
row = obj (field "id" (str (codes "main")) end)

abbrev runtime : Runtime
runtime = record {
  engine = record engine { json_parse = λ t. some row };
  stringify = λ v. codes "{}";
  big_int = λ v. ok v;
  from_entries = λ v. v;
}

-- The text that was set last.
abbrev text_in : Fields → Value
text_in (field table t (field key v end)) = v
text_in fs = undefined

abbrev call_of : Import → Value → Value → Result Value × Value
call_of storage_set (obj fs) kept = (ok undefined, text_in fs)
call_of storage_get v kept = (ok (obj (field "dataJson" kept end)), kept)
call_of i v kept = (ok undefined, kept)

abbrev functions : Functions
functions = record { State = Value; call = call_of }

abbrev table : Value
table = str (codes "settings")

get-set_example :
    (set runtime functions table row undefined ≡ (ok row, str (codes "{}")))
    × (get runtime functions table (str (codes "main")) undefined (str (codes "{}"))
        ≡ (ok row, str (codes "{}")))
unfolding truthy
get-set_example =
    get-set runtime functions table (str (codes "main")) row undefined undefined undefined
      (str (codes "{}")) refl refl refl refl refl

abbrev refund : PayRequest
refund = record {
  wallet_id = codes "purse";
  lnurl = codes "ann@pay.example.org";
  amount = 100;
  comment = codes "BananaBread refund";
  max_sat = 100;
  description = [];
  extra = [];
}

pay_address-reaches_example :
    (argument : Fields) × (pay_address runtime functions
        (pay_fields runtime functions refund)
        undefined
      ≡ functions.call pay_lnurl (obj argument) undefined)
    × (get_field "walletId" argument ≡ str (codes "purse"))
    × (get_field "lnurl" argument ≡ str (codes "ann@pay.example.org"))
    × (get_field "amount" argument ≡ whole_number 100)
    × (get_field "currency" argument ≡ str (codes "sat"))
    × (get_field "maxSat" argument ≡ whole_number 100)
pay_address-reaches_example =
    pay_address-reaches runtime functions refund (whole_number 100) undefined (ground arith) refl
