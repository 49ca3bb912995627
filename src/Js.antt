-- ===== src/Js.antt =====
-- The values of JavaScript that reach dev/src/index.js, with the language's conversions. The parts
-- of the engine that the extension only calls are the fields of `Engine`.
use Prim.Native.String.{String}
use text.Mathlib.Text.{◌==◌ as str_eq}
use bananabreadwasm.Prelude.{
  ℕ, ◌/◌, ◌^◌, Bool, true, false, Option, [], ◌∷◌, ◌++◌, ◌==◌, if◌then◌else◌,
}
use bananabreadwasm.Text.{Text, codes, is_empty}

-- A finite double, in the decimal form `m / 10 ^ d` in which JSON writes it, or NaN. The infinities
-- are left out: JSON writes none, and a literal that overflows to one is outside the model.
pub data Number : Type 0 where
  nan : Number
  finite : Bool → ℕ → ℕ → Number

mutual
  pub data Value : Type 0 where
    undefined null : Value
    bool : Bool → Value
    num : Number → Value
    str : Text → Value
    arr : Values → Value
    obj : Fields → Value

  pub data Values : Type 0 where
    nil : Values
    cons : Value → Values → Values

  pub data Fields : Type 0 where
    end : Fields
    field : String → Value → Fields → Fields

-- What the JavaScript engine supplies: `JSON.parse`, the decimal forms of numbers and the
-- upper-to-lower case tables of Unicode.
pub record Engine : Type 0 where
  pub json_parse : Text → Option Value
  pub number_of_text : Text → Number
  pub text_of_number : Number → Text
  pub to_lower : Text → Text

-- `fields.key`, the first entry of that name.
unfoldable pub get_field : String → Fields → Value
get_field k end = undefined
get_field k (field j v fs) = if str_eq j k then v else get_field k fs

-- `value?.key`. Of a value that is no object the extension reads no property that exists.
unfoldable pub member : String → Value → Value
unfolding get_field
member k (obj fs) = get_field k fs
member k undefined = undefined
member k null = undefined
member k (bool b) = undefined
member k (num n) = undefined
member k (str s) = undefined
member k (arr vs) = undefined

-- `a ?? b`
unfoldable pub nullish_or : Value → Value → Value
nullish_or undefined v = v
nullish_or null v = v
nullish_or (bool b) v = bool b
nullish_or (num n) v = num n
nullish_or (str s) v = str s
nullish_or (arr vs) v = arr vs
nullish_or (obj fs) v = obj fs

abbrev is_zero : Number → Bool
is_zero nan = true
is_zero (finite neg m d) = m == 0

-- `Boolean(value)`
unfoldable pub truthy : Value → Bool
truthy undefined = false
truthy null = false
truthy (bool b) = b
truthy (num nan) = false
truthy (num (finite neg m d)) = if m == 0 then false else true
truthy (str s) = if is_empty s then false else true
truthy (arr vs) = true
truthy (obj fs) = true

-- `a || b`
unfoldable pub or_value : Value → Value → Value
unfolding truthy
or_value a b = if truthy a then a else b

-- The integer part of a magnitude, as `Math.trunc` leaves it.
abbrev pub whole : ℕ → ℕ → ℕ
whole m d = m / 10 ^ d

module _ (engine : Engine) where
  open engine use {number_of_text, text_of_number}

  -- `String(value)`; an array joins its members by commas, null and undefined as empty texts.
  unfoldable mutual
    pub string_of : Value → Text
    string_of undefined = codes "undefined"
    string_of null = codes "null"
    string_of (bool true) = codes "true"
    string_of (bool false) = codes "false"
    string_of (num n) = text_of_number n
    string_of (str s) = s
    string_of (arr vs) = join vs
    string_of (obj fs) = codes "[object Object]"

    pub join : Values → Text
    join nil = []
    join (cons v vs) = join_item v ++ join_rest vs

    pub join_rest : Values → Text
    join_rest nil = []
    join_rest (cons v vs) = b',' ∷ (join_item v ++ join_rest vs)

    pub join_item : Value → Text
    join_item undefined = []
    join_item null = []
    join_item (bool true) = codes "true"
    join_item (bool false) = codes "false"
    join_item (num n) = text_of_number n
    join_item (str s) = s
    join_item (arr vs) = join vs
    join_item (obj fs) = codes "[object Object]"

  -- `Number(value)`
  unfoldable pub number_of : Value → Number
  unfolding string_of
  number_of undefined = nan
  number_of null = finite false 0 0
  number_of (bool true) = finite false 1 0
  number_of (bool false) = finite false 0 0
  number_of (num n) = n
  number_of (str s) = number_of_text s
  number_of (arr vs) = number_of_text (string_of (arr vs))
  number_of (obj fs) = nan
