-- ===== src/Normalize.antt =====
-- The normalisers of request fields at the end of dev/src/index.js.
pub mod Bounds
pub mod Address
use Prim.Native.String.{String}
use bananabreadwasm.Prelude.{
  ℕ, zero, suc, ◌≡◌, Bool, true, false, Option, none, some, not, ◌&&◌, ◌||◌, List, [], ◌∷◌, ◌++◌,
  map, leb, ◌==◌, min, max, take, all, any, length, ltb, if◌then◌else◌,
}
use bananabreadwasm.Text.{
  Text, codes, text_eq, is_empty, or_text, is_space, trim, drop_end, includes, before, after,
  span_while, ascii_lower,
}
use bananabreadwasm.Result.{
  Result, ok, err, Error, required, invalid_ln_address, invalid_gateway_url, gateway_not_https,
  syntax_error, not_object, ◌>>=◌, ◌>>◌, throw_if,
}
use bananabreadwasm.Js.{
  Number, nan, finite, Value, undefined, null, str, obj, Fields, field, end, Engine, string_of,
  number_of, nullish_or, get_field, member, whole, truthy,
}

-- `slice(0, n)` cuts code units, and `trim` goes before it.
abbrev slice : ℕ → Text → Text
slice = take

abbrev is_alnum : ℕ → Bool
is_alnum c = (leb b'A' c && leb c b'Z') || (leb b'a' c && leb c b'z') || (leb b'0' c && leb c b'9')

-- `/[A-Za-z0-9_-]/`
unfoldable pub is_id_char : ℕ → Bool
is_id_char c = is_alnum c || c == b'_' || c == b'-'

abbrev is_digit : ℕ → Bool
is_digit c = leb b'0' c && leb c b'9'

-- `/[^\s@]/`
unfoldable pub is_address_char : ℕ → Bool
unfolding is_space
is_address_char c = not (is_space c) && not (c == b'@')

-- A dot before the last character.
unfoldable pub has_dot : Text → Bool
has_dot [] = false
has_dot (c ∷ []) = false
has_dot (c ∷ d ∷ s) = c == b'.' || has_dot (d ∷ s)

-- `[^\s@]+\.[^\s@]+`: some dot has a character on either side.
unfoldable pub is_domain : Text → Bool
unfolding has_dot is_address_char
is_domain [] = false
is_domain (c ∷ s) = all is_address_char (c ∷ s) && has_dot s

-- `/^[^\s@]+@[^\s@]+\.[^\s@]+$/`
unfoldable pub matches_address : Text → Bool
unfolding is_domain is_address_char before after
matches_address s =
    not (is_empty (before b'@' s))
    && all is_address_char (before b'@' s)
    && is_domain (after b'@' s)

abbrev sort_columns : List Text
sort_columns =
    codes "name"
    ∷ codes "join_amount"
    ∷ codes "players_count"
    ∷ codes "status"
    ∷ codes "created_at"
    ∷ codes "updated_at"
    ∷ []

-- The lookup in `camelToSnake`, and `|| field`.
abbrev snake_case : Text → Text
snake_case name =
    if text_eq name (codes "joinAmount")
    then codes "join_amount"
    else if text_eq name (codes "playersCount")
    then codes "players_count"
    else if text_eq name (codes "createdAt")
    then codes "created_at"
    else if text_eq name (codes "updatedAt")
    then codes "updated_at"
    else name

abbrev or_syntax_error : Option Value → Result Value
or_syntax_error none = err syntax_error
or_syntax_error (some v) = ok v

abbrev as_object : Value → Result Fields
as_object (obj fs) = ok fs
as_object _ = err not_object

module _ (engine : Engine) where
  open engine use {to_lower, json_parse}

  unfoldable pub clean_text : Value → ℕ → Text
  unfolding string_of nullish_or
  clean_text value max_length =
      slice max_length (trim (string_of engine (nullish_or value (str []))))

  unfoldable pub required_text : Value → String → ℕ → Result Text
  required_text value name max_length =
      let text = clean_text value max_length in
      if is_empty text then err (required name) else ok text

  unfoldable pub clean_id : Value → Text
  unfolding is_id_char
  clean_id value =
      let text = clean_text value 128 in
      if not (is_empty text) && all is_id_char text then text else []

  -- The bounds and the fallbacks of every call are natural numbers, so a negative number is
  -- raised to the lower bound.
  abbrev integer_of : Number → ℕ → ℕ
  integer_of nan fallback = fallback
  integer_of (finite true m d) fallback = 0
  integer_of (finite false m d) fallback = whole m d

  unfoldable pub normalize_integer : Value → ℕ → ℕ → ℕ → ℕ
  unfolding nullish_or number_of
  normalize_integer value fallback lo hi = min hi (
      max lo (
        integer_of (number_of engine (nullish_or value (Value.num (finite false fallback 0))))
          fallback))

  unfoldable pub normalize_page : Value → ℕ
  normalize_page value = normalize_integer value 1 1 1000000

  unfoldable pub normalize_page_size : Value → ℕ
  normalize_page_size value = normalize_integer value 10 1 100

  unfoldable pub normalize_ln_address : Value → Result Text
  unfolding matches_address
  normalize_ln_address value = do
    given ← required_text value "lnAddress" 320
    let text = to_lower given
    if matches_address text then ok text else err invalid_ln_address

  -- `typeof value === 'string' ? JSON.parse(value) : value`
  abbrev parsed : Value → Result Value
  parsed (str s) = or_syntax_error (json_parse s)
  parsed v = ok v

  -- `if (!value) return {}`, then the parse and the test for an object.
  unfoldable pub parse_json_object : Value → Result Fields
  unfolding truthy
  parse_json_object value = if truthy value then (parsed value >>= as_object) else ok end

  unfoldable pub normalize_game_sort_by : Value → Text
  unfolding text_eq
  normalize_game_sort_by value =
      let name = snake_case (clean_text value 80) in
      if any (text_eq name) sort_columns then name else codes "created_at"

  unfoldable pub mask_ln_address : Value → Text
  unfolding includes before after
  mask_ln_address value =
      let text = clean_text value 320 in
      if not (includes b'@' text)
      then text
      else let name = before b'@' text in
        let domain = before b'@' (after b'@' text) in
        if leb (length name) 4
        then name ++ b'@' ∷ domain
        else slice 3 name ++ codes "...@" ++ domain

-- `a ?? b` of two fields of a request.
abbrev pub either_field : String → String → Fields → Value
either_field a b fs = nullish_or (get_field a fs) (get_field b fs)
