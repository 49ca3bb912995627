-- ===== src/Gateway.antt =====
-- Gateway addresses in dev/src/index.js: `normalizeGatewayUrl`, `buildEnterUrl`, and the language's
-- `encodeURIComponent` that the latter and the return path call.
pub mod Segments
use bananabreadwasm.Prelude.{
  ℕ, ◌+◌, ◌-◌, ◌*◌, ◌/◌, ◌%◌, Bool, true, not, ◌&&◌, ◌||◌, Option, none, some, [], ◌∷◌, ◌++◌, leb,
  ltb, ◌==◌, all, if◌then◌else◌,
}
use bananabreadwasm.Text.{
  Text, codes, text_eq, is_empty, drop_end, includes, span_while, ascii_lower,
}
use bananabreadwasm.Result.{
  Result, ok, err, invalid_gateway_url, gateway_not_https, malformed_uri, ◌>>=◌,
}
use bananabreadwasm.Js.{Value, Engine}
use bananabreadwasm.Normalize.{clean_text}

abbrev pub is_slash : ℕ → Bool
is_slash c = c == b'/'

-- `/[^/?#]/` and `/[^?#]/`
abbrev is_path_char : ℕ → Bool
is_path_char c = not (c == b'?') && not (c == b'#')

abbrev is_authority_char : ℕ → Bool
is_authority_char c = not (c == b'/') && is_path_char c

abbrev is_digit : ℕ → Bool
is_digit c = leb b'0' c && leb c b'9'

-- The text behind a prefix that is in lower case, whatever the case of the text.
unfoldable pub strip_prefix : Text → Text → Option Text
unfolding ascii_lower
strip_prefix [] s = some s
strip_prefix (p ∷ ps) [] = none
strip_prefix (p ∷ ps) (c ∷ s) =
    let rest = strip_prefix ps s in if ascii_lower c == p then rest else none

-- `(\/[^?#]*)?$`
abbrev is_path : Text → Bool
is_path [] = true
is_path (c ∷ s) = c == b'/' && all is_path_char s

pub data Scheme : Type 0 where
  http https : Scheme

-- The groups of `/^(https?):\/\/([^/?#]+)(\/[^?#]*)?$/i`: the scheme and the authority.
unfoldable pub match_rest : Scheme → Text → Option (Scheme × Text)
unfolding span_while
match_rest scheme s =
    let (authority, path) = span_while is_authority_char s in
    if not (is_empty authority) && is_path path then some (scheme, authority) else none

unfoldable pub match_url : Text → Option (Scheme × Text)
unfolding match_rest strip_prefix
match_url s = elim (strip_prefix (codes "https://") s) [
  | some rest ↦ match_rest https rest
  | none ↦ elim (strip_prefix (codes "http://") s) [
    | some rest ↦ match_rest http rest
    | none ↦ none
  ]
]

-- `replace(/:\d+$/, '')`
unfoldable pub drop_port : Text → Text
drop_port [] = []
drop_port (c ∷ s) =
    let rest = drop_port s in
    if c == b':' && not (is_empty s) && all is_digit s then [] else c ∷ rest

-- `replace(/^\[|\]$/g, '')`
abbrev drop_opening : Text → Text
drop_opening [] = []
drop_opening (c ∷ s) = if c == b'[' then s else c ∷ s

abbrev drop_closing : Text → Text
drop_closing [] = []
drop_closing (c ∷ []) = if c == b']' then [] else c ∷ []
drop_closing (c ∷ d ∷ s) = c ∷ drop_closing (d ∷ s)

abbrev pub is_local_name : Text → Bool
is_local_name host =
    text_eq host (codes "localhost")
    || text_eq host (codes "127.0.0.1")
    || text_eq host (codes "::1")

-- HTTPS, or HTTP on a local name.
abbrev pub is_allowed : Scheme → Bool → Bool
is_allowed https local = true
is_allowed http local = local

module _ (engine : Engine) where
  unfoldable pub hostname : Text → Text
  unfolding drop_port
  hostname authority = engine.to_lower (drop_closing (drop_opening (drop_port authority)))

  -- The two tests on the groups of the match.
  unfoldable pub check_match : Text → Option (Scheme × Text) → Result Text
  check_match text none = err invalid_gateway_url
  check_match text (some (scheme, authority)) =
      if includes b'@' authority
      then err invalid_gateway_url
      else if is_allowed scheme (is_local_name (hostname authority))
      then ok text
      else err gateway_not_https

  unfoldable pub normalize_gateway_url : Value → Result Text
  normalize_gateway_url value =
      let text = drop_end is_slash (clean_text engine value 500) in
      if is_empty text then ok [] else check_match text (match_url text)

abbrev pub is_unreserved : ℕ → Bool
is_unreserved c =
    (leb b'A' c && leb c b'Z')
    || (leb b'a' c && leb c b'z')
    || (leb b'0' c && leb c b'9')
    || c == b'-'
    || c == b'_'
    || c == b'.'
    || c == b'!'
    || c == b'~'
    || c == b'*'
    || c == b'('
    || c == b')'
    || c == 39

abbrev pub hex_digit : ℕ → ℕ
hex_digit n = if ltb n 10 then b'0' + n else b'A' + (n - 10)

abbrev pub percent : ℕ → Text
percent b = b'%' ∷ hex_digit (b / 16) ∷ hex_digit (b % 16) ∷ []

-- The UTF-8 bytes of a code point, each written `%XX`.
unfoldable pub percent_utf8 : ℕ → Text
percent_utf8 c =
    if ltb c 0x80
    then percent c
    else if ltb c 0x800
    then percent (0xc0 + c / 64) ++ percent (0x80 + c % 64)
    else if ltb c 0x10000
    then percent (0xe0 + c / 4096) ++ percent (0x80 + c / 64 % 64) ++ percent (0x80 + c % 64)
    else percent (0xf0 + c / 262144)
      ++ percent (0x80 + c / 4096 % 64)
      ++ percent (0x80 + c / 64 % 64)
      ++ percent (0x80 + c % 64)

abbrev pub is_lead : ℕ → Bool
is_lead c = leb 0xd800 c && leb c 0xdbff

abbrev pub is_trail : ℕ → Bool
is_trail c = leb 0xdc00 c && leb c 0xdfff

abbrev pub prepend : Text → Result Text → Result Text
prepend s (ok t) = ok (s ++ t)
prepend s (err e) = err e

-- An unpaired surrogate is a `URIError`.
unfoldable pub encode_uri_component : Text → Result Text
unfolding percent_utf8
encode_uri_component [] = ok []
encode_uri_component (c ∷ []) =
    if is_unreserved c
    then ok (c ∷ [])
    else if is_lead c || is_trail c
    then err malformed_uri
    else ok (percent_utf8 c)
encode_uri_component (c ∷ d ∷ s) =
    let single = encode_uri_component (d ∷ s) in
    let pair = encode_uri_component s in
    if is_unreserved c
    then prepend (c ∷ []) single
    else if is_trail c
    then err malformed_uri
    else if is_lead c
    then if is_trail d
      then prepend (percent_utf8 ((c - 0xd800) * 0x400 + (d - 0xdc00) + 0x10000)) pair
      else err malformed_uri
    else prepend (percent_utf8 c) single

unfoldable pub build_enter_url : Text → Text → Text → Result Text
unfolding encode_uri_component drop_end
build_enter_url gateway_url game_id player_token = if is_empty gateway_url then ok [] else do
  game ← encode_uri_component game_id
  ticket ← encode_uri_component player_token
  ok (
      drop_end is_slash gateway_url
      ++ codes "/lnbits/enter?game="
      ++ game
      ++ codes "&ticket="
      ++ ticket)
