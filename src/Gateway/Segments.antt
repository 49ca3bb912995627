-- ===== src/Gateway/Segments.antt =====
-- Ids in the URLs that dev/src/index.js and static/lnbits-extension-sdk.js build.
use bananabreadwasm.Prelude.{
  ℕ, ◌+◌, ◌-◌, ◌*◌, ◌/◌, ◌%◌, ltb, ◌≡◌, refl, Bool, true, false, ◌||◌, [], ◌∷◌, ◌++◌, All, arith,
  ◌==◌, if◌then◌else◌, inl, inr,
}
use bananabreadwasm.Text.{Text, codes, is_empty, drop_end}
use bananabreadwasm.Result.{Result, ok, err, Result-cases}
use bananabreadwasm.Gateway.{
  is_slash, percent, percent_utf8, is_unreserved, is_lead, is_trail, prepend, encode_uri_component,
  build_enter_url,
}

-- The characters that end a segment of a path or a parameter of a query.
abbrev pub is_separator : ℕ → Bool
is_separator c = c == b'/' || c == b'?' || c == b'#' || c == b'&'

abbrev pub IsSegment : Text → Type 0
IsSegment t = All (λ c. is_separator c ≡ false) t

append-IsSegment : (s t : Text) → IsSegment s → IsSegment t → IsSegment (s ++ t)
append-IsSegment [] t h k = k
append-IsSegment (c ∷ s) t (e, h) k = (e, append-IsSegment s t h k)

percent-IsSegment : (b : ℕ) → IsSegment (percent b)
percent-IsSegment b = (refl, (ground arith, (ground arith, tt)))

if-IsSegment : (b : Bool) (s t : Text) → IsSegment s → IsSegment t → IsSegment (if b then s else t)
if-IsSegment true s t h k = h
if-IsSegment false s t h k = k

two-IsSegment : (a b : ℕ) → IsSegment (percent a ++ percent b)
two-IsSegment a b =
    append-IsSegment (percent a) (percent b) (percent-IsSegment a) (percent-IsSegment b)

three-IsSegment : (a b c : ℕ) → IsSegment (percent a ++ percent b ++ percent c)
three-IsSegment a b c =
    append-IsSegment (percent a) (percent b ++ percent c) (percent-IsSegment a) (two-IsSegment b c)

four-IsSegment : (a b c d : ℕ) → IsSegment (percent a ++ percent b ++ percent c ++ percent d)
four-IsSegment a b c d =
    append-IsSegment (percent a) (percent b ++ percent c ++ percent d) (percent-IsSegment a)
      (three-IsSegment b c d)

percent_utf8-IsSegment : (c : ℕ) → IsSegment (percent_utf8 c)
unfolding percent_utf8
percent_utf8-IsSegment c = if-IsSegment (ltb c 0x80) _ _ (percent-IsSegment c) (
    if-IsSegment (ltb c 0x800) _ _ (two-IsSegment (0xc0 + c / 64) (0x80 + c % 64)) (
      if-IsSegment (ltb c 0x10000) _ _
        (three-IsSegment (0xe0 + c / 4096) (0x80 + c / 64 % 64) (0x80 + c % 64))
        (four-IsSegment (0xf0 + c / 262144) (0x80 + c / 4096 % 64) (0x80 + c / 64 % 64)
          (0x80 + c % 64))))

prepend-IsSegment :
    (s t : Text) (r : Result Text)
    → IsSegment s
    → ((u : Text) → r ≡ ok u → IsSegment u)
    → prepend s r ≡ ok t
    → IsSegment t
prepend-IsSegment s t (ok u) h k e =
    let joined : t ≡ s ++ u = ground arith in rw joined (append-IsSegment s u h (k u refl))
prepend-IsSegment s t (err x) h k e = cc

unreserved_apart : (c : ℕ) → is_unreserved c ≡ true → is_separator c ≡ false
unreserved_apart c h = ground arith

-- A result of one of two branches.
either-IsSegment :
    (b : Bool) (r q : Result Text) (t : Text)
    → (b ≡ true → r ≡ ok t → IsSegment t)
    → (q ≡ ok t → IsSegment t)
    → (if b then r else q) ≡ ok t
    → IsSegment t
either-IsSegment true r q t h k e = h refl e
either-IsSegment false r q t h k e = k e

ok-IsSegment : (s t : Text) → IsSegment s → ok s ≡ ok t → IsSegment t
ok-IsSegment s t h e = let same : t ≡ s = ground arith in rw same h

pub encode-IsSegment : (s t : Text) → encode_uri_component s ≡ ok t → IsSegment t
unfolding encode_uri_component
encode-IsSegment [] t e = ok-IsSegment [] t tt e
encode-IsSegment (c ∷ []) t e =
    either-IsSegment (is_unreserved c) _ _ t
      (λ plain. ok-IsSegment (c ∷ []) t (unreserved_apart c plain, tt))
      (either-IsSegment (is_lead c || is_trail c) _ _ t (λ lone bad. cc)
        (ok-IsSegment (percent_utf8 c) t (percent_utf8-IsSegment c)))
      e
encode-IsSegment (c ∷ d ∷ s) t e =
    let point = (c - 0xd800) * 0x400 + (d - 0xdc00) + 0x10000 in
    either-IsSegment (is_unreserved c) _ _ t
      (λ plain.
        prepend-IsSegment (c ∷ []) t (encode_uri_component (d ∷ s)) (unreserved_apart c plain, tt)
          (encode-IsSegment (d ∷ s)))
      (either-IsSegment (is_trail c) _ _ t (λ lone bad. cc)
        (either-IsSegment (is_lead c) _ _ t
          (λ lead.
            either-IsSegment (is_trail d) _ _ t
              (λ pair.
                prepend-IsSegment (percent_utf8 point) t (encode_uri_component s)
                  (percent_utf8-IsSegment point) (encode-IsSegment s))
              (λ bad. cc))
          (prepend-IsSegment (percent_utf8 c) t (encode_uri_component (d ∷ s))
            (percent_utf8-IsSegment c) (encode-IsSegment (d ∷ s)))))
      e

-- The URL at which a player enters has the encoded id of the arena as its parameter game, and the
-- encoded token as its parameter ticket, and no character of either encoding ends its parameter.
pub enter_url-parameters :
    (gateway_url game_id token url : Text)
    → is_empty gateway_url ≡ false
    → build_enter_url gateway_url game_id token ≡ ok url
    → (game : Text) × (ticket : Text) × (encode_uri_component game_id ≡ ok game)
      × (encode_uri_component token ≡ ok ticket)
      × IsSegment game
      × IsSegment ticket
      × (url
          ≡ drop_end is_slash gateway_url
            ++ codes "/lnbits/enter?game="
            ++ game
            ++ codes "&ticket="
            ++ ticket)
unfolding build_enter_url
enter_url-parameters gateway_url game_id token url given e =
    elim (Result-cases (encode_uri_component game_id)) [
      | inl (x, bad) ↦ absurd (ground arith)
      | inr (game, first) ↦ elim (Result-cases (encode_uri_component token)) [
        | inl (x, bad) ↦ absurd (ground arith)
        | inr (ticket, second) ↦ (
          game,
          ticket,
          first,
          second,
          encode-IsSegment game_id game first,
          encode-IsSegment token ticket second,
          ground arith,
        )
      ]
    ]
