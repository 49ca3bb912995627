-- ===== src/Normalize/Address.antt =====
-- The regular expression of `normalizeLnAddress` in dev/src/index.js, /^[^\s@]+@[^\s@]+\.[^\s@]+$/, read
-- part by part: a text matches a sequence of two if it is in two pieces that match them.
use bananabreadwasm.Prelude.{
  ℕ, ◌≡◌, refl, ap, sym, ◌∙◌, Bool, true, false, not, ◌&&◌, ◌||◌, [], ◌∷◌, all, ◌==◌, arith,
  Bool-cases, inl, inr, All, ◌++◌, ◌⊎◌,
}
use bananabreadwasm.Text.{Text, is_empty, before, after, is_space}
use bananabreadwasm.Result.{ok, err, invalid_ln_address}
use bananabreadwasm.Js.{Engine, Value}
use bananabreadwasm.Normalize.{
  is_address_char, has_dot, is_domain, matches_address, required_text, normalize_ln_address,
}

-- Does some way to cut a text in two pass a test?
abbrev any_cut : (Text → Text → Bool) → Text → Bool
any_cut f [] = f [] []
any_cut f (c ∷ s) = f [] (c ∷ s) || any_cut (λ a b. f (c ∷ a) b) s

-- `[^\s@]+`
abbrev is_word : Text → Bool
is_word s = not (is_empty s) && all is_address_char s

-- `\.[^\s@]+`
abbrev is_dotted : Text → Bool
is_dotted [] = false
is_dotted (c ∷ s) = c == b'.' && is_word s

-- `[^\s@]+\.[^\s@]+`
abbrev is_host : Text → Bool
is_host s = any_cut (λ a b. is_word a && is_dotted b) s

-- `@[^\s@]+\.[^\s@]+`
abbrev is_at_host : Text → Bool
is_at_host [] = false
is_at_host (c ∷ s) = c == b'@' && is_host s

-- `[^\s@]+@[^\s@]+\.[^\s@]+`
abbrev pub is_address : Text → Bool
is_address s = any_cut (λ a b. is_word a && is_at_host b) s

any_cut_cong :
    (f g : Text → Text → Bool) (s : Text)
    → ((a b : Text) → f a b ≡ g a b)
    → any_cut f s ≡ any_cut g s
any_cut_cong f g [] e = e [] []
any_cut_cong f g (c ∷ s) e = ground (
  arith,
  e [] (c ∷ s),
  any_cut_cong (λ a b. f (c ∷ a) b) (λ a b. g (c ∷ a) b) s (λ a b. e (c ∷ a) b),
)

any_cut_under :
    (t : Bool) (f : Text → Text → Bool) (s : Text)
    → any_cut (λ a b. t && f a b) s ≡ (t && any_cut f s)
any_cut_under t f [] = refl
any_cut_under t f (c ∷ s) = ground (arith, any_cut_under t (λ a b. f (c ∷ a) b) s)

-- Cuts after a first character, which is to pass a test.
any_cut_first :
    (c : ℕ) (g : Text → Bool) (s : Text)
    → any_cut (λ a b. all is_address_char (c ∷ a) && g b) s
      ≡ (is_address_char c && any_cut (λ a b. all is_address_char a && g b) s)
any_cut_first c g s =
    any_cut_cong (λ a b. all is_address_char (c ∷ a) && g b)
      (λ a b. is_address_char c && (all is_address_char a && g b)) s (λ a b. ground arith)
    ∙ any_cut_under (is_address_char c) (λ a b. all is_address_char a && g b) s

dot_char : (c : ℕ) → (c == b'.') ≡ true → is_address_char c ≡ true
unfolding is_address_char is_space
dot_char c e = ground arith

at_char : (c : ℕ) → (c == b'@') ≡ true → is_address_char c ≡ false
unfolding is_address_char
at_char c e = ground arith

and_assoc : (a b c : Bool) → (a && (b && c)) ≡ (a && b && c)
and_assoc true b c = refl
and_assoc false b c = refl

and_absorb : (a b : Bool) → (true && a || true && (a && b)) ≡ ((true && a) && (true || b))
and_absorb true b = refl
and_absorb false b = refl

-- A first character, with what is known of the rest.
dot_first :
    (c : ℕ) (s : Text)
    → (is_dotted (c ∷ s) || (is_address_char c && (all is_address_char s && has_dot s)))
      ≡ (all is_address_char (c ∷ s) && has_dot (c ∷ s))
unfolding has_dot
dot_first c [] = ground (arith, dot_char c)
dot_first c (d ∷ s) = elim (Bool-cases (c == b'.')) [
  | inl dot ↦ rw (dot, dot_char c dot) (and_absorb (all is_address_char (d ∷ s)) (has_dot (d ∷ s)))
  | inr other ↦
      rw other (and_assoc (is_address_char c) (all is_address_char (d ∷ s)) (has_dot (d ∷ s)))
]

dot_cuts :
    (s : Text)
    → any_cut (λ a b. all is_address_char a && is_dotted b) s ≡ (all is_address_char s && has_dot s)
unfolding has_dot
dot_cuts [] = refl
dot_cuts (c ∷ s) =
    ap (λ x. is_dotted (c ∷ s) || x)
      (any_cut_first c is_dotted s ∙ ap (λ x. is_address_char c && x) (dot_cuts s))
    ∙ dot_first c s

is_domain-is_host : (s : Text) → is_domain s ≡ is_host s
unfolding is_domain
is_domain-is_host [] = refl
is_domain-is_host (c ∷ s) = sym (
    any_cut_first c is_dotted s
    ∙ ap (λ x. is_address_char c && x) (dot_cuts s)
    ∙ and_assoc (is_address_char c) (all is_address_char s) (has_dot s))

at_first :
    (c : ℕ) (s : Text)
    → (is_at_host (c ∷ s)
        || (is_address_char c && (all is_address_char (before b'@' s) && is_domain (after b'@' s))))
      ≡ (all is_address_char (before b'@' (c ∷ s)) && is_domain (after b'@' (c ∷ s)))
unfolding before after
at_first c s = elim (Bool-cases (c == b'@')) [
  | inl at_sign ↦ rw (at_sign, at_char c at_sign) (ground (arith, is_domain-is_host s))
  | inr other ↦ rw other (ground arith)
]

at_cuts :
    (s : Text)
    → any_cut (λ a b. all is_address_char a && is_at_host b) s
      ≡ (all is_address_char (before b'@' s) && is_domain (after b'@' s))
unfolding before after is_domain
at_cuts [] = refl
at_cuts (c ∷ s) =
    ap (λ x. is_at_host (c ∷ s) || x)
      (any_cut_first c is_at_host s ∙ ap (λ x. is_address_char c && x) (at_cuts s))
    ∙ at_first c s

address_first :
    (c : ℕ) (s : Text)
    → matches_address (c ∷ s)
      ≡ (is_address_char c && (all is_address_char (before b'@' s) && is_domain (after b'@' s)))
unfolding matches_address before after
address_first c s = elim (Bool-cases (c == b'@')) [
  | inl at_sign ↦
      let none : matches_address (c ∷ s) ≡ false = ground (arith, at_sign) in
      let rest = all is_address_char (before b'@' s) && is_domain (after b'@' s) in
      none ∙ sym (ap (λ x. x && rest) (at_char c at_sign))
  | inr other ↦ rw other (ground arith)
]

matches_address-is_address : (s : Text) → matches_address s ≡ is_address s
unfolding matches_address
matches_address-is_address [] = refl
matches_address-is_address (c ∷ s) =
    address_first c s
    ∙ sym (any_cut_first c is_at_host s ∙ ap (λ x. is_address_char c && x) (at_cuts s))

-- A text that is not empty, without white space and at signs.
abbrev pub IsWord : Text → Type 0
IsWord s = (is_empty s ≡ false) × All (λ c. (is_space c ≡ false) × ((c == b'@') ≡ false)) s

-- A word, an at sign, and two words with a dot between them.
abbrev pub IsAddress : Text → Type 0
IsAddress t =
    (user host top : Text) × (t ≡ user ++ (b'@' ∷ (host ++ (b'.' ∷ top))))
    × IsWord user
    × IsWord host
    × IsWord top

any_cut-true :
    (f : Text → Text → Bool) (s : Text)
    → any_cut f s ≡ true
    → (a b : Text) × (s ≡ a ++ b) × (f a b ≡ true)
any_cut-true f [] e = ([], [], refl, e)
any_cut-true f (c ∷ s) e = elim (Bool-cases (f [] (c ∷ s))) [
  | inl here ↦ ([], c ∷ s, refl, here)
  | inr later ↦
      let (a, b, split, passes) = any_cut-true (λ a b. f (c ∷ a) b) s (ground (arith, later, e)) in
      (c ∷ a, b, ap (λ t. c ∷ t) split, passes)
]

any_cut-append : (f : Text → Text → Bool) (a b : Text) → f a b ≡ true → any_cut f (a ++ b) ≡ true
any_cut-append f [] [] e = e
any_cut-append f [] (c ∷ b) e = ground (arith, e)
any_cut-append f (c ∷ a) b e = ground (arith, any_cut-append (λ x y. f (c ∷ x) y) a b e)

both_true : (a b : Bool) → (a && b) ≡ true → (a ≡ true) × (b ≡ true)
both_true a b e = ground arith

true_both : (a b : Bool) → a ≡ true → b ≡ true → (a && b) ≡ true
true_both a b d e = ground arith

both_not : (a b : Bool) → (not a && not b) ≡ true → (a ≡ false) × (b ≡ false)
both_not a b e = ground arith

not_both : (a b : Bool) → a ≡ false → b ≡ false → (not a && not b) ≡ true
not_both a b d e = ground arith

all-words :
    (s : Text)
    → all is_address_char s ≡ true
    → All (λ c. (is_space c ≡ false) × ((c == b'@') ≡ false)) s
unfolding is_address_char
all-words [] e = tt
all-words (c ∷ s) e =
    let (first, rest) = both_true (is_address_char c) (all is_address_char s) e in
    (both_not (is_space c) (c == b'@') first, all-words s rest)

words-all :
    (s : Text)
    → All (λ c. (is_space c ≡ false) × ((c == b'@') ≡ false)) s
    → all is_address_char s ≡ true
unfolding is_address_char
words-all [] a = refl
words-all (c ∷ s) ((space, at_sign), a) =
    true_both (is_address_char c) (all is_address_char s)
      (not_both (is_space c) (c == b'@') space at_sign) (words-all s a)

is_word-IsWord : (s : Text) → is_word s ≡ true → IsWord s
is_word-IsWord s e = (ground arith, all-words s (ground arith))

IsWord-is_word : (s : Text) → IsWord s → is_word s ≡ true
IsWord-is_word s (full, a) = ground (arith, full, words-all s a)

is_dotted-parts : (b : Text) → is_dotted b ≡ true → (top : Text) × (b ≡ b'.' ∷ top) × IsWord top
is_dotted-parts [] e = cc
is_dotted-parts (c ∷ s) e = (s, ground arith, is_word-IsWord s (ground arith))

is_at_host-parts :
    (b : Text)
    → is_at_host b ≡ true
    → (host top : Text) × (b ≡ b'@' ∷ (host ++ (b'.' ∷ top))) × IsWord host × IsWord top
is_at_host-parts [] e = cc
is_at_host-parts (c ∷ s) e =
    let (at_sign, hosted) = both_true (c == b'@') (is_host s) e in
    let (host, rest, split, both) = any_cut-true (λ a b. is_word a && is_dotted b) s hosted in
    let (word, last) = both_true (is_word host) (is_dotted rest) both in
    let (top, dotted, third) = is_dotted-parts rest last in
    let same : c ≡ b'@' = ground (arith, at_sign) in
    (
      host,
      top,
      rw same (ap (λ r. b'@' ∷ r) (split ∙ ap (λ r. host ++ r) dotted)),
      is_word-IsWord host word,
      third,
    )

is_address-IsAddress : (t : Text) → is_address t ≡ true → IsAddress t
is_address-IsAddress t e =
    let (user, rest, split, both) = any_cut-true (λ a b. is_word a && is_at_host b) t e in
    let (host, top, cut, first, last) = is_at_host-parts rest (ground (arith, both)) in
    (
      user,
      host,
      top,
      split ∙ ap (λ r. user ++ r) cut,
      is_word-IsWord user (ground (arith, both)),
      first,
      last,
    )

IsAddress-is_address : (t : Text) → IsAddress t → is_address t ≡ true
IsAddress-is_address t (user, host, top, split, first, second, third) =
    let dotted : is_dotted (b'.' ∷ top) ≡ true = IsWord-is_word top third in
    let hosted : is_host (host ++ b'.' ∷ top) ≡ true =
      any_cut-append (λ a b. is_word a && is_dotted b) host (b'.' ∷ top)
        (ground (arith, dotted, IsWord-is_word host second)) in
    rw split (
      any_cut-append (λ a b. is_word a && is_at_host b) user (b'@' ∷ (host ++ (b'.' ∷ top)))
        (ground (arith, hosted, IsWord-is_word user first)))

-- A text that is given as a Lightning address is accepted in lower case if that is an address, a word,
-- an at sign, and two words with a dot between them, where a word has no white space and no at sign,
-- and it is refused with the error for addresses if it is not.
pub normalize_ln_address-decides :
    (engine : Engine) (value : Value) (given : Text)
    → required_text engine value "lnAddress" 320 ≡ ok given
    → ((normalize_ln_address engine value ≡ ok (engine.to_lower given))
        × IsAddress (engine.to_lower given))
      ⊎ ((normalize_ln_address engine value ≡ err invalid_ln_address)
          × (IsAddress (engine.to_lower given) → ⊥))
unfolding normalize_ln_address
normalize_ln_address-decides engine value given e =
    let text = engine.to_lower given in
    elim (Bool-cases (matches_address text)) [
      | inl good ↦ inl (
        ground (arith, e, good),
        is_address-IsAddress text (sym (matches_address-is_address text) ∙ good),
      )
      | inr bad ↦ inr (
        ground (arith, e, bad),
        λ address. absurd (
            ground
              (arith, bad, matches_address-is_address text, IsAddress-is_address text address)),
      )
    ]
