-- ===== src/Postgres/Parts.antt =====
-- The parts of the connection string: where the authority of the user ends.
use Prim.Native.Char.{Char, code}
use Prim.Native.String.{[], ◌∷◌, ◌++◌}
use text.Mathlib.TextLemmas.{nil-append, cons-append, append-nil, append_assoc}
use nestjs_stay_api.Common.{
  ℕ, zero, suc, ◌+◌, ◌/◌, ◌%◌, ◌≤◌, ◌≡◌, refl, sym, ap, ◌∙◌, Bool, true, false, List, String, ltb,
  ◌||◌, or_else, if◌then◌else◌, arith, split, split_cases, includes, split-append,
  split_of_not_includes,
}
use nestjs_stay_api.Postgres.{
  PgConfig, is_unreserved, char_at, decimal, hex_digit, percent, percent_utf8, encode_uri_component,
  auth, location, build_connection_string,
}

-- A number needs no more fuel than itself.
decimal_enough : (f g n : ℕ) → n ≤ f → n ≤ g → decimal f n ≡ decimal g n
unfolding decimal
decimal_enough zero zero n h k = refl
decimal_enough zero (suc g) zero h k = refl
decimal_enough zero (suc g) (suc n) h k = absurd (omega arith)
decimal_enough (suc f) zero zero h k = refl
decimal_enough (suc f) zero (suc n) h k = absurd (omega arith)
decimal_enough (suc f) (suc g) n h k =
    let front = decimal_enough f g (n / 10) (omega arith) (omega arith) in
    ap (λ s. if ltb n 10 then hex_digit n else s ++ hex_digit (n % 10)) front

includes-append :
    (sep : ℕ) (s t : String) → includes sep (s ++ t) ≡ includes sep s || includes sep t
unfolding includes
includes-append sep [] t = rw nil-append refl
includes-append sep (c ∷ s) t = rw cons-append (ground (arith, includes-append sep s t))

-- A text that holds neither of the delimiters `:` and `@`.
abbrev Plain : String → Type 0
Plain s = (includes b':' s ≡ false) × (includes b'@' s ≡ false)

append-Plain : (s t : String) → Plain s → Plain t → Plain (s ++ t)
append-Plain s t (a, b) (c, d) =
    (ground (arith, includes-append b':' s t, a, c), ground (arith, includes-append b'@' s t, b, d))

char_at-Plain : (n : ℕ) (s : String) → Plain s → Plain (char_at n s)
unfolding char_at includes
char_at-Plain n [] h = (refl, refl)
char_at-Plain zero (c ∷ s) (a, b) = (ground (arith, a), ground (arith, b))
char_at-Plain (suc n) (c ∷ s) (a, b) = char_at-Plain n s (ground (arith, a), ground (arith, b))

hex_digit-Plain : (n : ℕ) → Plain (hex_digit n)
unfolding hex_digit includes
hex_digit-Plain n = char_at-Plain n "0123456789ABCDEF" (refl, refl)

percent-Plain : (b : ℕ) → Plain (percent b)
unfolding percent includes
percent-Plain b =
    append-Plain "%" (hex_digit (b / 16) ++ hex_digit (b % 16)) (refl, refl)
      (append-Plain (hex_digit (b / 16)) (hex_digit (b % 16)) (hex_digit-Plain (b / 16))
        (hex_digit-Plain (b % 16)))

if-Plain : (b : Bool) (s t : String) → (b ≡ true → Plain s) → Plain t → Plain (if b then s else t)
if-Plain true s t h k = h refl
if-Plain false s t h k = k

percent_utf8-Plain : (n : ℕ) → Plain (percent_utf8 n)
unfolding percent_utf8
percent_utf8-Plain n =
    let two : (a b : ℕ) → Plain (percent a ++ percent b) =
      λ a b. append-Plain (percent a) (percent b) (percent-Plain a) (percent-Plain b) in
    let three : (a b c : ℕ) → Plain (percent a ++ (percent b ++ percent c)) =
      λ a b c. append-Plain (percent a) (percent b ++ percent c) (percent-Plain a) (two b c) in
    let four : (a b c d : ℕ) → Plain (percent a ++ (percent b ++ (percent c ++ percent d))) =
      λ a b c d.
        append-Plain (percent a) (percent b ++ (percent c ++ percent d)) (percent-Plain a)
          (three b c d) in
    if-Plain (ltb n 128) _ _ (λ e. percent-Plain n)
      (if-Plain (ltb n 2048) _ _ (λ e. two (192 + n / 64) (128 + n % 64))
        (if-Plain (ltb n 65536) _ _ (λ e. three (224 + n / 4096) (128 + n / 64 % 64) (128 + n % 64))
          (four (240 + n / 262144) (128 + n / 4096 % 64) (128 + n / 64 % 64) (128 + n % 64))))

-- What is left as it is, is no delimiter.
unreserved-Plain : (c : Char) → is_unreserved (code c) ≡ true → Plain (c ∷ [])
unfolding is_unreserved includes
unreserved-Plain c h = (ground (arith, h), ground (arith, h))

encode_uri_component-Plain : (s : String) → Plain (encode_uri_component s)
unfolding encode_uri_component includes
encode_uri_component-Plain [] = (refl, refl)
encode_uri_component-Plain (c ∷ s) =
    let rest = encode_uri_component-Plain s in
    if-Plain (is_unreserved (code c)) (c ∷ encode_uri_component s)
      (percent_utf8 (code c) ++ encode_uri_component s)
      (λ e.
        let kept = unreserved-Plain c e in
        (ground (arith, kept.0, rest.0), ground (arith, kept.1, rest.1)))
      (append-Plain (percent_utf8 (code c)) (encode_uri_component s) (percent_utf8-Plain (code c))
        rest)

module _ (sep : ℕ) (one : String) (alone : split sep one ≡ List.◌∷◌ "" (List.◌∷◌ "" List.[])) where
  -- A text without the delimiter, before the delimiter, is the first part.
  split_delimited :
      (s t : String)
      → includes sep s ≡ false
      → split sep (s ++ (one ++ t)) ≡ List.◌∷◌ s (split sep t)
  split_delimited s t h =
      let (p, ps, e) = split_cases sep t in
      let after : split sep (one ++ t) ≡ List.◌∷◌ "" (split sep t) =
        split-append sep one t ∙ rw (alone, e, nil-append) refl in
      split-append sep s (one ++ t) ∙ rw (split_of_not_includes sep s h, after, append-nil) refl

auth_once : (config : PgConfig) → includes b'@' ("postgres://" ++ auth config) ≡ false
unfolding auth includes
auth_once config =
    let u = encode_uri_component (or_else config.user "undefined") in
    let p = encode_uri_component (or_else config.password "undefined") in
    ground (
      arith,
      includes-append b'@' "postgres://" (u ++ (":" ++ p)),
      includes-append b'@' u (":" ++ p),
      includes-append b'@' ":" p,
      encode_uri_component-Plain (or_else config.user "undefined"),
      encode_uri_component-Plain (or_else config.password "undefined"),
    )

-- The text before the first `@` of the connection string is the scheme with the encoded user and
-- password, whatever these are; and that text splits at its colons into the scheme, the slashes with
-- the encoded user, and the encoded password.
pub split-build_connection_string :
    (config : PgConfig)
    → let user = encode_uri_component (or_else config.user "undefined") in
      let password = encode_uri_component (or_else config.password "undefined") in
      (split b'@' (build_connection_string config)
        ≡ List.◌∷◌ ("postgres://" ++ auth config) (split b'@' (location config)))
      × (split b':' ("postgres://" ++ auth config)
          ≡ List.◌∷◌ "postgres" (List.◌∷◌ ("//" ++ user) (List.◌∷◌ password List.[])))
unfolding build_connection_string auth split includes
split-build_connection_string config =
    let u = encode_uri_component (or_else config.user "undefined") in
    let p = encode_uri_component (or_else config.password "undefined") in
    let before = "postgres://" ++ auth config in
    let slashes : "postgres://" ++ (u ++ (":" ++ p))
        ≡ "postgres" ++ (":" ++ (("//" ++ u) ++ (":" ++ p))) =
      append_assoc "postgres" "://" (u ++ (":" ++ p))
      ∙ ap (λ s. "postgres" ++ s) (append_assoc ":" "//" (u ++ (":" ++ p)))
      ∙ ap (λ s. "postgres" ++ (":" ++ s)) (sym (append_assoc "//" u (":" ++ p))) in
    let user_kept = encode_uri_component-Plain (or_else config.user "undefined") in
    let password_kept = encode_uri_component-Plain (or_else config.password "undefined") in
    (
      ap (split b'@') (sym (append_assoc "postgres://" (auth config) ("@" ++ location config)))
          ∙ split_delimited b'@' "@" refl before (location config) (auth_once config),
      ap (split b':') slashes
          ∙ split_delimited b':' ":" refl "postgres" (("//" ++ u) ++ (":" ++ p)) refl
          ∙ ap (List.◌∷◌ "postgres") (
              split_delimited b':' ":" refl ("//" ++ u) p
                (ground (arith, includes-append b':' "//" u, user_kept.0))
              ∙ ap (List.◌∷◌ ("//" ++ u)) (split_of_not_includes b':' p password_kept.0)),
    )
