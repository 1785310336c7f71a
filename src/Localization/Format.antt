-- ===== src/Localization/Format.antt =====
-- Python's `str.format` with keyword arguments, as app/localization/translations.py calls it. A field is a
-- plain name: attributes, indices, conversions and format specifications stand in no text of the
-- tables. An argument is the text that it prints as.
use financial_notification_p.Prelude.{
  ℕ, String, Bool, true, ◌&&◌, List, [], ◌∷◌, ◌++◌, Option, none, some, leb, ◌==◌, if◌then◌else◌,
}
use financial_notification_p.Core.Exceptions.{
  Result, ok, err, ◌>>=◌, key_error, value_error, index_error,
}
use financial_notification_p.Models.Preference.{Text, codes, text_eq}

abbrev pub open_brace : ℕ
open_brace = b'{'

abbrev pub close_brace : ℕ
close_brace = b'}'

pub data Piece : Type 0 where
  literal : ℕ → Piece
  field : Text → Piece
  malformed : Piece

-- Where the reading of a text stands: outside a field, after an opening or a closing brace, or in the
-- name of a field.
pub data Mode : Type 0 where
  outside opened closed : Mode
  inside : Text → Mode

-- The mode after one more character; `none` where a brace stands alone.
unfoldable pub next_mode : Mode → ℕ → Option Mode
next_mode outside c =
    if c == open_brace then some opened else if c == close_brace then some closed else some outside
next_mode opened c =
    if c == open_brace
    then some outside
    else if c == close_brace
    then some outside
    else some (inside (c ∷ []))
next_mode closed c = if c == close_brace then some outside else none
next_mode (inside name) c =
    if c == close_brace
    then some outside
    else if c == open_brace
    then none
    else some (inside (name ++ c ∷ []))

-- What that character completes.
unfoldable pub completes : Mode → ℕ → List Piece
completes outside c =
    if c == open_brace then [] else if c == close_brace then [] else literal c ∷ []
completes opened c =
    if c == open_brace
    then literal open_brace ∷ []
    else if c == close_brace
    then field [] ∷ []
    else []
completes closed c = literal close_brace ∷ []
completes (inside name) c = if c == close_brace then field name ∷ [] else []

unfoldable pub parse : Mode → Text → List Piece
unfolding next_mode completes
parse outside [] = []
parse _ [] = malformed ∷ []
parse m (c ∷ s) = elim (next_mode m c) [
  | none ↦ malformed ∷ []
  | some m' ↦ completes m c ++ parse m' s
]

abbrev is_digit : ℕ → Bool
is_digit c = leb b'0' c && leb c b'9'

-- `{}` and `{0}` ask for positional arguments.
unfoldable pub is_positional : Text → Bool
is_positional [] = true
is_positional (c ∷ s) = is_digit c && is_positional s

pub data Arguments : Type 0 where
  no_more : Arguments
  argument : Text → Text → Arguments → Arguments

unfoldable pub get_argument : Text → Arguments → Option Text
get_argument name no_more = none
get_argument name (argument n v rest) = if text_eq n name then some v else get_argument name rest

unfoldable pub fill_field : Text → Arguments → Result Text
unfolding is_positional get_argument
fill_field name kwargs =
    if is_positional name
    then err index_error
    else elim (get_argument name kwargs) [ none ↦ err key_error | some v ↦ ok v ]

unfoldable pub fill : List Piece → Arguments → Result Text
unfolding fill_field
fill [] kwargs = ok []
fill (literal c ∷ ps) kwargs = fill ps kwargs >>= λ t. ok (c ∷ t)
fill (field name ∷ ps) kwargs = fill_field name kwargs >>= λ v. fill ps kwargs >>= λ t. ok (v ++ t)
fill (malformed ∷ ps) kwargs = err value_error

unfoldable pub format : String → Arguments → Result Text
unfolding parse fill
format template kwargs = fill (parse outside (codes template)) kwargs
