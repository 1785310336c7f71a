-- ===== src/Localization/Translations/Filled.antt =====
-- Every text of a table asks for fields that its English one asks for, so whoever gives those can have
-- any of the languages.
use financial_notification_p.Prelude.{
  ◌≡◌, ◌∙◌, refl, sym, ap, subst, inl, inr, String, Bool, true, false, not, ◌&&◌, List, [], ◌∷◌,
  ◌++◌, some, lookup, get_or, str_eq, eq_iff, arith, All, Bool-cases, Option-cases,
}
use financial_notification_p.Core.Exceptions.{ok}
use financial_notification_p.Models.Preference.{Text, codes, mem, text_eq}
use financial_notification_p.Localization.Table.English.{english}
use financial_notification_p.Localization.Format.{
  Piece, field, literal, malformed, outside, parse, Arguments, get_argument, is_positional, fill,
  fill_field, format,
}
use financial_notification_p.Localization.Translations.{
  Strings, get_all, english_strings, language, choose_template, translate, or_template,
}

-- Whether a text can be filled from arguments with these names.
asks_only : List Text → List Piece → Bool
unfolding is_positional
asks_only names [] = true
asks_only names (literal c ∷ ps) = asks_only names ps
asks_only names (field name ∷ ps) =
    not (is_positional name) && (mem name names && asks_only names ps)
asks_only names (malformed ∷ ps) = false

-- The names of the fields of a text.
unfoldable pub fields : List Piece → List Text
fields [] = []
fields (literal c ∷ ps) = fields ps
fields (field name ∷ ps) = name ∷ fields ps
fields (malformed ∷ ps) = fields ps

abbrev pub HasArguments : Arguments → List Text → Type 0
HasArguments kwargs = All (λ name. (v : Text) × (get_argument name kwargs ≡ some v))

eq_of_text_eq : (s t : Text) → text_eq s t ≡ true → s ≡ t
eq_of_text_eq [] [] h = refl
eq_of_text_eq (c ∷ s) (d ∷ t) h = ground (arith, eq_of_text_eq s t)
eq_of_text_eq [] (d ∷ t) h = cc
eq_of_text_eq (c ∷ s) [] h = cc

mem-HasArguments :
    (name : Text) (names : List Text) (kwargs : Arguments)
    → mem name names ≡ true
    → HasArguments kwargs names
    → (v : Text) × (get_argument name kwargs ≡ some v)
mem-HasArguments name [] kwargs m h = cc
mem-HasArguments name (n ∷ names) kwargs m h = elim (Bool-cases (text_eq n name)) [
  | inl same ↦
      subst (λ k. (v : Text) × (get_argument k kwargs ≡ some v)) (eq_of_text_eq n name same) h.0
  | inr other ↦ mem-HasArguments name names kwargs (rw other at m) h.1
]

and_left : (a b : Bool) → (a && b) ≡ true → a ≡ true
and_left a b h = ground arith

and_right : (a b : Bool) → (a && b) ≡ true → b ≡ true
and_right a b h = ground arith

fill_field-given :
    (name v : Text) (kwargs : Arguments)
    → is_positional name ≡ false
    → get_argument name kwargs ≡ some v
    → fill_field name kwargs ≡ ok v
unfolding fill_field
fill_field-given name v kwargs named given = rw (named, fill_field) (rw (given, fill_field) refl)

fill-asks_only :
    (names : List Text) (ps : List Piece) (kwargs : Arguments)
    → asks_only names ps ≡ true
    → HasArguments kwargs names
    → (out : Text) × (fill ps kwargs ≡ ok out)
unfolding asks_only fill
fill-asks_only names [] kwargs asks h = ([], refl)
fill-asks_only names (literal c ∷ ps) kwargs asks h =
    let (out, done) = fill-asks_only names ps kwargs asks h in (c ∷ out, rw done refl)
fill-asks_only names (field name ∷ ps) kwargs asks h =
    let (v, given) = mem-HasArguments name names kwargs (ground arith) h in
    let (out, done) = fill-asks_only names ps kwargs (ground arith) h in
    (v ++ out, rw (fill_field-given name v kwargs (ground arith) given) (rw done refl))
fill-asks_only names (malformed ∷ ps) kwargs asks h = cc

-- The pieces of a text.
abbrev pub pieces : String → List Piece
pieces text = parse outside (codes text)

asks_like : String → String → Bool
unfolding parse asks_only fields
asks_like english_text text = asks_only (fields (pieces english_text)) (pieces text)

all_like : Strings → Bool
unfolding asks_like
all_like [] = true
all_like ((key, text) ∷ rest) = asks_like (get_or (lookup key english) "") text && all_like rest

all_tables_like : List (String × Strings) → Bool
unfolding all_like
all_tables_like [] = true
all_tables_like ((locale, strings) ∷ rest) = all_like strings && all_tables_like rest

tables_like : all_tables_like get_all ≡ true
unfolding all_tables_like get_all
tables_like = refl

all_like-lookup :
    (strings : Strings) (key text english_text : String)
    → all_like strings ≡ true
    → lookup key strings ≡ some text
    → lookup key english ≡ some english_text
    → asks_like english_text text ≡ true
unfolding all_like
all_like-lookup [] key text english_text like found here = cc
all_like-lookup ((j, t) ∷ rest) key text english_text like found here =
    elim (Bool-cases (str_eq j key)) [
      | inl same ↦
          let at_key : get_or (lookup j english) "" ≡ english_text =
            ap (λ k. get_or (lookup k english) "") ((eq_iff j key).0 same)
            ∙ ap (λ o. get_or o "") here in
          let is_text : t ≡ text = cc (rw same at found) in
          subst (λ (e : String). asks_like e text ≡ true) at_key
            (subst (λ (u : String). asks_like (get_or (lookup j english) "") u ≡ true) is_text
              (and_left _ _ like))
      | inr other ↦
          all_like-lookup rest key text english_text (and_right _ _ like) (rw other at found) here
    ]

all_tables_like-lookup :
    (tables : List (String × Strings)) (locale : String) (strings : Strings)
    → all_tables_like tables ≡ true
    → lookup locale tables ≡ some strings
    → all_like strings ≡ true
unfolding all_tables_like
all_tables_like-lookup [] locale strings like found = cc
all_tables_like-lookup ((l, t) ∷ rest) locale strings like found =
    elim (Bool-cases (str_eq l locale)) [
      | inl same ↦
          let is_table : t ≡ strings = cc (rw same at found) in
          subst (λ (u : Strings). all_like u ≡ true) is_table
            (and_left _ (all_tables_like rest) like)
      | inr other ↦
          all_tables_like-lookup rest locale strings (and_right _ _ like) (rw other at found)
    ]

english_strings_lem : english_strings ≡ english
unfolding english_strings get_all
english_strings_lem = refl

english_found : lookup "en" get_all ≡ some english
unfolding get_all
english_found = refl

-- Whatever the locale, its texts are like the English ones.
language_like : (locale : String) → all_like (language locale) ≡ true
unfolding language
language_like locale = elim (Option-cases (lookup locale get_all)) [
  | inl missing ↦
      rw (missing, language)
        (rw english_strings_lem
          (all_tables_like-lookup get_all "en" english tables_like english_found))
  | inr (strings, found) ↦
      rw (found, language) (all_tables_like-lookup get_all locale strings tables_like found)
]

choose_template_like :
    (key locale english_text : String)
    → lookup key english ≡ some english_text
    → asks_like english_text (choose_template key locale) ≡ true
unfolding choose_template
choose_template_like key locale english_text here =
    elim (Option-cases (lookup key (language locale))) [
      | inl missing ↦
          subst
            (λ o.
              asks_like english_text (get_or o (get_or (lookup key english_strings) key)) ≡ true)
            (sym missing)
            (subst (λ o. asks_like english_text (get_or o key) ≡ true) (sym here)
              (all_like-lookup english key english_text english_text
                (all_tables_like-lookup get_all "en" english tables_like english_found) here here))
      | inr (text, found) ↦
          rw (found, choose_template)
            (all_like-lookup (language locale) key text english_text (language_like locale) found
              here)
    ]

-- Whatever the locale, also one that is not supported: for a key of the English table, and arguments
-- with a value for every field of its English text, `translate` gives the text that it has chosen with
-- all its fields filled, and never the bare template.
pub translate-filled :
    (key locale english_text : String) (kwargs : Arguments)
    → lookup key english ≡ some english_text
    → HasArguments kwargs (fields (pieces english_text))
    → (out : Text) × (format (choose_template key locale) kwargs ≡ ok out)
      × (translate key locale kwargs ≡ ok out)
unfolding translate asks_like format
translate-filled key locale english_text kwargs here given =
    let (out, filled) =
      fill-asks_only (fields (pieces english_text)) (pieces (choose_template key locale)) kwargs
        (choose_template_like key locale english_text here) given in
    (out, filled, ap (or_template (choose_template key locale)) filled)
