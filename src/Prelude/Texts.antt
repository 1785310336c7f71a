-- ===== src/Prelude/Texts.antt =====
-- Texts that are only compared are native strings; a dictionary is an association list.
use Prim.Native.String.{String}
use mathlib.Core.Bool.{Bool, true, false}
use mathlib.Core.List.{List, [], ◌∷◌}
use mathlib.Core.Option.{Option, none, some}
use Prim.Native.Nat.{ℕ}
use Prim.Native.Char.{code}
use financial_notification_p.Prelude.Tests.{if◌then◌else◌, ◌==◌}
pub use text.Mathlib.Text.{◌==◌ as str_eq}
pub use text.Mathlib.TextEquality.{eq_iff}
pub use text.Mathlib.TextPositions.{eq_refl}

abbrev pub lookup {ℓ} : {V : Type ℓ} → String → List (String × V) → Option V
lookup k [] = none
lookup k ((j, v) ∷ m) = if str_eq j k then some v else lookup k m

-- Python's truth value of a text.
abbrev pub truthy : String → Bool
truthy s = if str_eq s "" then false else true

abbrev pub mem_text : String → List String → Bool
mem_text s [] = false
mem_text s (t ∷ ts) = if str_eq t s then true else mem_text s ts

-- `s.split(c)[0]` for a single character: what stands before the first one, or all of the text.
abbrev pub before : ℕ → String → String
before c String.[] = ""
before c (String.◌∷◌ d s) = if code d == c then "" else String.◌∷◌ d (before c s)
