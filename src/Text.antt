-- ===== src/Text.antt =====
-- Python's text methods, which the interpreter implements: those that the code uses, as a
-- parameter. Joining, comparing and searching texts are the native operations.
use Prim.Native.Char.{Char, code}
use text.Mathlib.Text.{find?}
use autonomous_vehicle_llm.Base.{
  ℕ, String, ◌≡◌, Bool, true, false, ◌&&◌, ◌||◌, not, List, [], ◌∷◌, leb, ◌==◌, nat_eq, string_eq,
  is_some, All, ◌≢◌,
}

pub record TextOps : Type 0 where
  -- `s.strip()`
  pub strip : String → String
  -- `s.lower()`
  pub lower : String → String
  -- `c.isalnum()`, and the characters of `c.lower()`
  pub is_alnum : Char → Bool
  pub lower_char : Char → List Char
  -- `str(n)` of a whole number that is not negative
  pub str_of_nat : ℕ → String

-- The characters of a text, and back.
abbrev pub chars : String → List Char
chars String.[] = []
chars (String.◌∷◌ c s) = c ∷ chars s

abbrev pub of_chars : List Char → String
of_chars [] = ""
of_chars (c ∷ cs) = String.◌∷◌ c (of_chars cs)

-- `part in s`
abbrev pub has_part : String → String → Bool
has_part s part = is_some (find? s part)

-- `if s` of a text
abbrev pub is_nonempty : String → Bool
is_nonempty s = not (s == "")

-- A text of lower-case letters, underscores and inner spaces.
abbrev is_plain_char : Char → Bool
is_plain_char c = (leb b'a' (code c) && leb (code c) b'z') || code c == b'_' || code c == b' '

abbrev all_plain : List Char → Bool
all_plain [] = true
all_plain (c ∷ cs) = is_plain_char c && all_plain cs

abbrev ends_plain : List Char → Bool
ends_plain [] = true
ends_plain (c ∷ []) = not (code c == b' ')
ends_plain (c ∷ d ∷ cs) = ends_plain (d ∷ cs)

abbrev pub starts_plain : List Char → Bool
starts_plain [] = true
starts_plain (c ∷ cs) = not (code c == b' ')

abbrev pub is_plain : String → Bool
is_plain s = all_plain (chars s) && starts_plain (chars s) && ends_plain (chars s)

-- What the theorems use of the methods.
pub record IsText (t : TextOps) : Type 0 where
  -- Such a text has nothing to strip and nothing to lower.
  pub plain : (s : String) → is_plain s ≡ true → t.lower (t.strip s) ≡ s
  -- A letter or digit lowers to characters, none of which is an underscore.
  pub lower_alnum :
      (c : Char)
      → t.is_alnum c ≡ true
      → All (λ d. (code d == b'_') ≡ false) (t.lower_char c) × (t.lower_char c ≢ [])
