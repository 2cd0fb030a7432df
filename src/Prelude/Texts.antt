-- ===== src/Prelude/Texts.antt =====
-- Texts: equality of whole texts, and the methods of Python's `str` that the program calls, over ASCII.
use Prim.Native.Nat.{ℕ, zero, suc}
use Prim.Native.Char.{Char, code}
use Prim.Native.String.{String}
use mathlib.Core.Bool.{Bool, true, false, ◌&&◌, ◌||◌}
use mathlib.Core.List.{List, [], ◌∷◌}
use mathlib.Core.Option.{Option, none, some}
use text.Mathlib.Text.{◌==◌ as text_eq}
use diddi_pay_backend.Prelude.Tests.{leb, ◌==◌, if◌then◌else◌}

abbrev pub str_eq : String → String → Bool
str_eq s t = text_eq s t

-- `x in names`
abbrev pub mem_text : String → List String → Bool
mem_text s [] = false
mem_text s (t ∷ ts) = str_eq s t || mem_text s ts

-- The truth of a text: only the empty text is false.
abbrev pub is_empty : String → Bool
is_empty String.[] = true
is_empty (String.◌∷◌ c s) = false

abbrev pub option_text_eq : Option String → Option String → Bool
option_text_eq none none = true
option_text_eq (some s) (some t) = str_eq s t
option_text_eq _ _ = false

-- The number of characters, `len(s)`.
unfoldable pub count_chars : String → ℕ
count_chars String.[] = 0
count_chars (String.◌∷◌ c s) = suc (count_chars s)

-- `s[:n]`
unfoldable pub take_text : ℕ → String → String
take_text zero s = String.[]
take_text (suc n) String.[] = String.[]
take_text (suc n) (String.◌∷◌ c s) = String.◌∷◌ c (take_text n s)

-- The character that stands in the second text where `c` stands in the first.
abbrev translate_char : Char → String → String → Char
translate_char c (String.◌∷◌ a s) (String.◌∷◌ b t) =
    if code c == code a then b else translate_char c s t
translate_char c _ _ = c

-- `s.upper()`
unfoldable pub upper : String → String
upper String.[] = String.[]
upper (String.◌∷◌ c s) =
    String.◌∷◌ (translate_char c "abcdefghijklmnopqrstuvwxyz" "ABCDEFGHIJKLMNOPQRSTUVWXYZ")
      (upper s)

abbrev is_space : ℕ → Bool
is_space c = (leb 28 c && leb c 32) || (leb 9 c && leb c 13)

-- `s.lstrip()`
abbrev strip_left : String → String
strip_left String.[] = String.[]
strip_left (String.◌∷◌ c s) =
    let rest = strip_left s in if is_space (code c) then rest else String.◌∷◌ c s

abbrev cons_unless_blank : Char → String → String
cons_unless_blank c String.[] = if is_space (code c) then String.[] else String.◌∷◌ c String.[]
cons_unless_blank c s = String.◌∷◌ c s

-- `s.rstrip()`
abbrev strip_right : String → String
strip_right String.[] = String.[]
strip_right (String.◌∷◌ c s) = cons_unless_blank c (strip_right s)

-- `s.strip()`
unfoldable pub strip : String → String
strip s = strip_right (strip_left s)

abbrev is_letter : ℕ → Bool
is_letter c = (leb 65 c && leb c 90) || (leb 97 c && leb c 122)

abbrev all_letters : String → Bool
all_letters String.[] = true
all_letters (String.◌∷◌ c s) = is_letter (code c) && all_letters s

-- `s.isalpha()`: false of the empty text.
unfoldable pub is_alpha : String → Bool
is_alpha String.[] = false
is_alpha (String.◌∷◌ c s) = is_letter (code c) && all_letters s

-- `s + t`, or an f-string of the two
unfoldable pub concat : String → String → String
concat String.[] t = t
concat (String.◌∷◌ c s) t = String.◌∷◌ c (concat s t)

-- `s.startswith(prefix)`
unfoldable pub starts_with : String → String → Bool
starts_with s String.[] = true
starts_with String.[] (String.◌∷◌ b t) = false
starts_with (String.◌∷◌ a s) (String.◌∷◌ b t) = code a == code b && starts_with s t

-- `s[n:]`
unfoldable pub drop_text : ℕ → String → String
drop_text zero s = s
drop_text (suc n) String.[] = String.[]
drop_text (suc n) (String.◌∷◌ c s) = drop_text n s
