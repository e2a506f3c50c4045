-- ===== src/Reports/Once.antt =====
-- Each cause and each step is listed once, and markup cannot come in by a text:
-- reports/report_generator.py.
use pc_diagnostic_agent.Prelude.{
  ℕ, ◌≤◌, ◌≡◌, refl, ◌∙◌, String, Bool, false, ◌||◌, List, [], ◌∷◌, ◌++◌, any, any-append,
  count_where, ◌==◌, if◌then◌else◌, arith,
}
use pc_diagnostic_agent.Reports.{escape_code, escape}
use text.Mathlib.Text.{◌==◌ as str_eq}

abbrev pub is_text : String → String → Bool
is_text s k = str_eq k s

-- How often a text is in a list.
abbrev pub occurrences : String → List String → ℕ
occurrences s texts = count_where (is_text s) texts

abbrev with_key : List String → String → List String
with_key keys t = if any (is_text t) keys then keys else keys ++ (t ∷ [])

-- What one step of the loop keeps of a text: it is there once at most, and it is there if it was, or if
-- it is the new one.
abbrev Kept : String → String → List String → Type 0
Kept s t keys =
    (occurrences s (with_key keys t) ≤ 1)
    × (any (is_text s) (with_key keys t) ≡ (any (is_text s) keys || is_text s t))

abbrev pub is_markup : ℕ → Bool
is_markup c = c == b'<' || (c == b'>' || (c == b'"' || c == 39))

escape_code_plain : (c : ℕ) → any is_markup (escape_code c) ≡ false
escape_code_plain c = ground arith

-- No text brings markup into the report: what is escaped holds no angle bracket and no quote.
pub escape_plain : (text : List ℕ) → any is_markup (escape text) ≡ false
unfolding escape
escape_plain [] = refl
escape_plain (c ∷ text) =
    any-append is_markup (escape_code c) (escape text)
    ∙ rw (escape_code_plain c, escape_plain text) refl
