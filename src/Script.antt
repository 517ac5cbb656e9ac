-- ===== src/Script.antt =====
-- internal/sqlscript/sqlscript.go, and the profile of internal/driver/lexer.go: the lexer's skips,
-- and the classification of a statement. An index into the text is the suffix that begins there.
pub mod Query
pub mod Skips
pub mod Total
pub mod Frame
pub mod Scan
pub mod Restore
mod Tests
use tablex.Common.{
  [], ℕ, zero, suc, ◌+◌, ◌-◌, Bool, true, false, not, ◌&&◌, ◌||◌, ◌∷◌, Option, none, some,
  if◌then◌else◌, ltb, ◌==◌, Str, bytes, str_eq, ite,
}
use tablex.Text.{Tables, within, cut_prefix, decode_rune, last_rune, upto}

pub record ReturningCaps : Type 0 where
  pub insert : Bool
  pub update : Bool
  pub delete : Bool
  pub replace : Bool
  pub merge : Bool

-- LexerProfile. The regular expression is its MatchString.
pub record LexerProfile : Type 0 where
  pub backslash_strings : Bool
  pub escape_string_e : Bool
  pub dollar_quotes : Bool
  pub hash_comments : Bool
  pub dash_comment_needs_space : Bool
  pub nested_block_comments : Bool
  pub delimiter_directives : Bool
  pub dollar_in_words : Bool
  pub bracket_identifiers : Bool
  pub batch_separator : Str
  pub routine_body : Option (Str → Bool)
  pub returning : ReturningCaps

pub allows : ReturningCaps → Str → Bool
unfolding str_eq
allows rc keyword = ite (str_eq keyword (bytes "INSERT")) rc.insert (
    ite (str_eq keyword (bytes "UPDATE")) rc.update (
      ite (str_eq keyword (bytes "DELETE")) rc.delete (
        ite (str_eq keyword (bytes "REPLACE")) rc.replace
          (ite (str_eq keyword (bytes "MERGE")) rc.merge false))))

abbrev pub default_lexer_profile : LexerProfile
default_lexer_profile = record {
  backslash_strings = false;
  escape_string_e = true;
  dollar_quotes = true;
  hash_comments = false;
  dash_comment_needs_space = false;
  nested_block_comments = true;
  delimiter_directives = false;
  dollar_in_words = false;
  bracket_identifiers = false;
  batch_separator = [];
  routine_body = none;
  returning = record { insert = true; update = true; delete = true; replace = true; merge = true };
}

-- `unicode.IsLetter` and `unicode.IsDigit`.
abbrev pub is_letter : Tables → ℕ → Bool
is_letter t c = if ltb c 0x80 then within b'a' b'z' c || within b'A' b'Z' c else t.letter c

abbrev pub is_digit : Tables → ℕ → Bool
is_digit t c = if ltb c 0x80 then within b'0' b'9' c else t.digit c

abbrev pub is_word_rune : Tables → ℕ → Bool → Bool
is_word_rune t c with_dollar =
    c == b'_' || (with_dollar && c == b'$') || is_letter t c || is_digit t c

-- dashIsComment behind the two dashes.
pub dash_is_comment : LexerProfile → Str → Bool
dash_is_comment p [] = true
dash_is_comment p (c ∷ s) =
    not p.dash_comment_needs_space || c == b' ' || c == 9 || c == 10 || c == 13

-- isEscStringQuote, of the text in front of the quote, last byte first.
abbrev no_word_rune : Tables → Option ℕ → Bool
no_word_rune t none = true
no_word_rune t (some r) = not (is_word_rune t r false)

pub is_esc_string_quote : Tables → Str → Bool
unfolding last_rune
is_esc_string_quote t [] = false
is_esc_string_quote t (e ∷ before) = (e == b'E' || e == b'e') && no_word_rune t (last_rune before)

-- skipStringLiteral behind the opening quote: the text behind the closing one.
pub skip_string_literal : ℕ → Bool → Str → Str
skip_string_literal quote backslash [] = []
skip_string_literal quote backslash (c ∷ []) = []
skip_string_literal quote backslash (c ∷ d ∷ s) = elim (backslash && c == b'\\') [
  | true ↦ skip_string_literal quote backslash s
  | false ↦ elim (c == quote) [
    | true ↦ elim (d == quote) [ true ↦ skip_string_literal quote backslash s | false ↦ d ∷ s ]
    | false ↦ skip_string_literal quote backslash (d ∷ s)
  ]
]

-- skipBlockComment behind the opening "/*", inside `suc depth` comments.
pub skip_block_comment : Bool → ℕ → Str → Str
skip_block_comment nested depth [] = []
skip_block_comment nested depth (c ∷ []) = []
skip_block_comment nested depth (c ∷ d ∷ s) = elim (nested && c == b'/' && d == b'*') [
  | true ↦ skip_block_comment nested (suc depth) s
  | false ↦ elim (c == b'*' && d == b'/') [
    | true ↦ elim depth [ zero ↦ s | suc outer ↦ skip_block_comment nested outer s ]
    | false ↦ skip_block_comment nested depth (d ∷ s)
  ]
]

-- skipBracketIdent behind the '[': none for an unterminated identifier.
pub skip_bracket_ident : Str → Option Str
skip_bracket_ident [] = none
skip_bracket_ident (c ∷ []) = if c == b']' then some [] else none
skip_bracket_ident (c ∷ d ∷ s) = elim (c == b']') [
  | true ↦ elim (d == b']') [ true ↦ skip_bracket_ident s | false ↦ some (d ∷ s) ]
  | false ↦ skip_bracket_ident (d ∷ s)
]

-- dollarTag behind the first '$': the text behind the tag's closing one. `skip` counts the bytes
-- left of the rune that was read; `first` is where no digit may stand.
pub dollar_tag : Tables → ℕ → Bool → Str → Option Str
unfolding decode_rune
dollar_tag t skip first [] = none
dollar_tag t (suc skip) first (c ∷ s) = dollar_tag t skip first s
dollar_tag t zero first (c ∷ s) = elim ((decode_rune (c ∷ s)).0 == b'$') [
  | true ↦ some s
  | false ↦
      elim ((decode_rune (c ∷ s)).0 == b'_'
        || is_letter t (decode_rune (c ∷ s)).0
        || (not first && is_digit t (decode_rune (c ∷ s)).0)) [
          | true ↦ dollar_tag t ((decode_rune (c ∷ s)).1 - 1) false s
          | false ↦ none
        ]
]

-- The text behind the first occurrence of the tag; nothing is behind a missing one.
pub behind_tag : Str → Str → Str
unfolding cut_prefix
behind_tag tag [] = []
behind_tag tag (c ∷ s) = elim (cut_prefix tag (c ∷ s)) [
  | some rest ↦ rest
  | none ↦ behind_tag tag s
]

-- skipDollarQuoted at a '$' in front of s.
pub skip_dollar_quoted : Tables → Str → Option Str
unfolding dollar_tag behind_tag upto
skip_dollar_quoted t s = elim (dollar_tag t 0 true s) [
  | none ↦ none
  | some rest ↦ some (behind_tag (b'$' ∷ upto s rest) rest)
]

-- The text from the newline on.
pub to_newline : Str → Str
to_newline [] = []
to_newline (c ∷ s) = elim (c == 10) [ true ↦ c ∷ s | false ↦ to_newline s ]

-- The text behind the newline; nothing is behind a missing one.
pub behind_newline : Str → Str
behind_newline [] = []
behind_newline (c ∷ s) = elim (c == 10) [ true ↦ s | false ↦ behind_newline s ]

-- hasWordAt: the word is upper-case ASCII.
has_word : Tables → Str → Str → Bool
unfolding decode_rune
has_word t [] [] = true
has_word t [] (c ∷ s) = not (is_word_rune t (decode_rune (c ∷ s)).0 true)
has_word t (w ∷ word) [] = false
has_word t (w ∷ word) (c ∷ s) = (c == w || c == w + 32) && has_word t word s

-- scriptLine: a line without its carriage return, and the text from its newline on.
pub drop_cr : Str → Str
drop_cr [] = []
drop_cr (c ∷ []) = if c == 13 then [] else c ∷ []
drop_cr (c ∷ d ∷ s) = c ∷ drop_cr (d ∷ s)

pub script_line : Str → Str × Str
unfolding drop_cr to_newline upto
script_line s = (drop_cr (upto s (to_newline s)), to_newline s)
