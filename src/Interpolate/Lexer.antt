-- ===== src/Interpolate/Lexer.antt =====
-- The tokenizer: `tokenize`, `lex_string`, `lex_number`. A position in the source is the text that is
-- left there.
pub mod Bounds
use tmx.Base.{
  ℕ, zero, suc, ◌+◌, Bool, true, false, ◌&&◌, ◌||◌, Option, none, some, [], ◌∷◌, ◌++◌, String, Text,
  bytes, length, is_empty, leb, ◌==◌, if◌then◌else◌,
}
use tmx.Error.{Result, ok, err, panic, Message, plain, format, text, num, ok_or, ◌>>=◌}
use tmx.Interpolate.{
  Token, Tokens, lparen, rparen, lbracket, rbracket, dot, bang, eq_eq_eq, bang_eq_eq, amp_amp,
  pipe_pipe, ident, number, str, Numbers, parse_err,
}

abbrev pub is_space : ℕ → Bool
is_space b = b == 32 || b == 9 || b == 13 || b == 10

abbrev pub is_digit : ℕ → Bool
is_digit b = leb b'0' b && leb b b'9'

abbrev is_alphabetic : ℕ → Bool
is_alphabetic b = (leb b'a' b && leb b b'z') || (leb b'A' b && leb b b'Z')

abbrev pub is_ident_start : ℕ → Bool
is_ident_start b = is_alphabetic b || b == b'_'

abbrev pub is_ident_continue : ℕ → Bool
is_ident_continue b = is_alphabetic b || is_digit b || b == b'_'

-- `while i < bytes.len() && test(bytes[i])`: what passes, and the rest.
unfoldable pub take_while : (ℕ → Bool) → Text → Text × Text
take_while test [] = ([], [])
take_while test (b ∷ bs) =
    let (taken, rest) = take_while test bs in if test b then (b ∷ taken, rest) else ([], b ∷ bs)

abbrev quote_byte : ℕ
quote_byte = 39

abbrev pub decode_escape : ℕ → Option ℕ
decode_escape esc =
    if esc == 92
    then some 92
    else if esc == 34
    then some 34
    else if esc == quote_byte
    then some quote_byte
    else if esc == b'/'
    then some b'/'
    else if esc == b'n'
    then some 10
    else if esc == b't'
    then some 9
    else if esc == b'r'
    then some 13
    else none

abbrev pub unsupported_escape : ℕ → Message
unsupported_escape esc = format "unsupported string escape `\\{}`" (num esc ∷ [])

abbrev pub prepend : ℕ → Result (Text × Text) → Result (Text × Text)
prepend b (ok (s, rest)) = ok (b ∷ s, rest)
prepend b (err e) = err e
prepend b panic = panic

-- The loop of `lex_string`, past the opening quote. A whole character is copied at a time there: none
-- of its bytes but the first can be a quote or a backslash, so that its bytes are copied here.
unfoldable pub lex_string : ℕ → Text → Result (Text × Text)
lex_string quote [] = err (parse_err (plain (bytes "unterminated string literal")))
lex_string quote (b ∷ []) =
    if b == quote
    then ok ([], [])
    else if b == 92
    then err (parse_err (plain (bytes "string ends with a dangling backslash")))
    else err (parse_err (plain (bytes "unterminated string literal")))
lex_string quote (b ∷ c ∷ rest) =
    let escaped = lex_string quote rest in
    let copied = lex_string quote (c ∷ rest) in
    if b == quote
    then ok ([], c ∷ rest)
    else if b == 92
    then elim (decode_escape c) [
      | some decoded ↦ prepend decoded escaped
      | none ↦ err (parse_err (unsupported_escape c))
    ]
    else prepend b copied

-- A byte that passes the test, if one is next; and a part that starts with it.
abbrev pub optional : (ℕ → Bool) → Text → Text × Text
optional test [] = ([], [])
optional test (b ∷ bs) = if test b then (b ∷ [], bs) else ([], b ∷ bs)

abbrev pub fraction : Text → Text × Text
fraction [] = ([], [])
fraction (b ∷ bs) =
    let (digits, rest) = take_while is_digit bs in
    if b == b'.' then (b ∷ digits, rest) else ([], b ∷ bs)

abbrev is_sign : ℕ → Bool
is_sign b = b == b'+' || b == b'-'

abbrev pub exponent : Text → Text × Text
exponent [] = ([], [])
exponent (b ∷ bs) =
    let (sign, after) = optional is_sign bs in
    let (digits, rest) = take_while is_digit after in
    if b == b'e' || b == b'E' then (b ∷ sign ++ digits, rest) else ([], b ∷ bs)

-- The parts of a number's lexeme, and what is left.
unfoldable pub number_lexeme : Text → Text × Text × Text
number_lexeme src =
    let (minus, s₁) = optional (λ b. b == b'-') src in
    let (digits, s₂) = take_while is_digit s₁ in
    let (frac, s₃) = fraction s₂ in
    let (exp, rest) = exponent s₃ in (minus, digits ++ frac ++ exp, rest)

abbrev pub invalid_number : Text → Message
invalid_number lexeme = format "`{lexeme}` is not a valid number literal" (text lexeme ∷ [])

unfoldable pub lex_number : {F : Type 0} → Numbers F → Text → Result (Text × Text)
lex_number numbers src =
    let (minus, body, rest) = number_lexeme src in
    let parsed : Result (Text × Text) = (do
      n ← ok_or (numbers.from_str (minus ++ body)) (parse_err (invalid_number (minus ++ body)))
      ok (n, rest)) in
    if is_empty body
    then err (parse_err (plain (bytes "`-` is not followed by a number")))
    else parsed

abbrev only_strict : Message
only_strict = plain (bytes "only strict equality `===`/`!==` is supported, not `=`/`==`")

abbrev lone_amp : Message
lone_amp = plain (bytes "a lone `&` is not a valid operator (did you mean `&&`?)")

abbrev lone_pipe : Message
lone_pipe = plain (bytes "a lone `|` is not a valid operator (did you mean `||`?)")

abbrev pub unexpected_character : ℕ → Message
unexpected_character b = format "unexpected character {:?} in expression" (num b ∷ [])

-- The two bytes of `=` that follow in `===` and `!==`, taken off; and one byte.
abbrev pub after_equals : Text → Option Text
after_equals (b ∷ c ∷ rest) = if b == b'=' && c == b'=' then some rest else none
after_equals _ = none

abbrev pub after_byte : ℕ → Text → Option Text
after_byte b [] = none
after_byte b (c ∷ rest) = if c == b then some rest else none

abbrev pub operator_or : Token → Option Text → Result (Token × Text) → Result (Token × Text)
operator_or t (some rest) other = ok (t, rest)
operator_or t none other = other

abbrev pub tagged : (Text → Token) → Result (Text × Text) → Result (Token × Text)
tagged token (ok (s, rest)) = ok (token s, rest)
tagged token (err e) = err e
tagged token panic = panic

module _ {F : Type 0} (numbers : Numbers F) where
  -- An identifier, from its first byte on.
  abbrev pub lex_ident : ℕ → Text → Token × Text
  lex_ident b bs = let (more, rest) = take_while is_ident_continue bs in (ident (b ∷ more), rest)

  -- One token, at its first byte, which is no white space; and what is left.
  unfoldable pub lex_token : ℕ → Text → Result (Token × Text)
  lex_token b bs =
      if b == b'('
      then ok (lparen, bs)
      else if b == b')'
      then ok (rparen, bs)
      else if b == b'['
      then ok (lbracket, bs)
      else if b == b']'
      then ok (rbracket, bs)
      else if b == b'.'
      then ok (dot, bs)
      else if b == b'!'
      then operator_or bang_eq_eq (after_equals bs) (ok (bang, bs))
      else if b == b'='
      then operator_or eq_eq_eq (after_equals bs) (err (parse_err only_strict))
      else if b == b'&'
      then operator_or amp_amp (after_byte b'&' bs) (err (parse_err lone_amp))
      else if b == b'|'
      then operator_or pipe_pipe (after_byte b'|' bs) (err (parse_err lone_pipe))
      else if b == 34 || b == quote_byte
      then tagged str (lex_string b bs)
      else if b == b'-' || is_digit b
      then tagged number (lex_number numbers (b ∷ bs))
      else if is_ident_start b
      then ok (lex_ident b bs)
      else err (parse_err (unexpected_character b))

  -- The outer loop; each round takes a byte at least, and without fuel it panics.
  unfoldable pub tokenize_loop : ℕ → Text → Result Tokens
  tokenize_loop fuel [] = ok []
  tokenize_loop zero (b ∷ bs) = panic
  tokenize_loop (suc fuel) (b ∷ bs) =
      let blank = tokenize_loop fuel bs in
      let next = (do (t, rest) ← lex_token b bs; ts ← tokenize_loop fuel rest; ok (t ∷ ts)) in
      if is_space b then blank else next

  unfoldable pub tokenize : Text → Result Tokens
  tokenize src = tokenize_loop (length src) src
