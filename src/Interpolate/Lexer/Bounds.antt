-- ===== src/Interpolate/Lexer/Bounds.antt =====
-- The tokenizer takes a byte at least for each token, so that it ends on every input.
use tmx.Base.{
  ℕ, zero, suc, ◌+◌, ◌≤◌, ◌≡◌, refl, Bool, Option, none, some, [], ◌∷◌, ◌++◌, arith, Text, length,
  is_empty, ◌==◌, if◌then◌else◌, length-append, ◌||◌,
}
use tmx.Error.{Result, ok, err, panic, RunError, resolution, ok_or, ◌>>=◌}
use tmx.Interpolate.{
  Token, lparen, rparen, lbracket, rbracket, dot, bang, eq_eq_eq, bang_eq_eq, amp_amp, pipe_pipe,
  number, str, Numbers, parse_err,
}
use tmx.Interpolate.Outcome.{
  Yields, Any, ok-Yields, err-Yields, bind-Yields, weaken-Yields, if-Yields, found-Yields,
}
use tmx.Interpolate.Lexer.{
  is_space, is_digit, is_ident_start, is_ident_continue, take_while, decode_escape, prepend,
  lex_string, unsupported_escape, invalid_number, optional, fraction, exponent, number_lexeme,
  lex_number, after_equals, after_byte, operator_or, tagged, lex_ident, lex_token, tokenize_loop,
  tokenize,
}

module _ {A : Type 0} where
  abbrev AtMost : ℕ → A × Text → Type 0
  AtMost n r = length r.1 ≤ n

length-take_while :
    (test : ℕ → Bool) (bs : Text)
    → length (take_while test bs).0 + length (take_while test bs).1 ≡ length bs
unfolding take_while
length-take_while test [] = refl
length-take_while test (b ∷ bs) = ground (arith, length-take_while test bs)

length-optional :
    (test : ℕ → Bool) (bs : Text)
    → length (optional test bs).0 + length (optional test bs).1 ≡ length bs
length-optional test [] = refl
length-optional test (b ∷ bs) = ground arith

length-fraction : (bs : Text) → length (fraction bs).0 + length (fraction bs).1 ≡ length bs
length-fraction [] = refl
length-fraction (b ∷ bs) = ground (arith, length-take_while is_digit bs)

length-exponent : (bs : Text) → length (exponent bs).0 + length (exponent bs).1 ≡ length bs
length-exponent [] = refl
length-exponent (b ∷ bs) =
    let sign = optional (λ c. c == b'+' || c == b'-') bs in
    ground (
      arith,
      length-optional (λ c. c == b'+' || c == b'-') bs,
      length-take_while is_digit sign.1,
      length-append sign.0 (take_while is_digit sign.1).0,
    )

length-number_lexeme :
    (src : Text)
    → let (minus, body, rest) = number_lexeme src in
      length minus + length body + length rest ≡ length src
unfolding number_lexeme
length-number_lexeme src =
    let m = optional (λ b. b == b'-') src in
    let d = take_while is_digit m.1 in
    let f = fraction d.1 in
    let e = exponent f.1 in
    omega (
      arith,
      length-optional (λ b. b == b'-') src,
      length-take_while is_digit m.1,
      length-fraction d.1,
      length-exponent f.1,
      length-append (d.0 ++ f.0) e.0,
      length-append d.0 f.0,
    )

prepend-Yields :
    (n b : ℕ) (r : Result (Text × Text)) → Yields (AtMost n) r → Yields (AtMost n) (prepend b r)
unfolding Yields
prepend-Yields n b (ok x) h = h
prepend-Yields n b (err e) h = h
prepend-Yields n b panic h = h

grown : (n m : ℕ) (r : Result (Text × Text)) → n ≤ m → Yields (AtMost n) r → Yields (AtMost m) r
grown n m r h y = weaken-Yields (AtMost n) (AtMost m) r (λ x k. omega (arith, k, h)) y

escape-Yields :
    (n : ℕ) (o : Option ℕ) (c : ℕ) (r : Result (Text × Text))
    → Yields (AtMost n) r
    → Yields (AtMost n) (elim o as (λ _. Result (Text × Text)) [
      | some decoded ↦ prepend decoded r
      | none ↦ err (parse_err (unsupported_escape c))
    ])
escape-Yields n none c r h = err-Yields _ _ refl
escape-Yields n (some d) c r h = prepend-Yields n d r h

lex_string-Yields : (quote : ℕ) (bs : Text) → Yields (AtMost (length bs)) (lex_string quote bs)
unfolding lex_string
lex_string-Yields quote [] = err-Yields _ _ refl
lex_string-Yields quote (b ∷ []) =
    if-Yields _ (b == quote) _ _ (ok-Yields _ _ (omega arith))
      (if-Yields _ (b == 92) _ _ (err-Yields _ _ refl) (err-Yields _ _ refl))
lex_string-Yields quote (b ∷ c ∷ rest) =
    let n = length (b ∷ c ∷ rest) in
    if-Yields _ (b == quote) _ _ (ok-Yields _ _ (omega arith)) (
      if-Yields _ (b == 92) _ _
        (escape-Yields n (decode_escape c) c (lex_string quote rest)
          (grown (length rest) n _ (omega arith) (lex_string-Yields quote rest)))
        (prepend-Yields n b (lex_string quote (c ∷ rest))
          (grown (length (c ∷ rest)) n _ (omega arith) (lex_string-Yields quote (c ∷ rest)))))

module _ {F : Type 0} (numbers : Numbers F) where
  parsed-Yields :
      (n : ℕ) (minus body rest : Text) (e : RunError)
      → e.category ≡ resolution
      → length minus + length body + length rest ≡ suc n
      → Yields (AtMost n) (
          if is_empty body
          then err e
          else (ok_or
                (numbers.from_str (minus ++ body))
                (parse_err (invalid_number (minus ++ body)))
              >>= λ m. ok (m, rest)))
  parsed-Yields n minus [] rest e named len = err-Yields _ e named
  parsed-Yields n minus (c ∷ body) rest e named len =
      bind-Yields Any _ _ _ (found-Yields _ _ _)
        (λ m _. ok-Yields (AtMost n) (m, rest) (omega (arith, len)))

  lex_number-Yields :
      (b : ℕ) (bs : Text) → Yields (AtMost (length bs)) (lex_number numbers (b ∷ bs))
  unfolding lex_number
  lex_number-Yields b bs =
      let lexeme = number_lexeme (b ∷ bs) in
      parsed-Yields (length bs) lexeme.0 lexeme.1 lexeme.2 _ refl (length-number_lexeme (b ∷ bs))

  tagged-Yields :
      (n : ℕ) (token : Text → Token) (r : Result (Text × Text))
      → Yields (AtMost n) r
      → Yields (AtMost n) (tagged token r)
  unfolding Yields
  tagged-Yields n token (ok x) h = h
  tagged-Yields n token (err e) h = h
  tagged-Yields n token panic h = h

  operator-Yields :
      (n : ℕ) (t : Token) (o : Option Text) (other : Result (Token × Text))
      → ((rest : Text) → o ≡ some rest → length rest ≤ n)
      → Yields (AtMost n) other
      → Yields (AtMost n) (operator_or t o other)
  operator-Yields n t none other h k = k
  operator-Yields n t (some rest) other h k = ok-Yields _ _ (h rest refl)

  after_equals-le : (bs rest : Text) → after_equals bs ≡ some rest → length rest ≤ length bs
  after_equals-le [] rest h = absurd cc
  after_equals-le (b ∷ []) rest h = absurd cc
  after_equals-le (b ∷ c ∷ bs) rest h = ground arith

  after_byte-le : (b : ℕ) (bs rest : Text) → after_byte b bs ≡ some rest → length rest ≤ length bs
  after_byte-le b [] rest h = absurd cc
  after_byte-le b (c ∷ bs) rest h = ground arith

  lex_token-Yields : (b : ℕ) (bs : Text) → Yields (AtMost (length bs)) (lex_token numbers b bs)
  unfolding lex_token
  lex_token-Yields b bs =
      let n = length bs in
      let P = AtMost {A = Token} n in
      let here : (t : Token) → Yields P (ok (t, bs)) = λ t. ok-Yields P (t, bs) (omega arith) in
      if-Yields P (b == b'(') _ _ (here lparen) (
        if-Yields P (b == b')') _ _ (here rparen) (
          if-Yields P (b == b'[') _ _ (here lbracket) (
            if-Yields P (b == b']') _ _ (here rbracket) (
              if-Yields P (b == b'.') _ _ (here dot) (
                if-Yields P (b == b'!') _ _
                  (operator-Yields n bang_eq_eq (after_equals bs) _ (after_equals-le bs)
                    (here bang))
                  (if-Yields P (b == b'=') _ _
                    (operator-Yields n eq_eq_eq (after_equals bs) _ (after_equals-le bs)
                      (err-Yields P _ refl))
                    (if-Yields P (b == b'&') _ _
                      (operator-Yields n amp_amp (after_byte b'&' bs) _ (after_byte-le b'&' bs)
                        (err-Yields P _ refl))
                      (if-Yields P (b == b'|') _ _
                        (operator-Yields n pipe_pipe (after_byte b'|' bs) _ (after_byte-le b'|' bs)
                          (err-Yields P _ refl))
                        (if-Yields P (b == 34 || b == 39) _ _
                          (tagged-Yields n str _ (lex_string-Yields b bs))
                          (if-Yields P (b == b'-' || is_digit b) _ _
                            (tagged-Yields n number _ (lex_number-Yields b bs))
                            (if-Yields P (is_ident_start b) _ _
                              (ok-Yields P (lex_ident numbers b bs)
                                (omega (arith, length-take_while is_ident_continue bs)))
                              (err-Yields P _ refl))))))))))))

  tokenize_loop-Yields :
      (fuel : ℕ) (bs : Text) → length bs ≤ fuel → Yields Any (tokenize_loop numbers fuel bs)
  unfolding tokenize_loop
  tokenize_loop-Yields zero [] h = ok-Yields Any _ tt
  tokenize_loop-Yields (suc fuel) [] h = ok-Yields Any _ tt
  tokenize_loop-Yields zero (b ∷ bs) h = absurd (omega arith)
  tokenize_loop-Yields (suc fuel) (b ∷ bs) h =
      if-Yields Any (is_space b) _ _ (tokenize_loop-Yields fuel bs (omega arith)) (
        bind-Yields (AtMost (length bs)) _ _ _ (lex_token-Yields b bs) (λ r shorter.
          bind-Yields Any _ _ _ (tokenize_loop-Yields fuel r.1 (omega (arith, shorter)))
            (λ ts _. ok-Yields Any _ tt)))

  -- The tokenizer ends on every text, with tokens or an error of the resolution category.
  pub tokenize-Yields : (src : Text) → Yields Any (tokenize numbers src)
  unfolding tokenize
  tokenize-Yields src = tokenize_loop-Yields (length src) src (omega arith)
