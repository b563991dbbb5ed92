-- ===== src/Interpolate/Examples.antt =====
-- The expression language at concrete texts, with numbers that are digits and measured by their length.
use tmx.Base.{false, ℕ, ◌≡◌, ◌≤◌, refl, arith, true, none, some, [], ◌∷◌, bytes, length, ◌==◌}
use tmx.Limits.{expr_depth_max}
use tmx.Json.{null, boolean, string, array, object, item, no_items, field, no_fields}
use tmx.Error.{ok}
use tmx.Interpolate.{
  or, Expr, literal, path, negation, binary, Steps, no_steps, index, Numbers, Scope, lparen, rparen,
  str,
}
use tmx.Interpolate.Outcome.{Yields, Any}
use tmx.Interpolate.Lexer.{
  tokenize, tokenize_loop, lex_token, take_while, lex_number, number_lexeme, lex_string,
}
use tmx.Interpolate.Parser.{
  parse_bp, parse_tokens, parse, check_depth, expect_field, loop_op, expect_rbracket,
}
use tmx.Interpolate.Parser.Bounds.{nesting}
use tmx.Interpolate.Parser.Brackets.{peak, parse_tokens-bounded}
use tmx.Interpolate.Eval.{eval, evaluate, base_of, access_key, access_index, is_truthy}
use tmx.Interpolate.Eval.Laws.{reads_no_secret, evaluate-Yields, evaluate-blind}
use tmx.Interpolate.Printer.{emit, printable, room}
use tmx.Interpolate.RoundTrip.{parse_tokens-emit}
use tmx.Interpolate.Chain.{chain, height, parse_tokens-chain}

abbrev numbers : Numbers ℕ
numbers = record {
  from_str = λ t. some t;
  as_f64 = λ t. some (length t);
  as_u64 = λ t. some (length t);
  of_u64 = λ i. [];
  f64_eq = λ x y. x == y;
  is_zero = λ x. x == 0;
  is_nan = λ x. false;
}

abbrev scope : Scope
scope = record {
  inputs = object (
      field (bytes "n") (array (item (string (bytes "a")) (item (boolean true) no_items)))
        no_fields);
  env = object no_fields;
  secrets = object (field (bytes "key") (string (bytes "k")) no_fields);
  tasks = object no_fields;
  item = none;
  item_alias = none;
  item_index = none;
  case_value = none;
  output = none;
  matrix = null;
}

indexed :
    evaluate numbers (bytes "inputs.n[1] && !inputs['n'][2] || 'x'") scope ≡ ok (string (bytes "x"))
unfolding evaluate parse tokenize parse_tokens parse_bp check_depth eval base_of access_key
    access_index is_truthy tokenize_loop lex_token take_while lex_number number_lexeme lex_string
    expect_field loop_op expect_rbracket
indexed = refl

abbrev tree : Expr
tree =
    binary or (negation (path (bytes "env") (index (literal (string (bytes "a"))) no_steps)))
      (literal null)

evaluate-Yields_example : Yields Any (evaluate numbers (bytes "inputs.n[") scope)
evaluate-Yields_example = evaluate-Yields numbers (bytes "inputs.n[") scope

evaluate-blind_example :
    evaluate numbers (bytes "inputs.n") (record scope { secrets = null })
    ≡ evaluate numbers (bytes "inputs.n") scope
unfolding parse tokenize parse_tokens parse_bp check_depth reads_no_secret tokenize_loop lex_token
    take_while expect_field loop_op
evaluate-blind_example =
    evaluate-blind numbers (bytes "inputs.n") scope null
      (path (bytes "inputs") (Steps.field (bytes "n") no_steps)) refl refl

parse_tokens-bounded_example :
    Yields
      (λ e.
        (nesting e ≤ expr_depth_max) × (peak 1 (lparen ∷ str [] ∷ rparen ∷ []) ≤ expr_depth_max))
      (parse_tokens (lparen ∷ str [] ∷ rparen ∷ []))
parse_tokens-bounded_example = parse_tokens-bounded (lparen ∷ str [] ∷ rparen ∷ [])

parse_tokens-emit_example : parse_tokens (emit tree []) ≡ ok tree
unfolding printable room
parse_tokens-emit_example = parse_tokens-emit tree refl (omega arith)

parse_tokens-chain_example : (e : Expr) × (parse_tokens (chain 50) ≡ ok e) × (height e ≡ 51)
parse_tokens-chain_example = parse_tokens-chain 50
