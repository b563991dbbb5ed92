-- ===== src/Dispatch/Examples.antt =====
-- The requests of tasks at concrete payloads, with rendering functions that change nothing.
use tmx.Base.{false, ℕ, ◌≡◌, refl, true, Option, none, some, [], ◌∷◌, Text, bytes, length, ◌==◌}
use tmx.Str.{contains}
use tmx.Json.{null, string}
use tmx.Error.{ok}
use tmx.IndexMap.{IndexMap, find}
use tmx.Flow.{EnvMap, FetchWith}
use tmx.Interpolate.{Numbers, Scope}
use tmx.Dispatch.Template.{Rendering, interp_to_string, interp_template, interp_value}
use tmx.Dispatch.Encoding.{percent_encode}
use tmx.Dispatch.Encoding.Decode.{url_decode, url_decode-percent_encode}
use tmx.Dispatch.Requests.{
  HttpRequest, build_env, insert_all, interp_opt, build_fetch_request, fetch_body,
  serialize_fetch_body,
}
use tmx.Dispatch.Requests.Environment.{overlaid, find-build_env}
use tmx.Dispatch.Requests.Headers.{Typed, build_fetch_request_lem}

abbrev numbers : Numbers ℕ
numbers = record {
  from_str = λ t. some t;
  as_f64 = λ t. some (length t);
  as_u64 = λ t. none;
  of_u64 = λ i. [];
  f64_eq = λ x y. x == y;
  is_zero = λ x. x == 0;
  is_nan = λ x. false;
}

abbrev rendering : Rendering
rendering = record { trim = λ t. t; to_string = λ v. [] }

abbrev scope : Scope
scope = record {
  inputs = null;
  env = null;
  secrets = null;
  tasks = null;
  item = none;
  item_alias = none;
  item_index = none;
  case_value = none;
  output = none;
  matrix = null;
}

abbrev parse_u64 : Text → Option ℕ
parse_u64 t = some (length t)

slash_escaped : percent_encode (bytes "a b/") ≡ bytes "a+b%2F"
unfolding percent_encode
slash_escaped = refl

url_decode-percent_encode_example : url_decode (percent_encode (bytes "a b/+")) ≡ bytes "a b/+"
url_decode-percent_encode_example = url_decode-percent_encode (bytes "a b/+") refl

abbrev context_env : EnvMap
context_env = (bytes "A", bytes "x") ∷ (bytes "B", bytes "y") ∷ []

abbrev own_env : EnvMap
own_env = (bytes "A", bytes "z") ∷ []

abbrev process_env : IndexMap Text
process_env = (bytes "A", bytes "z") ∷ (bytes "B", bytes "y") ∷ []

find-build_env_example :
    interp_opt numbers rendering parse_u64
      (overlaid (find (bytes "A") own_env) (find (bytes "A") context_env))
      scope
    ≡ ok (find (bytes "A") process_env)
unfolding build_env insert_all interp_to_string interp_template contains
find-build_env_example =
    find-build_env numbers rendering parse_u64 scope context_env (some own_env) process_env refl
      refl refl (bytes "A")

abbrev post : FetchWith
post = record {
  url = bytes "u";
  method = some (bytes "POST");
  headers = some ((bytes "X-Id", bytes "7") ∷ []);
  query = none;
  body = some (string (bytes "hi"));
  body_type = some (bytes "text");
  timeout = none;
  follow_redirects = none;
  retries = none;
}

abbrev request : HttpRequest
request = record {
  method = bytes "POST";
  url = bytes "u";
  headers =
      (bytes "X-Id", bytes "7") ∷ (bytes "Content-Type", bytes "text/plain; charset=utf-8") ∷ [];
  query = [];
  body = some (bytes "hi");
  follow_redirects = true;
  retries = 0;
  timeout = none;
}

build_fetch_request_lem_example :
    (interp_opt numbers rendering parse_u64 (some (bytes "7")) scope
      ≡ ok (find (bytes "X-Id") request.headers))
    × Typed numbers rendering parse_u64 scope post.body request.body request.headers
unfolding build_fetch_request fetch_body serialize_fetch_body insert_all interp_to_string
    interp_template interp_value contains
build_fetch_request_lem_example =
    build_fetch_request_lem numbers rendering parse_u64 scope post request (bytes "X-Id") refl refl
