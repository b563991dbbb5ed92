-- ===== src/Dispatch/Requests.antt =====
-- The requests that a task makes of a port: `build_exec_spec`, `build_run_spec`,
-- `build_fetch_request`, `build_file_op` and `build_store_op`.
pub mod Environment
pub mod Headers
use tmx.Base.{
  ℕ, zero, suc, ◌≡◌, refl, Bool, true, false, not, ◌&&◌, ◌||◌, Option, none, some, List, [], ◌∷◌,
  ◌++◌, arith, Text, String, bytes, text_eq, length, leb, ◌+◌, ◌==◌, if◌then◌else◌,
}
use tmx.Json.{Value, string}
use tmx.IndexMap.{IndexMap, put}
use tmx.Error.{Result, ok, err, RunError, validation_error, plain, format, text, with_task, ◌>>=◌}
use tmx.Flow.{EnvMap, Duration, ExecWith, RunWith, FetchWith, FileWith, StoreWith}
use tmx.Interpolate.{Numbers, Scope}
use tmx.Dispatch.Template.{Rendering, interp_to_string, interp_value, value_to_str}
use tmx.Dispatch.Encoding.{duration_to_ms, form_urlencode}

pub data ProcessKind : Type 0 where
  exec_process run_process : ProcessKind

pub record ProcessSpec : Type 0 where
  pub kind : ProcessKind
  pub command : Text
  pub language : Option Text
  pub args : List Text
  pub env : IndexMap Text
  pub cwd : Option Text
  pub stdin : Option Text
  pub timeout : Option ℕ

pub record HttpRequest : Type 0 where
  pub method : Text
  pub url : Text
  pub headers : IndexMap Text
  pub query : IndexMap Text
  pub body : Option Text
  pub follow_redirects : Bool
  pub retries : ℕ
  pub timeout : Option ℕ

pub data FileOp : Type 0 where
  read : Text → Option Text → FileOp
  write append copy move : Text → Text → FileOp
  delete exists : Text → FileOp

pub data StoreOp : Type 0 where
  get_object delete_object list_objects head_object : Text → StoreOp
  put_object : Text → Text → StoreOp

-- `unwrap_or`
abbrev pub or_else : {A : Type 0} → A → Option A → A
or_else a none = a
or_else a (some b) = b

abbrev pub is_text : Text → String → Bool
is_text s t = text_eq s (bytes t)

abbrev pub content_type_header : Text
content_type_header = bytes "Content-Type"

abbrev pub to_ascii_lowercase : ℕ → ℕ
to_ascii_lowercase c = if leb 65 c && leb c 90 then c + 32 else c

abbrev pub eq_ignore_ascii_case : Text → Text → Bool
eq_ignore_ascii_case [] [] = true
eq_ignore_ascii_case (c ∷ s) (d ∷ t) =
    to_ascii_lowercase c == to_ascii_lowercase d && eq_ignore_ascii_case s t
eq_ignore_ascii_case s t = false

abbrev pub any : {A : Type 0} → (A → Bool) → List A → Bool
any p [] = false
any p (a ∷ rest) = p a || any p rest

abbrev pub is_content_type : Text × Text → Bool
is_content_type e = eq_ignore_ascii_case e.0 content_type_header

abbrev pub declare_content_type : Text → IndexMap Text → IndexMap Text
declare_content_type t headers =
    if any is_content_type headers then headers else put content_type_header t headers

abbrev pub missing_source : Text → RunError
missing_source name =
    with_task
      (validation_error "run_missing_source"
        (plain (bytes "a run task needs exactly one of `script` or `file`")))
      name

abbrev pub missing_destination : RunError
missing_destination =
    validation_error "file_missing_destination"
      (plain (bytes "a copy/move file op needs a `destination`"))

abbrev pub missing_key : RunError
missing_key = validation_error "store_missing_key" (plain (bytes "this store op needs a `key`"))

abbrev pub unknown_file_operation : Text → RunError
unknown_file_operation other =
    validation_error "unknown_file_operation"
      (format "unknown file operation {other:?}" (text other ∷ []))

abbrev pub unknown_store_operation : Text → RunError
unknown_store_operation other =
    validation_error "unknown_store_operation"
      (format "unknown store operation {other:?}" (text other ∷ []))

module _ {F : Type 0} (numbers : Numbers F) (rendering : Rendering)
    (parse_u64 : Text → Option ℕ) where
  -- `map(…).transpose()?`
  abbrev pub interp_opt : Option Text → Scope → Result (Option Text)
  interp_opt none scope = ok none
  interp_opt (some s) scope = interp_to_string numbers rendering s scope >>= λ t. ok (some t)

  -- `and_then(duration_to_ms)`
  abbrev pub timeout_ms : Option Duration → Option ℕ
  timeout_ms none = none
  timeout_ms (some d) = duration_to_ms rendering.trim parse_u64 d

  abbrev pub interp_all : List Text → Scope → Result (List Text)
  interp_all [] scope = ok []
  interp_all (a ∷ rest) scope = interp_to_string numbers rendering a scope >>= λ t.
      interp_all rest scope >>= λ ts. ok (t ∷ ts)

  abbrev pub interp_args : Option (List Text) → Scope → Result (List Text)
  interp_args args scope = interp_all (or_else [] args) scope

  unfoldable pub insert_all : EnvMap → Scope → IndexMap Text → Result (IndexMap Text)
  insert_all [] scope out = ok out
  insert_all ((k, v) ∷ es) scope out =
      interp_to_string numbers rendering v scope >>= λ t. insert_all es scope (put k t out)

  unfoldable pub build_env : EnvMap → Option EnvMap → Scope → Result (IndexMap Text)
  build_env ctx_env task_env scope =
      insert_all ctx_env scope [] >>= λ out. insert_all (or_else [] task_env) scope out

  unfoldable pub build_exec_spec : ExecWith → Scope → EnvMap → Result ProcessSpec
  build_exec_spec ew scope ctx_env = do
    c ← interp_to_string numbers rendering ew.command scope
    argv ← interp_args ew.args scope
    es ← build_env ctx_env ew.env scope
    dir ← interp_opt ew.cwd scope
    ok (record {
      kind = exec_process;
      command = c;
      language = ew.shell;
      args = argv;
      env = es;
      cwd = dir;
      stdin = none;
      timeout = timeout_ms ew.timeout;
    })

  abbrev pub run_source : Option Text → Option Text → Text → Scope → Result Text
  run_source (some script) file name scope = interp_to_string numbers rendering script scope
  run_source none (some file) name scope = interp_to_string numbers rendering file scope
  run_source none none name scope = err (missing_source name)

  unfoldable pub build_run_spec : RunWith → Text → Scope → EnvMap → Result ProcessSpec
  build_run_spec rw name scope ctx_env = do
    c ← run_source rw.script rw.file name scope
    argv ← interp_args rw.args scope
    es ← build_env ctx_env rw.env scope
    dir ← interp_opt rw.cwd scope
    ok (record {
      kind = run_process;
      command = c;
      language = some (or_else (bytes "bash") rw.language);
      args = argv;
      env = es;
      cwd = dir;
      stdin = none;
      timeout = timeout_ms rw.timeout;
    })

  unfoldable pub serialize_fetch_body : Value → Text → Text × Text
  serialize_fetch_body v body_type =
      if is_text body_type "form"
      then (form_urlencode rendering v, bytes "application/x-www-form-urlencoded")
      else if is_text body_type "text"
      then (value_to_str numbers rendering v, bytes "text/plain; charset=utf-8")
      else if is_text body_type "binary"
      then (value_to_str numbers rendering v, bytes "application/octet-stream")
      else (rendering.to_string v, bytes "application/json")

  abbrev pub interp_query : IndexMap Value → Scope → IndexMap Text → Result (IndexMap Text)
  interp_query [] scope out = ok out
  interp_query ((k, v) ∷ qs) scope out = interp_value numbers rendering v scope >>= λ w.
      interp_query qs scope (put k (value_to_str numbers rendering w) out)

  -- The body and the headers that go with it.
  unfoldable pub fetch_body :
      Option Value → Text → IndexMap Text → Scope → Result (Option Text × IndexMap Text)
  fetch_body none body_type headers scope = ok (none, headers)
  fetch_body (some v) body_type headers scope = interp_value numbers rendering v scope >>= λ w.
      let (payload, content_type) = serialize_fetch_body w body_type in
      ok (some payload, declare_content_type content_type headers)

  unfoldable pub build_fetch_request : FetchWith → Scope → Result HttpRequest
  build_fetch_request fw scope = do
    hs ← insert_all (or_else [] fw.headers) scope []
    qs ← interp_query (or_else [] fw.query) scope []
    b ← fetch_body fw.body (or_else (bytes "json") fw.body_type) hs scope
    m ← interp_opt fw.method scope
    u ← interp_to_string numbers rendering fw.url scope
    ok (record {
      method = or_else (bytes "GET") m;
      url = u;
      headers = b.1;
      query = qs;
      body = b.0;
      follow_redirects = or_else true fw.follow_redirects;
      retries = or_else 0 fw.retries;
      timeout = timeout_ms fw.timeout;
    })

  abbrev pub interp_or_default : Option Text → Scope → Result Text
  interp_or_default s scope = interp_opt s scope >>= λ t. ok (or_else [] t)

  abbrev pub interp_destination : Option Text → Scope → Result Text
  interp_destination none scope = err missing_destination
  interp_destination (some d) scope = interp_to_string numbers rendering d scope

  abbrev pub file_op : FileWith → Text → Scope → Result FileOp
  file_op fw path scope =
      if is_text fw.operation "read"
      then ok (read path fw.encoding)
      else if is_text fw.operation "write"
      then interp_or_default fw.content scope >>= (λ c. ok (write path c))
      else if is_text fw.operation "append"
      then interp_or_default fw.content scope >>= (λ c. ok (append path c))
      else if is_text fw.operation "delete"
      then ok (delete path)
      else if is_text fw.operation "exists"
      then ok (exists path)
      else if is_text fw.operation "copy"
      then interp_destination fw.destination scope >>= (λ d. ok (copy path d))
      else if is_text fw.operation "move"
      then interp_destination fw.destination scope >>= (λ d. ok (move path d))
      else err (unknown_file_operation fw.operation)

  unfoldable pub build_file_op : FileWith → Scope → Result FileOp
  build_file_op fw scope =
      interp_to_string numbers rendering fw.path scope >>= λ path. file_op fw path scope

  abbrev pub interp_key : Option Text → Scope → Result Text
  interp_key none scope = err missing_key
  interp_key (some k) scope = interp_to_string numbers rendering k scope

  unfoldable pub build_store_op : StoreWith → Scope → Result StoreOp
  build_store_op sw scope =
      if is_text sw.operation "get"
      then interp_key sw.key scope >>= (λ k. ok (get_object k))
      else if is_text sw.operation "put"
      then interp_key sw.key scope
        >>= (λ k. interp_or_default sw.content scope >>= λ c. ok (put_object k c))
      else if is_text sw.operation "delete"
      then interp_key sw.key scope >>= (λ k. ok (delete_object k))
      else if is_text sw.operation "head"
      then interp_key sw.key scope >>= (λ k. ok (head_object k))
      else if is_text sw.operation "list"
      then interp_or_default sw.key scope >>= (λ p. ok (list_objects p))
      else err (unknown_store_operation sw.operation)
