-- ===== src/Dispatch/Requests/Headers.antt =====
-- The headers of a request: what `build_fetch_request` sends with a body.
use tmx.Base.{
  ℕ, ◌≡◌, ◌∙◌, refl, sym, ap, subst, Bool, true, false, ◌||◌, bytes, Option, none, some, [], ◌∷◌,
  arith, Text, text_eq, text_eq_iff, Bool-cases, Option-cases, inl, inr,
}
use tmx.Json.{Value}
use tmx.IndexMap.{IndexMap, find, put, unique, find-put}
use tmx.Error.{ok}
use tmx.Flow.{FetchWith}
use tmx.Interpolate.{Numbers, Scope}
use tmx.Dispatch.Template.{Rendering, interp_value, interp_to_string}
use tmx.Dispatch.Requests.{
  HttpRequest, or_else, any, content_type_header, is_content_type, declare_content_type, interp_opt,
  insert_all, fetch_body, interp_query, build_fetch_request,
}
use tmx.Dispatch.Requests.Environment.{inverse-bind, ok_injective, insert_all-first}

header_is_content_type :
    (j v : Text) → text_eq j content_type_header ≡ true → is_content_type (j, v) ≡ true
header_is_content_type j v h =
    subst (λ x. is_content_type (x, v) ≡ true) (sym ((text_eq_iff j content_type_header).0 h)) refl

any_or : (a b : Bool) → (b ≡ true) → (a || b) ≡ true
any_or a b h = ground (arith, h)

any-head :
    (e : Text × Text) (m : IndexMap Text)
    → is_content_type e ≡ true
    → any is_content_type (e ∷ m) ≡ true
any-head e m h = rw h refl

any-put : (t : Text) (m : IndexMap Text) → any is_content_type (put content_type_header t m) ≡ true
any-put t [] = refl
any-put t ((j, v) ∷ m) = elim (Bool-cases (text_eq j content_type_header)) [
  | inl h ↦ rw h (any-head (j, t) m (header_is_content_type j t h))
  | inr h ↦ rw h (any_or (is_content_type (j, v)) _ (any-put t m))
]

-- With a body goes a content type.
declare_content_type-declared :
    (t : Text) (m : IndexMap Text) → any is_content_type (declare_content_type t m) ≡ true
declare_content_type-declared t m = elim (Bool-cases (any is_content_type m)) [
  | inl h ↦ rw h h
  | inr h ↦ rw h (any-put t m)
]

any_false : (a b : Bool) → (a || b) ≡ false → (a ≡ false) × (b ≡ false)
any_false a b h = ground (arith, h)

true-not_false : true ≡ false → ⊥
true-not_false h = absurd cc

some-not_none : {A : Type 0} {a : A} → some a ≡ none → ⊥
some-not_none h = absurd cc

find-undeclared :
    (m : IndexMap Text) → any is_content_type m ≡ false → find content_type_header m ≡ none
find-undeclared [] h = refl
find-undeclared ((j, w) ∷ m) h =
    let (a, b) = any_false (is_content_type (j, w)) (any is_content_type m) h in
    elim (Bool-cases (text_eq j content_type_header)) [
      | inl e ↦ absurd (true-not_false (sym (header_is_content_type j w e) ∙ a))
      | inr e ↦ rw e (find-undeclared m b)
    ]

undeclared :
    (k v : Text) (m : IndexMap Text)
    → any is_content_type m ≡ false
    → find k m ≡ some v
    → text_eq content_type_header k ≡ false
undeclared k v m h e = elim (Bool-cases (text_eq content_type_header k)) [
  | inl same ↦ absurd (
      some-not_none (
        sym e
        ∙ subst (λ x. find x m ≡ none) ((text_eq_iff content_type_header k).0 same)
            (find-undeclared m h)))
  | inr other ↦ other
]

declare_content_type-keeps :
    (t k v : Text) (m : IndexMap Text)
    → find k m ≡ some v
    → find k (declare_content_type t m) ≡ some v
declare_content_type-keeps t k v m e = elim (Bool-cases (any is_content_type m)) [
  | inl h ↦ rw h e
  | inr h ↦ rw h (find-put k content_type_header t m ∙ rw (undeclared k v m h e) e)
]

module _ {F : Type 0} (numbers : Numbers F) (rendering : Rendering) (parse_u64 : Text → Option ℕ)
    (scope : Scope) where
  -- With a body goes a content type; a task without a body sends none.
  abbrev pub Typed : Option Value → Option Text → IndexMap Text → Type 0
  Typed none sent headers = sent ≡ none
  Typed (some v) sent headers = any is_content_type headers ≡ true

  fetch_body-Typed :
      (body : Option Value) (body_type : Text) (headers : IndexMap Text)
      (b : Option Text × IndexMap Text)
      → fetch_body numbers rendering parse_u64 body body_type headers scope ≡ ok b
      → Typed body b.0 b.1
  unfolding fetch_body
  fetch_body-Typed none body_type headers b h = ap (λ x. x.0) (sym (ok_injective h))
  fetch_body-Typed (some v) body_type headers b h =
      let (w, p, h') = inverse-bind (interp_value numbers rendering v scope) _ b h in
      subst (λ x. any is_content_type x.1 ≡ true) (ok_injective h')
        (declare_content_type-declared _ headers)

  fetch_body-keeps :
      (body : Option Value) (body_type k v : Text) (headers : IndexMap Text)
      (b : Option Text × IndexMap Text)
      → fetch_body numbers rendering parse_u64 body body_type headers scope ≡ ok b
      → find k headers ≡ some v
      → find k b.1 ≡ some v
  unfolding fetch_body
  fetch_body-keeps none body_type k v headers b h e =
      subst (λ x. find k x.1 ≡ some v) (ok_injective h) e
  fetch_body-keeps (some w) body_type k v headers b h e =
      let (x, p, h') = inverse-bind (interp_value numbers rendering w scope) _ b h in
      subst (λ x. find k x.1 ≡ some v) (ok_injective h')
        (declare_content_type-keeps _ k v headers e)

  -- What a request takes from its headers and its body.
  request_parts :
      (fw : FetchWith) (r : HttpRequest)
      → build_fetch_request numbers rendering parse_u64 fw scope ≡ ok r
      → (hs : IndexMap Text) × (insert_all numbers rendering parse_u64
            (or_else [] fw.headers)
            scope
            []
          ≡ ok hs)
        × (fetch_body numbers rendering parse_u64 fw.body
              (or_else (bytes "json") fw.body_type)
              hs
              scope
            ≡ ok (r.body, r.headers))
  unfolding build_fetch_request
  request_parts fw r h =
      let (hs, p, h1) =
        inverse-bind (insert_all numbers rendering parse_u64 (or_else [] fw.headers) scope []) _ r
          h in
      let (qs, _, h2) =
        inverse-bind (interp_query numbers rendering parse_u64 (or_else [] fw.query) scope []) _ r
          h1 in
      let (b, q, h3) =
        inverse-bind
          (fetch_body numbers rendering parse_u64 fw.body (or_else (bytes "json") fw.body_type) hs
            scope)
          _ r h2 in
      let (m, _, h4) =
        inverse-bind (interp_opt numbers rendering parse_u64 fw.method scope) _ r h3 in
      let (u, _, h5) = inverse-bind (interp_to_string numbers rendering fw.url scope) _ r h4 in
      (hs, p, q ∙ ap (λ x. ok (x.body, x.headers)) (ok_injective h5))

  -- A header of the task is sent with what its template gives.
  abbrev pub Sent : Option Text → Option Text → Type 0
  Sent none found = Unit
  Sent (some v) found = interp_opt numbers rendering parse_u64 (some v) scope ≡ ok found

  header-Sent :
      (fw : FetchWith) (r : HttpRequest) (k v : Text)
      → unique (or_else [] fw.headers) ≡ true
      → find k (or_else [] fw.headers) ≡ some v
      → build_fetch_request numbers rendering parse_u64 fw scope ≡ ok r
      → Sent (some v) (find k r.headers)
  header-Sent fw r k v u e h =
      let (hs, p, q) = request_parts fw r h in
      let first =
        subst (λ o. interp_opt numbers rendering parse_u64 o scope ≡ ok (find k hs)) e
          (insert_all-first numbers rendering parse_u64 scope k (or_else [] fw.headers) hs u p) in
      let (t, _, g) =
        inverse-bind (interp_to_string numbers rendering v scope) _ (find k hs) first in
      let found = sym (ok_injective g) in
      let kept =
        fetch_body-keeps fw.body (or_else (bytes "json") fw.body_type) k t hs (r.body, r.headers) q
          found in
      first ∙ ap ok (found ∙ sym kept)

  -- A request that is built has a content type where the task has a body, and no body where the task has
  -- none; and it has each header of the task, with what its template gives. No header of the task
  -- stands twice.
  pub build_fetch_request_lem :
      (fw : FetchWith) (r : HttpRequest) (k : Text)
      → unique (or_else [] fw.headers) ≡ true
      → build_fetch_request numbers rendering parse_u64 fw scope ≡ ok r
      → Sent (find k (or_else [] fw.headers)) (find k r.headers) × Typed fw.body r.body r.headers
  build_fetch_request_lem fw r k u h =
      let (hs, p, q) = request_parts fw r h in
      let typed =
        fetch_body-Typed fw.body (or_else (bytes "json") fw.body_type) hs (r.body, r.headers) q in
      elim (Option-cases (find k (or_else [] fw.headers))) [
        | inl n ↦ rw n (tt, typed)
        | inr (v, e) ↦ rw e (header-Sent fw r k v u e h, typed)
      ]
