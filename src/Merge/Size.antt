-- ===== src/Merge/Size.antt =====
-- The canonical size of a document, and what one insertion into an object adds to it.
use tmx.Base.{
  ℕ, ◌+◌, ◌≤◌, ◌<◌, ◌≡◌, refl, none, some, [], ◌++◌, arith, Text, bytes, text_eq, Bool-cases,
  Option-cases, inl, inr, length, length-append,
}
use tmx.Limits.{u64_mod}
use tmx.Json.{Value, Fields, object, no_fields, field, get, insert}
use tmx.Merge.{Serializer, StateBuilder, canonical_len, key_token_len, merged_size, separator_len}

-- The entries of an object in compact form, with a comma between two of them.
abbrev pub compact_fields : (Value → Text) → (Text → Text) → Fields → Text
compact_fields compact key_text no_fields = []
compact_fields compact key_text (field k v no_fields) = key_text k ++ (bytes ":" ++ compact v)
compact_fields compact key_text (field k v (field j w fs)) =
    key_text k
    ++ (bytes ":" ++ (compact v ++ (bytes "," ++ compact_fields compact key_text (field j w fs))))

-- What the engine relies on of `serde_json::to_string`: it succeeds on every document, and writes an
-- object compactly, with no insignificant white space.
pub record IsCompact (json : Serializer) : Type 0 where
  pub compact : Value → Text
  pub key_text : Text → Text
  pub to_string_lem : (v : Value) → json.to_string v ≡ some (compact v)
  pub key_to_string_lem : (k : Text) → json.key_to_string k ≡ some (key_text k)
  pub compact-object :
      (fs : Fields)
      → compact (object fs) ≡ bytes "{" ++ (compact_fields compact key_text fs ++ bytes "}")

module _ {json : Serializer} (c : IsCompact json) where
  abbrev fields_len : Fields → ℕ
  fields_len fs = length (compact_fields c.compact c.key_text fs)

  pub canonical_len_lem : (v : Value) → canonical_len json v ≡ length (c.compact v)
  unfolding canonical_len
  canonical_len_lem v = ground (arith, c.to_string_lem v)

  pub key_token_len_lem : (k : Text) → key_token_len json k ≡ length (c.key_text k)
  unfolding key_token_len
  key_token_len_lem k = ground (arith, c.key_to_string_lem k)

  pub canonical_len-object : (fs : Fields) → canonical_len json (object fs) ≡ fields_len fs + 2
  canonical_len-object fs =
      rw canonical_len_lem (rw c.compact-object (omega (arith, length-append {0})))

  fields_len-cons :
      (k : Text) (v : Value) (fs : Fields)
      → fields_len (field k v fs)
        ≡ length (c.key_text k) + 1 + length (c.compact v) + separator_len fs + fields_len fs
  fields_len-cons k v no_fields = omega (arith, length-append {0})
  fields_len-cons k v (field j w fs) = omega (arith, length-append {0})

  pub get-le-fields_len :
      (k : Text) (fs : Fields) (old : Value)
      → get k fs ≡ some old
      → length (c.compact old) ≤ fields_len fs
  get-le-fields_len k no_fields old h = ground arith
  get-le-fields_len k (field j w fs) old h =
      ground (arith, fields_len-cons j w fs, get-le-fields_len k fs old)

  separator-insert : (k : Text) (v : Value) (fs : Fields) → separator_len (insert k v fs) ≡ 1
  separator-insert k v no_fields = refl
  separator-insert k v (field j w fs) = ground arith

  separator-get :
      (k : Text) (fs : Fields) (old : Value) → get k fs ≡ some old → separator_len fs ≡ 1
  separator-get k no_fields old h = ground arith
  separator-get k (field j w fs) old h = refl

  separator-le : (fs : Fields) → separator_len fs ≤ 1
  separator-le fs = ground arith

  pub fields_len-insert_old :
      (k : Text) (v : Value) (fs : Fields) (old : Value)
      → get k fs ≡ some old
      → fields_len (insert k v fs) + length (c.compact old) ≡ fields_len fs + length (c.compact v)
  fields_len-insert_old k v no_fields old h = ground arith
  fields_len-insert_old k v (field j w fs) old h = elim (Bool-cases (text_eq j k)) [
    | inl same ↦
        rw same (ground (arith, fields_len-cons j v fs, fields_len-cons j w fs, rw same at h))
    | inr other ↦
        let found : get k fs ≡ some old = rw other at h in
        rw other (
          ground (
            arith,
            fields_len-cons j w fs,
            fields_len-cons j w (insert k v fs),
            fields_len-insert_old k v fs old found,
            separator-insert k v fs,
            separator-get k fs old found,
          ))
  ]

  pub fields_len-insert_new :
      (k : Text) (v : Value) (fs : Fields)
      → get k fs ≡ none
      → fields_len (insert k v fs)
        ≡ fields_len fs + (length (c.key_text k) + 1 + length (c.compact v)) + separator_len fs
  fields_len-insert_new k v no_fields h = ground (arith, fields_len-cons k v no_fields)
  fields_len-insert_new k v (field j w fs) h = elim (Bool-cases (text_eq j k)) [
    | inl same ↦ cc (rw same at h)
    | inr other ↦ rw other (
        ground (
          arith,
          fields_len-cons j w fs,
          fields_len-cons j w (insert k v fs),
          fields_len-insert_new k v fs (rw other at h),
          separator-insert k v fs,
        ))
  ]

  -- The size that a merge computes is the size of the state that it writes.
  pub merged_size_lem :
      (b : StateBuilder) (fs : Fields) (key : Text) (output : Value)
      → b.size_bytes ≡ canonical_len json (object fs)
      → b.size_bytes + key_token_len json key + canonical_len json output + 2 < u64_mod
      → merged_size json b fs key output ≡ canonical_len json (object (insert key output fs))
  unfolding merged_size
  merged_size_lem b fs key output tracked room = elim (Option-cases (get key fs)) [
    | inl absent ↦
        rw (absent, merged_size)
          (omega (
            arith,
            canonical_len-object fs,
            canonical_len-object (insert key output fs),
            canonical_len_lem output,
            key_token_len_lem key,
            fields_len-insert_new key output fs absent,
            separator-le fs,
          ))
    | inr (old, present) ↦
        rw (present, merged_size)
          (omega (
            arith,
            canonical_len-object fs,
            canonical_len-object (insert key output fs),
            canonical_len_lem output,
            canonical_len_lem old,
            fields_len-insert_old key output fs old present,
            get-le-fields_len key fs old present,
          ))
  ]
