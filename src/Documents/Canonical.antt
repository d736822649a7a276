-- ===== src/Documents/Canonical.antt =====
-- `canonical_bytes` of operator/src/documents.rs: the bytes that a signature covers.
use onym_backup.Prelude.{
  ℕ, suc, ◌+◌, ◌/◌, ◌%◌, List, [], ◌∷◌, ◌++◌, Text, Bytes, text, ltb, ◌==◌, if◌then◌else◌,
}
use onym_backup.Prelude.Int.{pos, negsuc}
use onym_backup.Prelude.Decimal.{decimal}
use onym_backup.Prelude.Sort.{text_le, sort_by}
use onym_backup.Prelude.Exec.{ok, err}
use onym_backup.Prelude.Results.{◌>>=◌}
use onym_backup.Error.{Fallible, internal}
use onym_backup.Documents.Json.{
  Number, integer, float, Value, null, bool, number, string, array, object, Values, nil, cons,
  Fields, end, field, remove_field,
}

hex_digit : ℕ → ℕ
hex_digit n = if ltb n 10 then 48 + n else 87 + n

-- one byte of a string; the bytes of other characters are copied
escape : ℕ → Bytes
unfolding hex_digit
escape c =
    if c == b'"'
    then b'\\' ∷ b'"' ∷ []
    else if c == b'\\'
    then b'\\' ∷ b'\\' ∷ []
    else if c == 8
    then b'\\' ∷ b'b' ∷ []
    else if c == 12
    then b'\\' ∷ b'f' ∷ []
    else if c == 10
    then b'\\' ∷ b'n' ∷ []
    else if c == 13
    then b'\\' ∷ b'r' ∷ []
    else if c == 9
    then b'\\' ∷ b't' ∷ []
    else if ltb c 32
    then b'\\' ∷ b'u' ∷ 48 ∷ 48 ∷ hex_digit (c / 16) ∷ hex_digit (c % 16) ∷ []
    else c ∷ []

escapes : Text → Bytes
unfolding escape
escapes [] = []
escapes (c ∷ rest) = escape c ++ escapes rest

unfoldable pub write_json_string : Text → Bytes
unfolding escapes
write_json_string t = b'"' ∷ (escapes t ++ b'"' ∷ [])

sort_keys : List (Text × Bytes) → List (Text × Bytes)
unfolding sort_by text_le
sort_keys es = sort_by (λ e f. text_le e.0 f.0) es

-- items with commas between
join : List Bytes → Bytes
join [] = []
join (b ∷ []) = b
join (b ∷ c ∷ bs) = b ++ (b',' ∷ join (c ∷ bs))

entries : List (Text × Bytes) → List Bytes
unfolding write_json_string
entries [] = []
entries ((key, written) ∷ es) = (write_json_string key ++ (b':' ∷ written)) ∷ entries es

write_number : Number → Fallible Bytes
write_number (integer (pos n)) = ok (decimal n)
write_number (integer (negsuc n)) = ok (b'-' ∷ decimal (suc n))
write_number (float t) = err (internal "non-integer number in signed document")

unfoldable mutual
  unfolding write_number write_json_string join entries sort_keys

  pub write_canonical : Value → Fallible Bytes
  write_canonical null = ok (text "null")
  write_canonical (bool flag) = ok (if flag then text "true" else text "false")
  write_canonical (number n) = write_number n
  write_canonical (string t) = ok (write_json_string t)
  write_canonical (array items) =
      write_items items >>= λ written. ok (b'[' ∷ (join written ++ b']' ∷ []))
  write_canonical (object fields) = write_fields fields >>= λ written.
      ok (b'{' ∷ (join (entries (sort_keys written)) ++ b'}' ∷ []))

  pub write_items : Values → Fallible (List Bytes)
  write_items nil = ok []
  write_items (cons v rest) = write_canonical v >>= λ b. write_items rest >>= λ bs. ok (b ∷ bs)

  pub write_fields : Fields → Fallible (List (Text × Bytes))
  write_fields end = ok []
  write_fields (field key v rest) =
      write_canonical v >>= λ b. write_fields rest >>= λ bs. ok ((key, b) ∷ bs)

remove_all : List Text → Fields → Fields
unfolding remove_field
remove_all [] fields = fields
remove_all (key ∷ keys) fields = remove_all keys (remove_field key fields)

-- the top level's entries less those named
unfoldable pub omit : List Text → Value → Value
unfolding remove_all
omit omitting (object fields) = object (remove_all omitting fields)
omit omitting v = v

unfoldable pub canonical_bytes : Value → List Text → Fallible Bytes
unfolding omit
canonical_bytes value omitting = write_canonical (omit omitting value)
