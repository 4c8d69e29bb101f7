-- ===== src/Json/Decode.antt =====
-- internal/strictjson/parser.go: what `json.Decoder.Decode`, with `UseNumber`, makes of a document
-- that the scanner has accepted: a value, its numbers kept as text. `none` is a decoder's error.
use repost_go.Json.Scan.{ok, skip_space, number, slice}
use repost_go.Json.Strings.{string_end, unquote}
use repost_go.Prelude.{
  ◌*◌, ℕ, zero, suc, ◌+◌, Bool, true, false, Option, none, some, [], ◌∷◌, Bytes, length, drop,
  equal, ◌==◌, if◌then◌else◌,
}
use repost_go.Text.{has_prefix}

mutual
  pub data Value : Type 0 where
    null : Value
    boolean : Bool → Value
    num : Bytes → Value
    str : Bytes → Value
    arr : Items → Value
    obj : Fields → Value

  pub data Items : Type 0 where
    no_items : Items
    item : Value → Items → Items

  pub data Fields : Type 0 where
    no_fields : Fields
    field : Bytes → Value → Fields → Fields

-- A decoder reads a value and returns it with the text behind it.
abbrev Read {ℓ} : Type ℓ → Type ℓ
Read A = Bytes → Option (A × Bytes)

infixl 5 ◌>=>◌
abbrev ◌>=>◌ {ℓ κ} : {A : Type ℓ} {B : Type κ} → Option A → (A → Option B) → Option B
none >=> f = none
some a >=> f = f a

word : Bytes → Value → Read Value
unfolding has_prefix
word text v s = if has_prefix s text then some (v, drop (length text) s) else none

-- A literal from behind its opening quote.
read_string : Read Bytes
unfolding string_end unquote
read_string s = elim (string_end (suc (length s)) s) [
  | ok end ↦ elim (unquote (suc (length s)) (slice s end)) [ none ↦ none | some v ↦ some (v, end) ]
  | _ ↦ none
]

scalar_at : ℕ → Bytes → Option (Value × Bytes)
unfolding word read_string number
scalar_at c s =
    if c == b'"'
    then (read_string (drop 1 s) >=> λ (v, r). some (str v, r))
    else if c == b't'
    then word (b't' ∷ b'r' ∷ b'u' ∷ b'e' ∷ []) (boolean true) s
    else if c == b'f'
    then word (b'f' ∷ b'a' ∷ b'l' ∷ b's' ∷ b'e' ∷ []) (boolean false) s
    else if c == b'n'
    then word (b'n' ∷ b'u' ∷ b'l' ∷ b'l' ∷ []) null s
    else elim (number (record { rest = s; tokens = 0 })) [
      | ok t ↦ some (num (slice s t.rest), t.rest)
      | _ ↦ none
    ]

-- Behind an item: the closing byte, or a comma.
abbrev after_item {ℓ} :
    {A : Type ℓ} → ℕ → A → (Bytes → Option (A × Bytes)) → Bytes → Option (A × Bytes)
after_item close nothing more [] = none
after_item close nothing more (c ∷ cs) =
    if c == close then some (nothing, cs) else if c == b',' then more cs else none

abbrev opens :
    (Bytes → Option (Value × Bytes))
    → (Bytes → Option (Value × Bytes))
    → Bytes
    → Option (Value × Bytes)
opens as_object as_array [] = none
opens as_object as_array (c ∷ cs) =
    if c == b'{' then as_object cs else if c == b'[' then as_array cs else scalar_at c (c ∷ cs)

after_colon : Bytes → Bytes → Option (Bytes × Bytes)
after_colon k [] = none
after_colon k (c ∷ cs) = if c == b':' then some (k, cs) else none

-- A name and its colon, from before the opening quote.
name : Read Bytes
unfolding read_string skip_space after_colon
name [] = none
name (q ∷ cs) =
    if q == b'"' then (read_string cs >=> λ (k, r). after_colon k (skip_space r)) else none

abbrev closes {ℓ} : {A : Type ℓ} → ℕ → A → (Bytes → Option (A × Bytes)) → Bytes → Option (A × Bytes)
closes close nothing more [] = none
closes close nothing more (c ∷ cs) = if c == close then some (nothing, cs) else more (c ∷ cs)

unfoldable mutual
  unfolding scalar_at name skip_space

  pub decode_value : ℕ → Bytes → Option (Value × Bytes)
  decode_value zero s = none
  decode_value (suc f) s = opens (decode_object f) (decode_array f) (skip_space s)

  pub decode_object : ℕ → Bytes → Option (Value × Bytes)
  decode_object zero s = none
  decode_object (suc f) s =
      closes b'}' no_fields (decode_fields f) (skip_space s) >=> λ (fs, r). some (obj fs, r)

  pub decode_fields : ℕ → Bytes → Option (Fields × Bytes)
  decode_fields zero s = none
  decode_fields (suc f) s = name (skip_space s) >=> λ (k, r). decode_value f r >=> λ (v, t).
      after_item b'}' no_fields (decode_fields f) (skip_space t) >=> λ (fs, u).
      some (field k v fs, u)

  pub decode_array : ℕ → Bytes → Option (Value × Bytes)
  decode_array zero s = none
  decode_array (suc f) s =
      closes b']' no_items (decode_items f) (skip_space s) >=> λ (is, r). some (arr is, r)

  pub decode_items : ℕ → Bytes → Option (Items × Bytes)
  decode_items zero s = none
  decode_items (suc f) s = decode_value f s >=> λ (v, t).
      after_item b']' no_items (decode_items f) (skip_space t) >=> λ (is, u). some (item v is, u)

-- `decoder.Decode`: the first value of the text.
unfoldable pub decode : Bytes → Option Value
unfolding decode_value
decode s = decode_value (4 * length s + 4) s >=> λ (v, r). some v

-- `object[name]` on the decoded map; where a key is repeated the last value stands.
unfoldable pub lookup_field : Bytes → Fields → Option Value
unfolding equal
lookup_field k no_fields = none
lookup_field k (field j v fs) = elim (lookup_field k fs) [
  | some w ↦ some w
  | none ↦ if equal j k then some v else none
]
