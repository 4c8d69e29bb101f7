-- ===== src/Ordered.antt =====
-- ordered.go: JSON objects in the order of their insertion, and the encoder that stops at a limit. The
-- values that encoding/json knows and this file does not look into are leaves, of any type.
pub mod Steps
pub mod Limits
use repost_go.Prelude.{
  ℕ, zero, suc, ◌+◌, ◌-◌, Bool, true, false, Option, none, some, List, [], ◌∷◌, ◌++◌, Bytes, length,
  take, equal, ltb, leb, if◌then◌else◌,
}

-- An object is its keys, which differ, with their values. A nil `*OrderedObject` and a nil
-- `[]any` are none of these.
mutual
  pub data Value (L : Type 0) : Type 0 where
    object : Members L → Value L
    array : Items L → Value L
    text : Bytes → Value L
    leaf : L → Value L

  pub data Members (L : Type 0) : Type 0 where
    no_members : Members L
    member : Bytes → Value L → Members L → Members L

  pub data Items (L : Type 0) : Type 0 where
    no_items : Items L
    item : Value L → Items L → Items L

-- `Set`
unfoldable pub set : {L : Type 0} → Bytes → Value L → Members L → Members L
unfolding equal
set key value no_members = member key value no_members
set key value (member k v ms) =
    let rest = set key value ms in if equal k key then member k value ms else member k v rest

-- One text behind the other, where both are there.
unfoldable pub joined : Option Bytes → Option Bytes → Option Bytes
joined (some s) (some t) = some (s ++ t)
joined _ _ = none

abbrev pub separator : Bool → Bytes
separator is_first = if is_first then [] else b',' ∷ []

module _ {L : Type 0} (encode_text : Bytes → Option Bytes) (encode_leaf : L → Option Bytes) where
  -- `MarshalJSON`, with what encoding/json makes of the arrays.
  unfoldable mutual
    unfolding joined

    pub marshal_json : Value L → Option Bytes
    marshal_json (object ms) =
        joined (some (b'{' ∷ [])) (joined (members_json true ms) (some (b'}' ∷ [])))
    marshal_json (array vs) =
        joined (some (b'[' ∷ [])) (joined (items_json true vs) (some (b']' ∷ [])))
    marshal_json (text s) = encode_text s
    marshal_json (leaf l) = encode_leaf l

    pub members_json : Bool → Members L → Option Bytes
    members_json is_first no_members = some []
    members_json is_first (member k v ms) = joined (some (separator is_first)) (
        joined (encode_text k)
          (joined (some (b':' ∷ [])) (joined (marshal_json v) (members_json false ms))))

    pub items_json : Bool → Items L → Option Bytes
    items_json is_first no_items = some []
    items_json is_first (item v vs) =
        joined (some (separator is_first)) (joined (marshal_json v) (items_json false vs))

pub data EncodeError : Type 0 where
  json_limit encoding_failed : EncodeError

-- The buffer of a `limitedJSONEncoder` behind a step, and the step's error.
pub record Encoded : Type 0 where
  pub buffer : Bytes
  pub error : Option EncodeError

abbrev pub encoded : Bytes → Encoded
encoded buffer = record { buffer = buffer; error = none }

abbrev pub over : Bytes → Encoded
over buffer = record { buffer = buffer; error = some EncodeError.json_limit }

-- The next step, where this one has no error.
unfoldable pub then_on : Option EncodeError → Encoded → (Bytes → Encoded) → Encoded
then_on none e next = next e.buffer
then_on (some x) e next = e

abbrev pub followed : Encoded → (Bytes → Encoded) → Encoded
followed e next = then_on e.error e next

unfoldable pub zeros : ℕ → Bytes
zeros zero = []
zeros (suc n) = 0 ∷ zeros n

-- An int holds the limit and one more.
unfoldable pub write : ℕ → Bytes → Bytes → Encoded
write limit bytes buffer =
    let remaining = limit + 1 - length buffer in
    let more = buffer ++ take remaining bytes in
    if leb (limit + 1) (length buffer)
    then over buffer
    else if ltb limit (length more)
    then over more
    else encoded more

unfoldable pub fill_limit : ℕ → Bytes → Encoded
unfolding zeros
fill_limit limit buffer = over (buffer ++ zeros (limit + 1 - length buffer))

unfoldable pub write_encoded : ℕ → Option Bytes → Bytes → Encoded
unfolding write
write_encoded limit none buffer = record {
  buffer = buffer;
  error = some EncodeError.encoding_failed;
}
write_encoded limit (some bytes) buffer = write limit bytes buffer

abbrev pub write_separator : ℕ → Bool → Bytes → Encoded
write_separator limit is_first buffer =
    if is_first then encoded buffer else write limit (b',' ∷ []) buffer

unfoldable pub limited_answer : Encoded → Option EncodeError → Option Bytes
limited_answer e (some EncodeError.encoding_failed) = none
limited_answer e _ = some e.buffer

module _ {L : Type 0} (encode_text : Bytes → Option Bytes) (encode_leaf : L → Option Bytes)
    (limit : ℕ) where
  unfoldable pub write_text : Bytes → Bytes → Encoded
  unfolding fill_limit write_encoded
  write_text s buffer =
      if ltb (limit + 1 - length buffer) (length s + 2)
      then fill_limit limit buffer
      else write_encoded limit (encode_text s) buffer

  unfoldable mutual
    unfolding write write_encoded write_text then_on

    -- `limitedJSONEncoder.value`
    pub write_value : Value L → Bytes → Encoded
    write_value (object ms) buffer =
        followed (write limit (b'{' ∷ []) buffer)
          λ b. followed (write_members true ms b) λ c. write limit (b'}' ∷ []) c
    write_value (array vs) buffer =
        followed (write limit (b'[' ∷ []) buffer)
          λ b. followed (write_items true vs b) λ c. write limit (b']' ∷ []) c
    write_value (text s) buffer = write_text s buffer
    write_value (leaf l) buffer = write_encoded limit (encode_leaf l) buffer

    pub write_members : Bool → Members L → Bytes → Encoded
    write_members is_first no_members buffer = encoded buffer
    write_members is_first (member k v ms) buffer =
        followed (write_separator limit is_first buffer) λ b. followed (write_text k b) λ c.
          followed (write limit (b':' ∷ []) c)
            λ d. followed (write_value v d) λ e. write_members false ms e

    pub write_items : Bool → Items L → Bytes → Encoded
    write_items is_first no_items buffer = encoded buffer
    write_items is_first (item v vs) buffer =
        followed (write_separator limit is_first buffer)
          λ b. followed (write_value v b) λ c. write_items false vs c

  -- `marshalJSONLimit`
  unfoldable pub marshal_json_limit : Members L → Option Bytes
  unfolding write_value limited_answer
  marshal_json_limit ms = let e = write_value (object ms) [] in limited_answer e e.error
