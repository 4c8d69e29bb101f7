-- ===== src/Operation/Keys.antt =====
-- operation.go, config.go and version.go: the texts that the headers of an attempt are made of.
use repost_go.Prelude.{
  ℕ, ◌+◌, Bool, true, false, not, ◌&&◌, ◌||◌, none, some, List, [], ◌∷◌, ◌++◌, Bytes, length, drop,
  ltb, get_elem?, ◌==◌, if◌then◌else◌,
}
use repost_go.Response.{HeaderField}
use repost_go.Text.{all_bytes, codes, has_prefix, within}

abbrev pub printable : ℕ → Bool
printable = within 0x20 0x7e

abbrev first_is : ℕ → Bytes → Bool
first_is b [] = false
first_is b (c ∷ cs) = c == b

unfoldable pub last_is : ℕ → Bytes → Bool
last_is b [] = false
last_is b (c ∷ []) = c == b
last_is b (c ∷ d ∷ cs) = last_is b (d ∷ cs)

-- Of a printable text only the first byte of a rune is tested, and no printable byte is part of a longer
-- rune, so the loop over the runes tests every byte.
unfoldable pub valid_idempotency_key : Bytes → Bool
unfolding all_bytes last_is
valid_idempotency_key v =
    not (length v == 0 || ltb 255 (length v) || first_is b' ' v || last_is b' ' v)
    && all_bytes printable v

unfoldable pub valid_user_agent_suffix : Bytes → Bool
unfolding all_bytes last_is
valid_user_agent_suffix v =
    not (length v == 0 || ltb 256 (length v) || first_is b' ' v || last_is b' ' v)
    && all_bytes printable v

unfoldable pub any_non_space : Bytes → Bool
any_non_space [] = false
any_non_space (c ∷ cs) = not (c == b' ') || any_non_space cs

unfoldable pub valid_credential : Bytes → Bool
unfolding all_bytes any_non_space
valid_credential v =
    not (length v == 0 || ltb 4_096 (length v)) && all_bytes printable v && any_non_space v

abbrev at_is : ℕ → ℕ → Bytes → Bool
at_is i b v = elim (get_elem? v i) [ none ↦ false | some c ↦ c == b ]

-- The loop of `validOperationID` from one place on.
unfoldable pub uuid_from : ℕ → Bytes → Bool
uuid_from i [] = true
uuid_from i (c ∷ cs) =
    (if i == 8 || i == 13 || i == 18 || i == 23
      then c == b'-'
      else within b'0' b'9' c || within b'a' b'f' c)
    && uuid_from (i + 1) cs

unfoldable pub valid_operation_id : Bytes → Bool
unfolding has_prefix uuid_from
valid_operation_id v =
    length v == 39
    && has_prefix v (codes "op_")
    && uuid_from 0 (drop 3 v)
    && at_is 17 b'4' v
    && (at_is 22 b'8' v || at_is 22 b'9' v || at_is 22 b'a' v || at_is 22 b'b' v)

abbrev pub version : Bytes
version = codes "0.3.0"

unfoldable pub operation_user_agent : Bytes → Bytes
operation_user_agent suffix =
    if length suffix == 0
    then codes "repost-client-go/" ++ version
    else codes "repost-client-go/" ++ version ++ codes " " ++ suffix

-- The headers of every attempt.
unfoldable pub attempt_headers : Bytes → Bytes → Bytes → List HeaderField
attempt_headers api_key user_agent idempotency_key =
    record { name = codes "authorization"; value = codes "Bearer " ++ api_key }
    ∷ record { name = codes "content-type"; value = codes "application/json" }
    ∷ record { name = codes "accept-encoding"; value = codes "gzip" }
    ∷ record { name = codes "user-agent"; value = user_agent }
    ∷ record { name = codes "idempotency-key"; value = idempotency_key }
    ∷ []
