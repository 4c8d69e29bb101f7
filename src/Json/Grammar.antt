-- ===== src/Json/Grammar.antt =====
-- internal/strictjson/parser.go: the grammar of the documents. A derivation counts the tokens of its text:
-- the braces and brackets, the names, the strings, the numbers and the words.
pub mod Lexing
pub mod Closing
pub mod Soundness
use repost_go.Json.Scan.{
  ok, Outcome, Scanner, at_head, consume, skip_space, integer_part, fraction, exponent,
  max_nesting_depth, max_members_per_object, max_number_chars,
}
use repost_go.Json.Strings.{string_from}
use repost_go.Json.{member}
use repost_go.Prelude.{
  ℕ, suc, ◌+◌, ◌-◌, ◌≤◌, ◌≡◌, Bool, true, false, ◌⊎◌, List, [], ◌∷◌, Bytes, length, drop, ◌==◌,
}
use repost_go.Text.{codes, has_prefix}

-- A number, with the rest behind it.
pub record NumberAt (s t : Bytes) : Type 0 where
  pub whole : Bytes
  pub part : Bytes
  pub integer : integer_part (consume b'-' s).1 ≡ ok whole
  pub decimals : fraction whole ≡ ok part
  pub power : exponent part ≡ ok t
  pub short : length s - length t ≤ max_number_chars

pub data WordAt : Bytes → Type 0 where
  true_word : WordAt (codes "true")
  false_word : WordAt (codes "false")
  null_word : WordAt (codes "null")

-- The name of a member and its colon: not yet among the names, and within the limit on the members.
pub record NameAt (count : ℕ) (keys : List Bytes) (s key t : Bytes) : Type 0 where
  pub behind : Bytes
  pub quote : at_head (λ c. c == b'"') (skip_space s) ≡ true
  pub literal : string_from true (skip_space s) ≡ ok (key, behind)
  pub is_new : member key keys ≡ false
  pub few : count ≤ max_members_per_object
  pub colon : skip_space behind ≡ b':' ∷ t

mutual
  -- A value at a depth: the text it starts, the rest behind it, and its tokens.
  pub data ValueAt : ℕ → Bytes → Bytes → ℕ → Type 0 where
    a_string :
        {d : ℕ} {s t : Bytes} (v : Bytes)
        → at_head (λ c. c == b'"') s ≡ true
        → string_from false s ≡ ok (v, t)
        → ValueAt d s t 1
    a_number : {d : ℕ} {s t : Bytes} → NumberAt s t → ValueAt d s t 1
    a_word :
        {d : ℕ} {s t : Bytes} (w : Bytes)
        → WordAt w
        → has_prefix s w ≡ true
        → t ≡ drop (length w) s
        → ValueAt d s t 1
    an_object :
        {d : ℕ} {s t : Bytes} {n : ℕ} (r : Bytes)
        → s ≡ b'{' ∷ r
        → d + 1 ≤ max_nesting_depth
        → ObjectAt (d + 1) (skip_space r) t n
        → ValueAt d s t (suc n)
    an_array :
        {d : ℕ} {s t : Bytes} {n : ℕ} (r : Bytes)
        → s ≡ b'[' ∷ r
        → d + 1 ≤ max_nesting_depth
        → ArrayAt (d + 1) (skip_space r) t n
        → ValueAt d s t (suc n)

  pub data ObjectAt : ℕ → Bytes → Bytes → ℕ → Type 0 where
    no_members : {d : ℕ} {s t : Bytes} → s ≡ b'}' ∷ t → ObjectAt d s t 1
    some_members : {d : ℕ} {s t : Bytes} {n : ℕ} → MembersAt d 1 [] s t n → ObjectAt d s t n

  -- By the number of the next member and the names before it.
  pub data MembersAt : ℕ → ℕ → List Bytes → Bytes → Bytes → ℕ → Type 0 where
    a_member :
        {d count : ℕ} {keys : List Bytes} {s t : Bytes} {n m : ℕ} (key u v : Bytes)
        → NameAt count keys s key u
        → ValueAt d (skip_space u) v m
        → MembersEnd d count (key ∷ keys) v t n
        → MembersAt d count keys s t (suc (m + n))

  pub data MembersEnd : ℕ → ℕ → List Bytes → Bytes → Bytes → ℕ → Type 0 where
    last_member :
        {d count : ℕ} {keys : List Bytes} {s t : Bytes}
        → skip_space s ≡ b'}' ∷ t
        → MembersEnd d count keys s t 1
    next_member :
        {d count : ℕ} {keys : List Bytes} {s t : Bytes} {n : ℕ} (r : Bytes)
        → skip_space s ≡ b',' ∷ r
        → MembersAt d (count + 1) keys r t n
        → MembersEnd d count keys s t n

  pub data ArrayAt : ℕ → Bytes → Bytes → ℕ → Type 0 where
    no_elements : {d : ℕ} {s t : Bytes} → s ≡ b']' ∷ t → ArrayAt d s t 1
    some_elements : {d : ℕ} {s t : Bytes} {n : ℕ} → ElementsAt d s t n → ArrayAt d s t n

  pub data ElementsAt : ℕ → Bytes → Bytes → ℕ → Type 0 where
    an_element :
        {d : ℕ} {s t : Bytes} {n m : ℕ} (u : Bytes)
        → ValueAt d (skip_space s) u m
        → ElementsEnd d u t n
        → ElementsAt d s t (m + n)

  pub data ElementsEnd : ℕ → Bytes → Bytes → ℕ → Type 0 where
    last_element : {d : ℕ} {s t : Bytes} → skip_space s ≡ b']' ∷ t → ElementsEnd d s t 1
    next_element :
        {d : ℕ} {s t : Bytes} {n : ℕ} (r : Bytes)
        → skip_space s ≡ b',' ∷ r
        → ElementsAt d r t n
        → ElementsEnd d s t n

-- A document: one value, with nothing but white space around it.
pub record IsDocument (text : Bytes) (n : ℕ) : Type 0 where
  pub behind : Bytes
  pub value : ValueAt 0 (skip_space text) behind n
  pub end : skip_space behind ≡ []
