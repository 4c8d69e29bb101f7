-- ===== src/Operation/Issues.antt =====
-- serialize.go: the issues that a validation keeps, and operation.go's `serializerOperationError`. An
-- issue's code is one of the strings that the mapping knows, or `unlisted`.
pub mod Keeping
pub mod Bounds
use repost_go.Errors.{
  ErrorCode, DeliveryState, ValidationIssue, ValidationIssueCode, Error, no_error_fields,
}
use repost_go.Prelude.{
  ℕ, zero, suc, ◌+◌, ◌-◌, Bool, true, false, not, ◌&&◌, ◌||◌, Option, none, some, List, [], ◌∷◌,
  ◌++◌, map, Bytes, length, take, ltb, leb, get_elem?, ◌==◌, if◌then◌else◌,
}
use repost_go.Text.{codes}

pub data IssueCode : Type 0 where
  required_field null_not_allowed null_list_element type_mismatch : IssueCode
  non_finite_number invalid_json cycle invalid_unicode unlisted : IssueCode

-- `serializerValidationError`, less what only its text needs.
pub record SerializerIssue : Type 0 where
  pub issue_code : IssueCode
  pub path : Bytes

abbrev pub max_validation_issues : ℕ
max_validation_issues = 32

abbrev pub max_validation_issue_path_bytes : ℕ
max_validation_issue_path_bytes = 1_024

abbrev pub max_validation_path_bytes : ℕ
max_validation_path_bytes = 16_384

abbrev pub validation_path_marker : Bytes
validation_path_marker = codes ".<truncated>"

abbrev pub max_int32 : ℕ
max_int32 = 2_147_483_647

-- `serializerValidationErrors`
pub record SerializerErrors : Type 0 where
  pub issues : List SerializerIssue
  pub issue_count : ℕ
  pub total_path_bytes : ℕ

abbrev pub new_serializer_errors : SerializerErrors
new_serializer_errors = record { issues = []; issue_count = 0; total_path_bytes = 0 }

-- What `errors.As` finds in an error of the serializer.
pub data SerializerError : Type 0 where
  aggregate : SerializerErrors → SerializerError
  issue : SerializerIssue → SerializerError
  foreign : SerializerError

-- Counts are never negative, and an int holds their sums.
unfoldable pub saturating_validation_issue_count : ℕ → ℕ → ℕ
saturating_validation_issue_count current increment =
    if increment == 0
    then current
    else if leb max_int32 (current + increment)
    then max_int32
    else current + increment

-- `utf8.RuneStart`
abbrev rune_start : ℕ → Bool
rune_start c = ltb c 0x80 || leb 0xc0 c

abbrev byte_at : ℕ → Bytes → ℕ
byte_at i s = elim (get_elem? s i) [ none ↦ 0 | some c ↦ c ]

-- The loop back from a byte inside a rune to the rune's first.
unfoldable pub back_to_rune : ℕ → Bytes → ℕ
back_to_rune zero path = zero
back_to_rune (suc n) path =
    let before = back_to_rune n path in if rune_start (byte_at (suc n) path) then suc n else before

-- The longest beginning that ends in '.' or ']', if there is one.
unfoldable pub to_boundary : Bytes → Bytes
to_boundary [] = []
to_boundary (c ∷ cs) =
    let rest = to_boundary cs in
    if not (length rest == 0) then c ∷ rest else if c == b'.' || c == b']' then c ∷ [] else []

-- The loop that takes a name off the end, and leaves a byte.
unfoldable pub drop_name : Bytes → Bytes
unfolding to_boundary
drop_name prefix = if length (to_boundary prefix) == 0 then take 1 prefix else to_boundary prefix

-- `strings.TrimSuffix(prefix, ".")`
unfoldable pub trim_dot : Bytes → Bytes
trim_dot [] = []
trim_dot (c ∷ []) = if c == b'.' then [] else c ∷ []
trim_dot (c ∷ d ∷ cs) = c ∷ trim_dot (d ∷ cs)

unfoldable pub truncate_validation_path : Bytes → Bytes
unfolding back_to_rune drop_name trim_dot
truncate_validation_path path =
    let n = back_to_rune (max_validation_issue_path_bytes - length validation_path_marker) path in
    let prefix = take n path in
    let whole = byte_at n path == b'.' || byte_at n path == b'[' in
    if leb (length path) max_validation_issue_path_bytes
    then path
    else (if whole then prefix else trim_dot (drop_name prefix)) ++ validation_path_marker

unfoldable pub retain : SerializerErrors → SerializerIssue → SerializerErrors
unfolding truncate_validation_path
retain e i =
    let path = truncate_validation_path i.path in
    if leb max_validation_issues (length e.issues)
      || ltb max_validation_path_bytes (e.total_path_bytes + length path)
    then e
    else record e {
      total_path_bytes = e.total_path_bytes + length path;
      issues = e.issues ++ (record i { path = path } ∷ []);
    }

unfoldable pub retain_all : SerializerErrors → List SerializerIssue → SerializerErrors
unfolding retain
retain_all e [] = e
retain_all e (i ∷ is) = retain_all (retain e i) is

abbrev pub count_more : SerializerErrors → ℕ → SerializerErrors
count_more e n = record e { issue_count = saturating_validation_issue_count e.issue_count n }

-- `merge` of an aggregate that is there.
unfoldable pub merge : SerializerErrors → SerializerErrors → SerializerErrors
unfolding retain_all saturating_validation_issue_count
merge e other = retain_all (count_more e other.issue_count) other.issues

-- `add`, and whether it took the error.
unfoldable pub add : SerializerErrors → SerializerError → SerializerErrors × Bool
unfolding merge retain saturating_validation_issue_count
add e (SerializerError.aggregate other) = (merge e other, true)
add e (SerializerError.issue i) = (retain (count_more e 1) i, true)
add e SerializerError.foreign = (e, false)

unfoldable pub public_code : IssueCode → ValidationIssueCode
public_code IssueCode.required_field = ValidationIssueCode.required
public_code IssueCode.null_not_allowed = ValidationIssueCode.null_not_allowed
public_code IssueCode.null_list_element = ValidationIssueCode.null_not_allowed
public_code IssueCode.type_mismatch = ValidationIssueCode.type_mismatch
public_code IssueCode.non_finite_number = ValidationIssueCode.non_finite
public_code IssueCode.invalid_json = ValidationIssueCode.invalid_json
public_code IssueCode.cycle = ValidationIssueCode.cycle
public_code IssueCode.invalid_unicode = ValidationIssueCode.invalid_unicode
public_code IssueCode.unlisted = ValidationIssueCode.type_mismatch

unfoldable pub map_issue : SerializerIssue → ValidationIssue
unfolding public_code
map_issue i = record { code = public_code i.issue_code; path = i.path }

abbrev unknown_issue : ValidationIssue
unknown_issue = record { code = ValidationIssueCode.type_mismatch; path = codes "$" }

unfoldable pub public_issues : SerializerError → List ValidationIssue × ℕ
unfolding map_issue
public_issues (SerializerError.aggregate e) = (map map_issue e.issues, e.issue_count)
public_issues (SerializerError.issue i) = (map_issue i ∷ [], 1)
public_issues SerializerError.foreign = (unknown_issue ∷ [], 1)

unfoldable pub serializer_operation_error : SerializerError → Bytes → Bytes → Error
unfolding public_issues
serializer_operation_error e operation_id key =
    let (issues, count) = public_issues e in
    record no_error_fields {
      code = ErrorCode.validation;
      delivery_state = DeliveryState.not_sent;
      operation_id = operation_id;
      idempotency_key = key;
      validation_issues = issues;
      issue_count = count;
      issues_truncated = not (count == length issues);
    }
