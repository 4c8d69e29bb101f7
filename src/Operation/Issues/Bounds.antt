-- ===== src/Operation/Issues/Bounds.antt =====
-- serialize.go with operation.go: how much of its issues a validation keeps.
use repost_go.Errors.{Error}
use repost_go.Operation.Issues.Keeping.{ShortPath, Keeps, IsKept, add-Keeps}
use repost_go.Operation.Issues.{
  SerializerIssue, SerializerErrors, SerializerError, new_serializer_errors,
  max_validation_issue_path_bytes, add, serializer_operation_error, map_issue,
}
use repost_go.Errors.{ValidationIssue}
use repost_go.Prelude.{
  ℕ, suc, ◌≤◌, ◌≡◌, refl, ap, not, List, [], ◌∷◌, map, Bytes, length, ltb, ◌==◌, arith, All, total,
}

-- How the errors of a validation come about: an issue, an error of another kind, or what the parts of
-- an object or a list gave, added in their order.
mutual
  pub data Origin : Type 0 where
    one : SerializerIssue → Origin
    alien : Origin
    collected : Origins → Origin

  pub data Origins : Type 0 where
    none_more : Origins
    also : Origin → Origins → Origins

mutual
  unfolding add

  pub error_of : Origin → SerializerError
  error_of (one i) = SerializerError.issue i
  error_of alien = SerializerError.foreign
  error_of (collected os) = SerializerError.aggregate (collect new_serializer_errors os)

  pub collect : SerializerErrors → Origins → SerializerErrors
  collect e none_more = e
  collect e (also o os) = collect (add e (error_of o)).0 os

new-Keeps : Keeps 0 new_serializer_errors
new-Keeps = record {
  few = omega arith;
  short = tt;
  paths = refl;
  bytes = omega arith;
  counted = omega arith;
  count = omega arith;
}

mutual
  unfolding error_of IsKept

  error_of-IsKept : (o : Origin) → IsKept (error_of o)
  error_of-IsKept (one i) = tt
  error_of-IsKept alien = tt
  error_of-IsKept (collected os) = collect-Keeps os new_serializer_errors new-Keeps

  collect-Keeps : (os : Origins) (e : SerializerErrors) → Keeps 0 e → Keeps 0 (collect e os)
  collect-Keeps none_more e k = k
  collect-Keeps (also o os) e k =
      collect-Keeps os _ (add-Keeps e (error_of o) k (error_of-IsKept o))

truncated : (n c : ℕ) → n ≤ c → not (c == n) ≡ ltb n c
truncated n c h = ground (arith, h)

length-map_issue : (is : List SerializerIssue) → length (map map_issue is) ≡ length is
length-map_issue [] = refl
length-map_issue (i ∷ is) = ap suc (length-map_issue is)

abbrev path_bytes : List ValidationIssue → ℕ
path_bytes = total (λ i. length i.path)

total-map_issue :
    (is : List SerializerIssue)
    → total (λ i. length i.path) (map map_issue is) ≡ total (λ i. length i.path) is
unfolding map_issue
total-map_issue [] = refl
total-map_issue (i ∷ is) = omega (arith, total-map_issue is)

All-map_issue :
    (is : List SerializerIssue)
    → All ShortPath is
    → All (λ i. length i.path ≤ max_validation_issue_path_bytes) (map map_issue is)
unfolding map_issue
All-map_issue [] a = tt
All-map_issue (i ∷ is) a = (a.0, All-map_issue is a.1)

-- The limits on the issues that an error carries.
abbrev pub Bounded : Error → Type 0
Bounded e =
    (length e.validation_issues ≤ 32)
    × All (λ i. length i.path ≤ 1_024) e.validation_issues
    × (path_bytes e.validation_issues ≤ 16_384)
    × (length e.validation_issues ≤ e.issue_count)
    × (e.issue_count ≤ 2_147_483_647)
    × (e.issues_truncated ≡ ltb (length e.validation_issues) e.issue_count)

-- However the issues of a payload were collected, the error that the caller gets has at most 32 of them,
-- each with a path of at most 1,024 bytes and together with at most 16,384, its count is at least
-- their number and at most the greatest int32, and it says that some are missing exactly if the
-- count is greater than their number.
pub collected-bounds :
    (os : Origins) (operation_id key : Bytes)
    → Bounded (serializer_operation_error (error_of (collected os)) operation_id key)
unfolding serializer_operation_error error_of
collected-bounds os operation_id key =
    let e : SerializerErrors = collect new_serializer_errors os in
    let k : Keeps 0 e = collect-Keeps os new_serializer_errors new-Keeps in
    let n : length (map map_issue e.issues) ≡ length e.issues = length-map_issue e.issues in
    let c : length (map map_issue e.issues) ≤ e.issue_count = omega (arith, n, k.few, k.counted) in
    (
      omega (arith, n, k.few),
      All-map_issue e.issues k.short,
      omega (arith, total-map_issue e.issues, k.paths, k.bytes),
      c,
      k.count,
      truncated (length (map map_issue e.issues)) e.issue_count c,
    )
