-- ===== src/Operation/Issues/Keeping.antt =====
-- serialize.go: what a collection of issues keeps to.
use repost_go.Operation.Issues.{
  SerializerIssue, SerializerErrors, SerializerError, max_validation_issues,
  max_validation_issue_path_bytes, max_validation_path_bytes, validation_path_marker, max_int32,
  saturating_validation_issue_count, back_to_rune, to_boundary, drop_name, trim_dot,
  truncate_validation_path, retain, retain_all, count_more, merge, add, rune_start, byte_at,
}
use repost_go.Prelude.{
  ℕ, zero, suc, ◌+◌, ◌-◌, ◌≤◌, ◌≡◌, false, ◌||◌, List, [], ◌∷◌, ◌++◌, Bytes, length, take, min, ltb,
  leb, ◌==◌, if◌then◌else◌, arith, if_P, leb→le, length-append, length-take, All, All-append, total,
}

back_to_rune-le : (n : ℕ) (path : Bytes) → back_to_rune n path ≤ n
unfolding back_to_rune
back_to_rune-le zero path = omega arith
back_to_rune-le (suc n) path =
    if_P (λ k. k ≤ suc n) (rune_start (byte_at (suc n) path)) _ _ (λ _. omega arith)
      λ _. omega (arith, back_to_rune-le n path)

to_boundary-le : (s : Bytes) → length (to_boundary s) ≤ length s
unfolding to_boundary
to_boundary-le [] = omega arith
to_boundary-le (c ∷ cs) = ground (arith, to_boundary-le cs)

trim_dot-le : (s : Bytes) → length (trim_dot s) ≤ length s
unfolding trim_dot
trim_dot-le [] = omega arith
trim_dot-le (c ∷ []) = ground arith
trim_dot-le (c ∷ d ∷ cs) = omega (arith, trim_dot-le (d ∷ cs))

drop_name-le : (s : Bytes) → length (drop_name s) ≤ length s
unfolding drop_name
drop_name-le s =
    if_P (λ t. length t ≤ length s) (length (to_boundary s) == 0) (take 1 s) (to_boundary s)
      (λ _. omega (arith, length-take 1 s)) λ _. to_boundary-le s

truncate-short :
    (path : Bytes) → length (truncate_validation_path path) ≤ max_validation_issue_path_bytes
unfolding truncate_validation_path
truncate-short path =
    let n : ℕ =
      back_to_rune (max_validation_issue_path_bytes - length validation_path_marker) path in
    let P : Bytes → Type 0 = λ t. length t ≤ max_validation_issue_path_bytes in
    let short : length (take n path) ≤ 1_012 =
      omega (arith, length-take n path, back_to_rune-le 1_012 path) in
    if_P P (leb (length path) max_validation_issue_path_bytes) _ _ (λ e. leb→le _ _ e)
      λ _. omega (
        arith,
        length-append
            (if byte_at n path == b'.' || byte_at n path == b'['
              then take n path
              else trim_dot (drop_name (take n path)))
            validation_path_marker,
        short,
        if_P (λ t. length t ≤ length (take n path))
            (byte_at n path == b'.' || byte_at n path == b'[') (take n path)
            (trim_dot (drop_name (take n path))) (λ _. omega arith)
            (λ _. omega (arith, trim_dot-le (drop_name (take n path)), drop_name-le (take n path))),
      )

abbrev pub ShortPath : SerializerIssue → Type 0
ShortPath i = length i.path ≤ max_validation_issue_path_bytes

-- What a collection of issues keeps to, while so many more may still be kept.
pub record Keeps (more : ℕ) (e : SerializerErrors) : Type 0 where
  pub few : length e.issues ≤ max_validation_issues
  pub short : All ShortPath e.issues
  pub paths : total (λ i. length i.path) e.issues ≡ e.total_path_bytes
  pub bytes : e.total_path_bytes ≤ max_validation_path_bytes
  pub counted : min max_validation_issues (length e.issues + more) ≤ e.issue_count
  pub count : e.issue_count ≤ max_int32

total-append :
    (is : List SerializerIssue) (i : SerializerIssue)
    → total (λ j. length j.path) (is ++ (i ∷ [])) ≡ total (λ j. length j.path) is + length i.path
total-append [] i = omega arith
total-append (j ∷ is) i = omega (arith, total-append is i)

room : (a b c d : ℕ) → (leb a b || ltb c d) ≡ false → (suc b ≤ a) × (d ≤ c)
room a b c d h = (ground (arith, h), ground (arith, h))

retain-Keeps :
    (more : ℕ) (e : SerializerErrors) (i : SerializerIssue)
    → Keeps (suc more) e
    → Keeps more (retain e i)
unfolding retain
retain-Keeps more e i k =
    let path : Bytes = truncate_validation_path i.path in
    if_P (Keeps more)
      (leb max_validation_issues (length e.issues)
        || ltb max_validation_path_bytes (e.total_path_bytes + length path))
      _ _
      (λ _. record {
        few = k.few;
        short = k.short;
        paths = k.paths;
        bytes = k.bytes;
        counted = omega (arith, k.counted);
        count = k.count;
      })
      λ h.
        let (free, fits) =
          room max_validation_issues (length e.issues) max_validation_path_bytes
            (e.total_path_bytes + length path) h in
        record {
          few = omega (arith, free, length-append e.issues (record i { path = path } ∷ []));
          short =
              All-append ShortPath e.issues (record i { path = path } ∷ []) k.short
                (truncate-short i.path, tt);
          paths = omega (arith, k.paths, total-append e.issues (record i { path = path }));
          bytes = fits;
          counted =
              omega (arith, k.counted, length-append e.issues (record i { path = path } ∷ []));
          count = k.count;
        }

retain_all-Keeps :
    (is : List SerializerIssue) (e : SerializerErrors)
    → Keeps (length is) e
    → Keeps 0 (retain_all e is)
unfolding retain_all
retain_all-Keeps [] e k = k
retain_all-Keeps (i ∷ is) e k = retain_all-Keeps is (retain e i) (retain-Keeps (length is) e i k)

count_more-Keeps :
    (more n : ℕ) (e : SerializerErrors)
    → more ≤ n
    → n ≤ max_int32
    → Keeps 0 e
    → Keeps more (count_more e n)
unfolding saturating_validation_issue_count
count_more-Keeps more n e l b k = record {
  few = k.few;
  short = k.short;
  paths = k.paths;
  bytes = k.bytes;
  counted = ground (arith, k.counted, l);
  count = ground (arith, k.count, b);
}

-- An error of the serializer whose collections of issues keep to the limits.
unfoldable pub IsKept : SerializerError → Type 0
IsKept (SerializerError.aggregate e) = Keeps 0 e
IsKept _ = Unit

pub add-Keeps :
    (e : SerializerErrors) (x : SerializerError) → Keeps 0 e → IsKept x → Keeps 0 (add e x).0
unfolding add merge IsKept
add-Keeps e (SerializerError.aggregate f) k h =
    retain_all-Keeps f.issues _ (
      count_more-Keeps (length f.issues) f.issue_count e (omega (arith, h.counted, h.few)) h.count
        k)
add-Keeps e (SerializerError.issue i) k h =
    retain-Keeps 0 _ i (count_more-Keeps 1 1 e (omega arith) (omega arith) k)
add-Keeps e SerializerError.foreign k h = k
