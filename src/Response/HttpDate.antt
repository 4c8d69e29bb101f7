-- ===== src/Response/HttpDate.antt =====
-- operation_response.go: the canonical dates "Mon, 02 Jan 2006 15:04:05 GMT". `time.Parse` followed
-- by the comparison with `Format` accepts exactly the texts of this form whose fields are in range
-- and whose weekday is that of the date.
use repost_go.Prelude.Int.{ℤ, pos, ◌-ℤ◌}
use repost_go.Prelude.{
  ℕ, zero, suc, ◌+◌, ◌-◌, ◌*◌, ◌/◌, ◌%◌, Bool, true, false, not, ◌&&◌, ◌||◌, Option, none, some,
  List, [], ◌∷◌, Bytes, length, equal, take, drop, leb, ltb, ◌==◌, if◌then◌else◌, get_elem?,
}
use repost_go.Text.{is_digit}

infixl 5 ◌>>=◌
abbrev ◌>>=◌ {ℓ κ} : {A : Type ℓ} {B : Type κ} → Option A → (A → Option B) → Option B
none >>= f = none
some a >>= f = f a

abbrev when {ℓ} : {A : Type ℓ} → Bool → Option A → Option A
when true o = o
when false o = none

-- The number of `n` digits, and what is behind them.
read_digits : ℕ → ℕ → Bytes → Option (ℕ × Bytes)
read_digits zero acc s = some (acc, s)
read_digits (suc n) acc [] = none
read_digits (suc n) acc (c ∷ cs) =
    let rest = read_digits n (acc * 10 + (c - b'0')) cs in if is_digit c then rest else none

read_text : Bytes → Bytes → Option Bytes
read_text [] s = some s
read_text (t ∷ ts) [] = none
read_text (t ∷ ts) (c ∷ cs) = let rest = read_text ts cs in if c == t then rest else none

-- The place of a three-letter name in a row of such names.
index_of : ℕ → ℕ → Bytes → Bytes → Option ℕ
unfolding equal
index_of zero i name names = none
index_of (suc n) i name names =
    let rest = index_of n (i + 1) name (drop 3 names) in
    if equal name (take 3 names) then some i else rest

-- "SunMonTueWedThuFriSat"
abbrev weekdays : Bytes
weekdays =
    b'S' ∷ b'u' ∷ b'n' ∷ b'M' ∷ b'o' ∷ b'n' ∷ b'T' ∷ b'u' ∷ b'e' ∷ b'W' ∷ b'e' ∷ b'd' ∷ b'T' ∷ b'h'
    ∷ b'u' ∷ b'F' ∷ b'r' ∷ b'i' ∷ b'S' ∷ b'a' ∷ b't' ∷ []

-- "JanFebMarAprMayJunJulAugSepOctNovDec"
abbrev months : Bytes
months =
    b'J' ∷ b'a' ∷ b'n' ∷ b'F' ∷ b'e' ∷ b'b' ∷ b'M' ∷ b'a' ∷ b'r' ∷ b'A' ∷ b'p' ∷ b'r' ∷ b'M' ∷ b'a'
    ∷ b'y' ∷ b'J' ∷ b'u' ∷ b'n' ∷ b'J' ∷ b'u' ∷ b'l' ∷ b'A' ∷ b'u' ∷ b'g' ∷ b'S' ∷ b'e' ∷ b'p'
    ∷ b'O' ∷ b'c' ∷ b't' ∷ b'N' ∷ b'o' ∷ b'v' ∷ b'D' ∷ b'e' ∷ b'c' ∷ []

is_leap : ℕ → Bool
is_leap y = y % 4 == 0 && (not (y % 100 == 0) || y % 400 == 0)

-- Days before each month, counted from 0, in a year that is no leap year.
abbrev month_starts : List ℕ
month_starts = 0 ∷ 31 ∷ 59 ∷ 90 ∷ 120 ∷ 151 ∷ 181 ∷ 212 ∷ 243 ∷ 273 ∷ 304 ∷ 334 ∷ 365 ∷ []

month_start : ℕ → ℕ
month_start m = elim (get_elem? month_starts m) [ none ↦ 365 | some d ↦ d ]

leap_day : ℕ → ℕ → ℕ
unfolding is_leap
leap_day y m = if is_leap y && leb 2 m then 1 else 0

days_in_month : ℕ → ℕ → ℕ
unfolding month_start is_leap
days_in_month y m = month_start (m + 1) - month_start m + (if is_leap y && m == 1 then 1 else 0)

-- Days from 1 January of the year 0 to the date; months count from 0, days from 1.
unfoldable pub day_number : ℕ → ℕ → ℕ → ℕ
unfolding month_start leap_day
day_number y m d =
    365 * y + (y + 3) / 4 - (y + 99) / 100 + (y + 399) / 400 + month_start m + leap_day y m + d - 1

-- The zero time is 1 January of the year 1, 366 days after day 0; day 0 is a Saturday.
instant : ℕ → ℕ → ℕ → ℕ → ℤ
instant day hour minute second =
    pos ((((day * 24 + hour) * 60 + minute) * 60 + second) * 1_000_000_000)
    -ℤ pos (366 * 86_400 * 1_000_000_000)

unfoldable pub parse_http_date : Bytes → Option ℤ
unfolding read_digits read_text index_of day_number days_in_month instant
parse_http_date s = do
  weekday ← index_of 7 0 (take 3 s) weekdays
  s₁ ← read_text (b',' ∷ b' ' ∷ []) (drop 3 s)
  (day, s₂) ← read_digits 2 0 s₁
  s₃ ← read_text (b' ' ∷ []) s₂
  month ← index_of 12 0 (take 3 s₃) months
  s₄ ← read_text (b' ' ∷ []) (drop 3 s₃)
  (year, s₅) ← read_digits 4 0 s₄
  s₆ ← read_text (b' ' ∷ []) s₅
  (hour, s₇) ← read_digits 2 0 s₆
  s₈ ← read_text (b':' ∷ []) s₇
  (minute, s₉) ← read_digits 2 0 s₈
  s₁₀ ← read_text (b':' ∷ []) s₉
  (second, s₁₁) ← read_digits 2 0 s₁₀
  end ← read_text (b' ' ∷ b'G' ∷ b'M' ∷ b'T' ∷ []) s₁₁
  when
      (length end == 0
        && leb 1 day
        && leb day (days_in_month year month)
        && ltb hour 24
        && ltb minute 60
        && ltb second 60
        && (day_number year month day + 6) % 7 == weekday)
      (some (instant (day_number year month day) hour minute second))
