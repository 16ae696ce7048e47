-- ===== src/Tools/Timestamp.antt =====
-- `parse_timestamp_repr` of tools/data_definitions.py: the repr of a datetime, which the processes
-- send in place of the object.
use nimbus_io.Prelude.{
  ℕ, zero, suc, ◌+◌, ◌-◌, ◌*◌, ◌%◌, ◌≡◌, refl, Bool, ◌&&◌, ◌||◌, not, Option, none, some, [], ◌∷◌,
  ltb, leb, ◌==◌, if◌then◌else◌, Text, codes, length,
}

-- the fields of `datetime.datetime`
pub record Timestamp : Type 0 where
  pub year : ℕ
  pub month : ℕ
  pub day : ℕ
  pub hour : ℕ
  pub minute : ℕ
  pub second : ℕ
  pub microsecond : ℕ

is_leap : ℕ → Bool
is_leap y = ((y % 4) == 0) && (not ((y % 100) == 0) || ((y % 400) == 0))

days_in_month : ℕ → ℕ → ℕ
unfolding is_leap
days_in_month y m =
    if m == 2
    then (if is_leap y then 29 else 28)
    else if (m == 4) || (m == 6) || (m == 9) || (m == 11)
    then 30
    else 31

-- The ranges that the constructor `datetime` accepts; it raises ValueError outside of them.
unfoldable pub is_datetime : Timestamp → Bool
unfolding days_in_month
is_datetime t =
    leb 1 t.year
    && leb t.year 9999
    && leb 1 t.month
    && leb t.month 12
    && leb 1 t.day
    && leb t.day (days_in_month t.year t.month)
    && ltb t.hour 24
    && ltb t.minute 60
    && ltb t.second 60
    && ltb t.microsecond 1000000

-- Earlier, as the database compares timestamps.
abbrev serial : Timestamp → ℕ
serial t =
    (((((t.year * 12 + t.month) * 31 + t.day) * 24 + t.hour) * 60 + t.minute) * 60 + t.second)
      * 1000000
    + t.microsecond

unfoldable pub before : Timestamp → Timestamp → Bool
before s t = ltb (serial s) (serial t)

-- `\d{lo,hi}`: at most `hi` digits, as many as there are, read as a decimal number; fewer than
-- `lo` do not match. What follows such a group is never a digit, so it is never shortened again.
pub digits : ℕ → ℕ → ℕ → Text → Option (ℕ × Text)
digits lo zero n s = if lo == 0 then some (n, s) else none
digits lo (suc hi) n [] = if lo == 0 then some (n, []) else none
digits lo (suc hi) n (c ∷ s) =
    let rest = digits (lo - 1) hi (n * 10 + (c - 48)) s in
    if leb 48 c && leb c 57 then rest else if lo == 0 then some (n, c ∷ s) else none

-- a literal of the expression
pub literal : Text → Text → Option Text
literal [] s = some s
literal (c ∷ p) [] = none
literal (c ∷ p) (d ∷ s) = if c == d then literal p s else none

-- `.`: any character but a newline
any_char : Text → Option Text
any_char [] = none
any_char (c ∷ s) = if c == 10 then none else some s

-- `\s`
space : Text → Option Text
space [] = none
space (c ∷ s) = if (c == 32) || (leb 9 c && leb c 13) then some s else none

-- `$`: the end, or a last newline
at_end : Text → Option (Unit {0})
at_end [] = some tt
at_end (c ∷ []) = if c == 10 then some tt else none
at_end (c ∷ d ∷ s) = none

infixl 5 ◌>>=◌
abbrev ◌>>=◌ : {A B : Type 0} → Option A → (A → Option B) → Option B
none >>= f = none
some a >>= f = f a

-- `,\s` and a group of digits
next_group : ℕ → ℕ → Text → Option (ℕ × Text)
unfolding literal space digits
next_group lo hi s = do s₁ ← literal (codes ",") s; s₂ ← space s₁; digits lo hi 0 s₂

-- ValueError, of the expression or of the constructor, is `none`.
unfoldable pub parse_timestamp_repr : Text → Option Timestamp
unfolding literal any_char digits next_group at_end is_datetime
parse_timestamp_repr repr = do
  s₁ ← literal (codes "datetime") repr
  s₂ ← any_char s₁
  s₃ ← literal (codes "datetime(") s₂
  (year, s₄) ← digits 4 4 0 s₃
  (month, s₅) ← next_group 1 2 s₄
  (day, s₆) ← next_group 1 2 s₅
  (hour, s₇) ← next_group 1 2 s₆
  (minute, s₈) ← next_group 1 2 s₇
  (second, s₉) ← next_group 1 2 s₈
  (microsecond, s₁₀) ← next_group 1 (length s₉) s₉
  s₁₁ ← literal (codes ")") s₁₀
  _ ← at_end s₁₁
  let t : Timestamp = record {
    year = year;
    month = month;
    day = day;
    hour = hour;
    minute = minute;
    second = second;
    microsecond = microsecond;
  }
  if is_datetime t then some t else none

parse_sample :
    parse_timestamp_repr (codes "datetime.datetime(2011, 6, 30, 13, 52, 34, 720271)")
    ≡ some (record {
      year = 2011;
      month = 6;
      day = 30;
      hour = 13;
      minute = 52;
      second = 34;
      microsecond = 720271;
    })
unfolding parse_timestamp_repr
parse_sample = refl

parse_whole_second :
    parse_timestamp_repr (codes "datetime.datetime(2011, 6, 30, 13, 52, 34)") ≡ none
unfolding parse_timestamp_repr
parse_whole_second = refl
