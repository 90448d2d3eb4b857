-- ===== src/Utils/Time.antt =====
-- src/common/utils/TimeUtils.hpp: timestamps of PostgreSQL.
-- The C library is the argument `Calendar`: `get_time` is the parse of "%Y-%m-%d %H:%M:%S" into a
-- `std::tm`, which fails with `none`, `strftime` the print in the same format, which is empty where the C
-- function returns 0.
use purity.Common.{ℕ, List, [], ◌∷◌, Option, none, some, Outcome, ok, throw, fault}
use purity.Common.Int.{ℤ}
use purity.Exception.{Exception, bad_timestamp}

pub record Calendar : Type 1 where
  pub Tm : Type 0
  pub get_time : List ℕ → Option Tm
  pub mktime : Tm → ℤ
  pub localtime : ℤ → Tm
  pub strftime : Tm → List ℕ

unfoldable pub from_tm : {T : Type 0} → (T → ℤ) → Option T → Outcome Exception ℤ
from_tm mktime none = throw bad_timestamp
from_tm mktime (some t) = ok (mktime t)

unfoldable pub parse_pg_timestamp : Calendar → List ℕ → Outcome Exception ℤ
parse_pg_timestamp calendar timestamp = from_tm calendar.mktime (calendar.get_time timestamp)

-- `catch (...)`
unfoldable pub caught : Outcome Exception ℤ → Option ℤ
caught (ok t) = some t
caught (throw e) = none
caught fault = none

unfoldable pub parse_pg_timestamp_optional : Calendar → List ℕ → Option ℤ
parse_pg_timestamp_optional calendar [] = none
parse_pg_timestamp_optional calendar (c ∷ timestamp) =
    caught (parse_pg_timestamp calendar (c ∷ timestamp))

unfoldable pub parse_time_point_to_string : Calendar → ℤ → List ℕ
parse_time_point_to_string calendar time_point = calendar.strftime (calendar.localtime time_point)
