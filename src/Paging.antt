-- ===== src/Paging.antt =====
-- The paging of lists: include/rtc/dto/pagination.hpp and src/dto/pagination.cpp. The parameters of
-- the query are a function; one that is absent is none.
pub mod Limits
use realtime_chat.Common.{
  ℕ, String, Bool, true, false, not, ◌||◌, Option, none, some, ◌++◌, if◌then◌else◌, Bytes, codes, ℤ,
  leb_ℤ, pos,
}
use realtime_chat.Errors.{Result, ok, err, throw, validation}
use realtime_chat.Validation.{◌>>=◌}
use realtime_chat.Environment.{whole_int64}

abbrev pub default_limit : ℕ
default_limit = 50

abbrev pub max_limit : ℕ
max_limit = 100

pub record Pagination : Type 0 where
  pub limit : ℤ
  pub offset : ℤ
  pub before_id : Option ℤ
  pub after_id : Option ℤ

abbrev pub first_page : Pagination
first_page = record { limit = pos default_limit; offset = pos 0; before_id = none; after_id = none }

abbrev parsed : String → Option ℤ → Result (Option ℤ)
parsed name none = throw validation "Invalid integer query parameter" (codes "param=" ++ codes name)
parsed name (some z) = ok (some z)

unfoldable pub parse_int_param : String → Option Bytes → Result (Option ℤ)
parse_int_param name none = ok none
parse_int_param name (some raw) = parsed name (whole_int64 raw)

unfoldable pub set_limit : Pagination → Option ℤ → Result Pagination
set_limit page none = ok page
set_limit page (some limit) =
    if not (leb_ℤ (pos 1) limit)
    then throw validation "limit must be >= 1" (codes "param=limit")
    else ok (record page { limit = if leb_ℤ limit (pos max_limit) then limit else pos max_limit })

unfoldable pub set_offset : Pagination → Option ℤ → Result Pagination
set_offset page none = ok page
set_offset page (some offset) =
    if not (leb_ℤ (pos 0) offset)
    then throw validation "offset must be >= 0" (codes "param=offset")
    else ok (record page { offset = offset })

unfoldable pub set_cursors : (String → Option Bytes) → Pagination → Result Pagination
unfolding parse_int_param
set_cursors query page = parse_int_param "before" (query "before") >>= λ before.
    parse_int_param "after" (query "after") >>= λ after.
    ok (record page { before_id = before; after_id = after })

unfoldable pub from_request : (String → Option Bytes) → Result Pagination
unfolding parse_int_param set_limit set_offset set_cursors
from_request query =
    (parse_int_param "limit" (query "limit") >>= set_limit first_page) >>= λ limited.
    (parse_int_param "offset" (query "offset") >>= set_offset limited) >>= set_cursors query

abbrev is_given : Option ℤ → Bool
is_given none = false
is_given (some z) = true

unfoldable pub uses_cursor : Pagination → Bool
uses_cursor page = is_given page.before_id || is_given page.after_id
