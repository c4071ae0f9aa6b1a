-- ===== src/Tests/Settings.antt =====
-- Witnesses for the configuration.
use realtime_chat.Common.{
  is_digit, scan, from_chars, String, refl, Option, none, some, Bytes, codes, pos,
}
use realtime_chat.Errors.{Result, ok}
use realtime_chat.Environment.{Env, all_digits, parse_uint, whole_int64, parse_int64, parse_flag}
use realtime_chat.Settings.{
  default_config, is_production, validate, assign_setting, settings, assign_all, load_from_env,
}
use realtime_chat.Settings.Checks.{IsSound}
use realtime_chat.Settings.Bounds.{IsBounded, load_from_env-IsSound}
use realtime_chat.Paging.{
  Pagination, parse_int_param, set_limit, set_offset, set_cursors, from_request,
}
use realtime_chat.Paging.Limits.{IsBoundedPage, from_request-bounded}

abbrev no_variables : Env
no_variables name = none

abbrev accepted_ratio : Result (Unit {0})
accepted_ratio = ok tt

-- Every parameter is 7.
abbrev sevens : String → Option Bytes
sevens name = some (codes "7")

abbrev page_of_sevens : Pagination
page_of_sevens = record {
  limit = pos 7;
  offset = pos 7;
  before_id = some (pos 7);
  after_id = some (pos 7);
}

load_from_env-IsSound_example : IsSound default_config × IsBounded default_config
unfolding load_from_env assign_all assign_setting settings default_config validate is_production
    parse_uint parse_int64 parse_flag
load_from_env-IsSound_example =
    load_from_env-IsSound no_variables accepted_ratio default_config refl

from_request-bounded_example : IsBoundedPage page_of_sevens
unfolding from_request parse_int_param set_limit set_offset set_cursors whole_int64 all_digits
    is_digit from_chars scan
from_request-bounded_example = from_request-bounded sevens page_of_sevens refl
