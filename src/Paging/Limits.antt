-- ===== src/Paging/Limits.antt =====
-- The bounds of a page.
use realtime_chat.Common.{
  String, ◌≡◌, inl, inr, Option, none, some, arith, Bool-cases, Bytes, ℤ, ◌≤ℤ◌, leb_ℤ, pos,
}
use realtime_chat.Errors.{Result, ok, err}
use realtime_chat.Validation.{◌>>=◌}
use realtime_chat.Paging.{
  max_limit, Pagination, first_page, parse_int_param, set_limit, set_offset, set_cursors,
  from_request,
}

abbrev pub IsBoundedPage : Pagination → Type 0
IsBoundedPage page =
    (pos 1 ≤ℤ page.limit) × ((page.limit ≤ℤ pos max_limit) × (pos 0 ≤ℤ page.offset))

abbrev IsGood : Result Pagination → Type 0
IsGood (ok page) = IsBoundedPage page
IsGood (err e) = Unit

bind-IsGood :
    {A : Type 0} (r : Result A) (k : A → Result Pagination)
    → ((a : A) → IsGood (k a))
    → IsGood (r >>= k)
bind-IsGood (ok a) k f = f a
bind-IsGood (err e) k f = tt

then-IsGood :
    (r : Result Pagination) (k : Pagination → Result Pagination)
    → IsGood r
    → ((p : Pagination) → IsBoundedPage p → IsGood (k p))
    → IsGood (r >>= k)
then-IsGood (ok p) k g f = f p g
then-IsGood (err e) k g f = tt

set_limit-IsGood : (limit : Option ℤ) → IsGood (set_limit first_page limit)
unfolding set_limit
set_limit-IsGood none = ground arith
set_limit-IsGood (some z) = elim (Bool-cases (leb_ℤ (pos 1) z)) [
  | inl low ↦
      simp (low, set_limit)
        (elim (Bool-cases (leb_ℤ z (pos max_limit))) [
          | inl high ↦ simp high (ground arith)
          | inr high ↦ simp high (ground arith)
        ])
  | inr low ↦ simp (low, set_limit) tt
]

set_offset-IsGood :
    (page : Pagination) (offset : Option ℤ) → IsBoundedPage page → IsGood (set_offset page offset)
unfolding set_offset
set_offset-IsGood page none b = b
set_offset-IsGood page (some z) b = elim (Bool-cases (leb_ℤ (pos 0) z)) [
  | inl low ↦ simp (low, set_offset) (b.0, (b.1.0, ground arith))
  | inr low ↦ simp (low, set_offset) tt
]

set_cursors-IsGood :
    (query : String → Option Bytes) (page : Pagination)
    → IsBoundedPage page
    → IsGood (set_cursors query page)
unfolding set_cursors
set_cursors-IsGood query page b =
    bind-IsGood (parse_int_param "before" (query "before")) _
      (λ before. bind-IsGood (parse_int_param "after" (query "after")) _ (λ after. b))

from_request-IsGood : (query : String → Option Bytes) → IsGood (from_request query)
unfolding from_request
from_request-IsGood query =
    then-IsGood (parse_int_param "limit" (query "limit") >>= set_limit first_page) _
      (bind-IsGood (parse_int_param "limit" (query "limit")) (set_limit first_page)
        set_limit-IsGood)
      (λ limited b.
        then-IsGood (parse_int_param "offset" (query "offset") >>= set_offset limited)
          (set_cursors query)
          (bind-IsGood (parse_int_param "offset" (query "offset")) (set_offset limited)
            (λ o. set_offset-IsGood limited o b))
          (set_cursors-IsGood query))

-- A page that is accepted has 1 to 100 rows and an offset that is not negative, whatever the query.
pub from_request-bounded :
    (query : String → Option Bytes) (page : Pagination)
    → from_request query ≡ ok page
    → IsBoundedPage page
from_request-bounded query page e = rw e at (from_request-IsGood query)
