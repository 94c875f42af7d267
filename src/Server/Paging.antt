-- ===== src/Server/Paging.antt =====
-- The pages of a list in cmd/server: `parseIntDefault` and `clampReviewPagination` of
-- review_handlers.go, over 64-bit integers with their wrap-around.
use Prim.Native.Char.{code}
use iroum_ax.Prelude.{
  String, ℕ, Bool, true, false, ◌+◌, ◌-◌, ◌*◌, ◌%◌, ◌≤◌, ◌<◌, Option, none, some, if◌then◌else◌,
  ◌==◌, ◌≡◌, refl, ltb, leb, arith, ◌&&◌,
}
use iroum_ax.Prelude.Text.{eqb, has_prefix}

abbrev pub word : ℕ
word = 18446744073709551616

abbrev pub half_word : ℕ
half_word = 9223372036854775808

-- The loop from a character that is not the first: the digits read so far, or none at a character
-- that is no digit. A number is the pattern of its 64 bits.
unfoldable pub digits_from : ℕ → String → Option ℕ
digits_from n String.[] = some n
digits_from n (String.◌∷◌ c s) =
    let rest = digits_from ((n * 10 + (code c - 48)) % word) s in
    if ltb (code c) 48 then none else if ltb 57 (code c) then none else rest

-- The first character may be a minus, which is passed over.
unfoldable pub magnitude : String → Option ℕ
unfolding digits_from
magnitude String.[] = some 0
magnitude (String.◌∷◌ c s) =
    if eqb (code c) 45 then digits_from 0 s else digits_from 0 (String.◌∷◌ c s)

abbrev pub signed : Bool → ℕ → Option ℕ → ℕ
signed negative default none = default
signed true default (some n) = (word - n) % word
signed false default (some n) = n

unfoldable pub parse_int_default : String → ℕ → ℕ
unfolding magnitude has_prefix
parse_int_default s default =
    if s == "" then default else signed (has_prefix s "-") default (magnitude s)

-- `v > 0` of an `int`.
abbrev pub is_positive : ℕ → Bool
is_positive v = ltb 0 v && ltb v half_word

abbrev pub default_list_limit : ℕ
default_list_limit = 50

abbrev pub max_list_limit : ℕ
max_list_limit = 500

-- A limit that is given, or the default, cut at the maximum; and an offset that is given, or 0.
unfoldable pub clamp_limit : ℕ → ℕ
clamp_limit v =
    let limit = if is_positive v then v else default_list_limit in
    if ltb max_list_limit limit then max_list_limit else limit

unfoldable pub clamp_offset : ℕ → ℕ
clamp_offset v = if is_positive v then v else 0

unfoldable pub clamp_review_pagination : String → String → ℕ × ℕ
unfolding parse_int_default clamp_limit clamp_offset
clamp_review_pagination raw_limit raw_offset =
    (clamp_limit (parse_int_default raw_limit 0), clamp_offset (parse_int_default raw_offset 0))

clamp_limit_bounds : (v : ℕ) → (1 ≤ clamp_limit v) × (clamp_limit v ≤ 500)
unfolding clamp_limit
clamp_limit_bounds v = ground arith

clamp_offset_bound : (v : ℕ) → clamp_offset v < half_word
unfolding clamp_offset
clamp_offset_bound v = ground arith

-- Whatever texts a query holds, numbers beyond 64 bits and signs included, the limit of a page is from
-- 1 to 500 and its offset is a non-negative `int`.
pub clamp_review_pagination_bounds :
    (raw_limit raw_offset : String)
    → (1 ≤ (clamp_review_pagination raw_limit raw_offset).0)
      × ((clamp_review_pagination raw_limit raw_offset).0 ≤ 500)
      × ((clamp_review_pagination raw_limit raw_offset).1 < half_word)
unfolding clamp_review_pagination
clamp_review_pagination_bounds raw_limit raw_offset =
    let (low, high) = clamp_limit_bounds (parse_int_default raw_limit 0) in
    (low, high, clamp_offset_bound (parse_int_default raw_offset 0))

overflowing : clamp_review_pagination "18446744073709551623" "-3" ≡ (7, 0)
unfolding clamp_review_pagination
overflowing = refl

-- `strconv.Atoi`, none for an error of syntax or of range; a number is the pattern of its 64 bits.
unfoldable pub all_digits : ℕ → String → Option ℕ
all_digits n String.[] = some n
all_digits n (String.◌∷◌ c s) =
    let rest = all_digits (n * 10 + (code c - 48)) s in
    if ltb (code c) 48 then none else if ltb 57 (code c) then none else rest

unfoldable pub some_digits : String → Option ℕ
unfolding all_digits
some_digits String.[] = none
some_digits (String.◌∷◌ c s) = all_digits 0 (String.◌∷◌ c s)

-- The largest magnitude is one more for a negative number.
abbrev pub in_range : Bool → Option ℕ → Option ℕ
in_range negative none = none
in_range true (some n) = if leb n half_word then some ((word - n) % word) else none
in_range false (some n) = if ltb n half_word then some n else none

unfoldable pub atoi : String → Option ℕ
unfolding some_digits
atoi String.[] = none
atoi (String.◌∷◌ c s) =
    if eqb (code c) 45
    then in_range true (some_digits s)
    else if eqb (code c) 43
    then in_range false (some_digits s)
    else in_range false (some_digits (String.◌∷◌ c s))

-- `if v, err := strconv.Atoi(raw); err == nil && v > 0`.
abbrev pub positive_or : ℕ → Option ℕ → ℕ
positive_or default none = default
positive_or default (some v) = if is_positive v then v else default

-- `clampPagination` of score_handlers.go.
unfoldable pub clamp_pagination : String → String → ℕ × ℕ
unfolding atoi
clamp_pagination raw_limit raw_offset =
    let limit = positive_or default_list_limit (atoi raw_limit) in
    (if ltb max_list_limit limit then max_list_limit else limit, positive_or 0 (atoi raw_offset))
