-- ===== src/Engine/Values.antt =====
-- Encoded values of workloads/no_sql_db/wasm-src/dbdata.c and dbdata.h. A word holds a small value with
-- marks in its low bits, or the offset of an object with marks in its low bits. Words are numbers below
-- 2 ^ 32; the shifts of signed words are written out on them. `|` and `& ~` of marks are sums and
-- differences. Logging (USE_DBLOG) is not compiled in. The Boolean arguments are answers of `dbcheck`.
pub mod Types
pub mod Integers
use wasm_cloud_computing_ben.Prelude.{
  ℕ, ◌+◌, ◌-◌, ◌*◌, ◌/◌, ◌%◌, ◌^◌, ◌≤◌, Bool, true, false, if◌then◌else◌, ltb, leb, ◌==◌, ◌&&◌,
  ◌||◌, not,
}
use wasm_cloud_computing_ben.Prelude.Int.{ℤ, pos, negsuc, neg, to_u32}
use wasm_cloud_computing_ben.Engine.{State, dbfetch, dbstore, unmarked}
use wasm_cloud_computing_ben.Engine.Fixlen.{wg_alloc_fixlen_object}

-- The types of values.
abbrev pub wg_nulltype : ℤ
wg_nulltype = pos 1

abbrev pub wg_recordtype : ℤ
wg_recordtype = pos 2

abbrev pub wg_inttype : ℤ
wg_inttype = pos 3

abbrev pub wg_doubletype : ℤ
wg_doubletype = pos 4

abbrev pub wg_strtype : ℤ
wg_strtype = pos 5

abbrev pub wg_chartype : ℤ
wg_chartype = pos 9

abbrev pub wg_fixpointtype : ℤ
wg_fixpointtype = pos 10

abbrev pub wg_datetype : ℤ
wg_datetype = pos 11

abbrev pub wg_timetype : ℤ
wg_timetype = pos 12

abbrev pub wg_anonconsttype : ℤ
wg_anonconsttype = pos 13

abbrev pub wg_vartype : ℤ
wg_vartype = pos 14

abbrev pub wg_illegal : ℕ
wg_illegal = 0xff

-- `w << k` and `w >> k` of a signed word, for `m = 2 ^ k`.
abbrev pub shift_left : ℕ → ℕ → ℕ
shift_left m w = w * m % 2 ^ 32

abbrev pub shift_right : ℕ → ℕ → ℕ
shift_right m w = if leb (2 ^ 31) w then w / m + (2 ^ 32 - 2 ^ 32 / m) else w / m

-- The signed number of a word.
abbrev pub signed : ℕ → ℤ
signed w = if leb (2 ^ 31) w then neg (2 ^ 32 - w) else pos w

unfoldable pub fits_smallint : ℕ → Bool
fits_smallint i = shift_right 8 (shift_left 8 i) == i

unfoldable pub encode_smallint : ℕ → ℕ
encode_smallint i = shift_left 8 i + 3

unfoldable pub decode_smallint : ℕ → ℕ
decode_smallint i = shift_right 8 i

-- The offset of a word ends in two zero bits.
unfoldable pub encode_fullint_offset : ℕ → ℕ
encode_fullint_offset i = i + 1

unfoldable pub decode_fullint_offset : ℕ → ℕ
decode_fullint_offset i = unmarked i

unfoldable pub isptr : ℕ → Bool
isptr i = not (i == 0) && not (i % 4 == 3)

unfoldable pub isdatarec : ℕ → Bool
isdatarec i = i % 8 == 0

unfoldable pub isfullint : ℕ → Bool
isfullint i = i % 4 == 1

unfoldable pub islongstr : ℕ → Bool
islongstr i = i % 8 == 4

unfoldable pub issmallint : ℕ → Bool
issmallint i = i % 8 == 3

unfoldable pub isvar : ℕ → Bool
isvar i = i % 16 == 7

unfoldable pub isdate : ℕ → Bool
isdate i = i % 256 == 0x2f

unfoldable pub istime : ℕ → Bool
istime i = i % 256 == 0x3f

unfoldable pub isimmediatedata : ℕ → Bool
isimmediatedata i = i == 0 || (not (isptr i) && not (isfullint i))

unfoldable pub wg_encode_null : Bool → Bool → ℕ
wg_encode_null is_db is_null = if is_db && is_null then 0 else wg_illegal

-- The state is that of the area of words.
unfoldable pub wg_encode_int : Bool → State → ℕ → ℕ × State
wg_encode_int is_db s value =
    let (offset, s') = wg_alloc_fixlen_object s in
    if not is_db
    then (wg_illegal, s)
    else if fits_smallint value
    then (encode_smallint value, s)
    else if offset == 0
    then (wg_illegal, s')
    else (encode_fullint_offset offset, dbstore s' offset value)

unfoldable pub wg_decode_int : Bool → State → ℕ → ℕ
wg_decode_int is_db s value =
    if not is_db
    then 0
    else if issmallint value
    then decode_smallint value
    else if isfullint value
    then dbfetch s (decode_fullint_offset value)
    else 0

-- A `char` is signed.
unfoldable pub wg_encode_char : Bool → ℤ → ℕ
wg_encode_char is_db c = if is_db then shift_left 256 (to_u32 c) + 0x1f else wg_illegal

unfoldable pub wg_decode_char : Bool → ℕ → ℤ
wg_decode_char is_db value =
    let byte = shift_right 256 value % 256 in
    if not is_db then pos 0 else if ltb byte 128 then pos byte else neg (256 - byte)

-- `MAXDATE` and `-MINDATE`.
abbrev pub maxdate : ℕ
maxdate = 8323200

unfoldable pub fits_date : ℤ → Bool
fits_date (pos n) = leb n maxdate
fits_date (negsuc n) = leb (n + 1) maxdate

unfoldable pub wg_encode_date : Bool → ℤ → ℕ
wg_encode_date is_db date =
    if is_db && fits_date date then shift_left 256 (to_u32 date) + 0x2f else wg_illegal

unfoldable pub wg_decode_date : Bool → ℕ → ℤ
wg_decode_date is_db value = if is_db && isdate value then signed (shift_right 256 value) else pos 0

abbrev pub maxtime : ℕ
maxtime = 8640000

unfoldable pub fits_time : ℤ → Bool
fits_time (pos n) = leb n maxtime
fits_time (negsuc n) = false

unfoldable pub wg_encode_time : Bool → ℤ → ℕ
wg_encode_time is_db time =
    if is_db && fits_time time then shift_left 256 (to_u32 time) + 0x3f else wg_illegal

-- The shift is that of an unsigned word.
unfoldable pub wg_decode_time : Bool → ℕ → ℤ
wg_decode_time is_db value = if is_db && istime value then pos (value / 256) else pos 0

unfoldable pub fits_var : ℕ → Bool
fits_var i = shift_right 16 (shift_left 16 i) == i

unfoldable pub wg_encode_var : Bool → ℕ → ℕ
wg_encode_var is_db varnr = if is_db && fits_var varnr then shift_left 16 varnr + 7 else wg_illegal

-- The word of -1 stands for a failure.
unfoldable pub wg_decode_var : Bool → ℕ → ℕ
wg_decode_var is_db value = if not is_db || value == 0 then 2 ^ 32 - 1 else shift_right 16 value

-- The type of a value whose low bits are not those of a pointer.
unfoldable pub immediate_type : ℕ → ℤ
immediate_type value =
    let byte = value % 256 in
    if isvar value
    then wg_vartype
    else if issmallint value
    then wg_inttype
    else if byte == 0x1f
    then wg_chartype
    else if byte == 0xf
    then wg_fixpointtype
    else if byte == 0x2f
    then wg_datetype
    else if byte == 0x3f
    then wg_timetype
    else if byte == 0x4f
    then wg_strtype
    else if byte == 0x5f
    then wg_anonconsttype
    else neg 1

-- The type of a pointer; that of a long string stands in its second word.
unfoldable pub pointer_type : State → ℕ → ℤ
pointer_type s value =
    let mark = value % 8 in
    if mark == 0
    then wg_recordtype
    else if mark == 4
    then pos (dbfetch s (value - 4 + 4) % 256)
    else if mark == 6
    then wg_strtype
    else if mark == 2
    then wg_doubletype
    else if mark == 1 || mark == 5
    then wg_inttype
    else neg 1

unfoldable pub wg_get_encoded_type : Bool → State → ℕ → ℤ
wg_get_encoded_type is_db s value =
    if not is_db
    then pos 0
    else if value == 0
    then wg_nulltype
    else if value % 4 == 3
    then immediate_type value
    else pointer_type s value
