-- ===== src/Wa/Format.antt =====
-- internal/wa/media.go: durations, file sizes and file extensions as texts.
pub mod Digits
use wachat.Prelude.{
  ℕ, zero, suc, ◌+◌, ◌*◌, ◌/◌, ◌%◌, ◌^◌, String, Bool, Option, none, some, List, [], ◌∷◌, ◌++◌,
  ◌==◌, nat_eq, text_eq, ltb, if◌then◌else◌, Runes, runes,
}
use wachat.Prelude.Int.{ℤ, pos, negsuc}
use wachat.Prelude.Tables.{map_option}

abbrev pub zero_char : ℕ
zero_char = 48

-- The loop over the digits, last one first, into a buffer with `room` bytes left; writing before
-- its start panics, which is `none`.
unfoldable pub digits_into : ℕ → ℕ → Runes → Option Runes
digits_into zero i acc = if i == 0 then some acc else none
digits_into (suc room) i acc =
    let rest = digits_into room (i / 10) ((zero_char + i % 10) ∷ acc) in
    if i == 0 then some acc else rest

-- The argument is an int: the negation of the least one is itself, and then no digit is written.
unfoldable pub itoa : ℤ → Option Runes
itoa (pos i) = if i == 0 then some (runes "0") else digits_into 20 i []
itoa (negsuc n) =
    if suc n == 2 ^ 63
    then some (runes "-")
    else map_option (λ ds. runes "-" ++ ds) (digits_into 19 (suc n) [])

abbrev pub before : Option Runes → Runes → Option Runes
before o s = map_option (λ ds. ds ++ s) o

abbrev pub joined : Option Runes → Runes → Option Runes → Option Runes
joined none sep b = none
joined (some a) sep b = map_option (λ ds. a ++ sep ++ ds) b

unfoldable pub zeropad2 : ℤ → Option Runes
zeropad2 (pos i) =
    if ltb i 10 then map_option (λ ds. runes "0" ++ ds) (itoa (pos i)) else itoa (pos i)
zeropad2 (negsuc n) = map_option (λ ds. runes "0" ++ ds) (itoa (negsuc n))

-- The seconds are a uint32.
unfoldable pub format_duration : ℕ → Option Runes
format_duration secs =
    if secs == 0
    then some []
    else joined (itoa (pos (secs / 60))) (runes ":") (zeropad2 (pos (secs % 60)))

abbrev pub kb : ℕ
kb = 1024

abbrev pub mb : ℕ
mb = 1048576

abbrev pub gb : ℕ
gb = 1073741824

abbrev pub with_tenth : ℕ → ℕ → Runes → Option Runes
with_tenth unit b name =
    before (joined (itoa (pos (b / unit))) (runes ".") (itoa (pos (b % unit * 10 / unit)))) name

-- The size is a uint64.
unfoldable pub format_bytes : ℕ → Option Runes
format_bytes b =
    if b == 0
    then some []
    else if ltb b kb
    then before (itoa (pos b)) (runes " B")
    else if ltb b mb
    then before (itoa (pos (b / kb))) (runes " KB")
    else if ltb b gb
    then with_tenth mb b (runes " MB")
    else with_tenth gb b (runes " GB")

unfoldable pub image_ext : String → String
image_ext mime =
    if mime == "image/png"
    then ".png"
    else if mime == "image/webp"
    then ".webp"
    else if mime == "image/gif"
    then ".gif"
    else ".jpg"
