-- ===== src/Tests/Format.antt =====
-- A voice note of a bit more than a minute, and a file of one and a half megabytes.
use wachat.Prelude.{◌<◌, ◌≤◌, ◌*◌, ◌/◌, ◌≡◌, refl, some, arith, runes}
use wachat.Wa.Format.{digits_into, itoa, zeropad2, format_duration, format_bytes, mb, gb}
use wachat.Wa.Format.Digits.{IsClock, IsDecimal, format_duration-IsClock, format_bytes-IsDecimal}

format_duration-IsClock_example : IsClock (format_duration 65) 65
format_duration-IsClock_example = format_duration-IsClock 65 (omega arith) (omega arith)

format_bytes-IsDecimal_example :
    (1572864 < gb → IsDecimal (format_bytes 1572864) (1572864 * 10 / mb) (runes " MB"))
    × (gb ≤ 1572864 → IsDecimal (format_bytes 1572864) (1572864 * 10 / gb) (runes " GB"))
format_bytes-IsDecimal_example = format_bytes-IsDecimal 1572864 (omega arith) (omega arith)

voice_note : format_duration 65 ≡ some (runes "1:05")
unfolding format_duration itoa zeropad2 digits_into
voice_note = refl

picture : format_bytes 1572864 ≡ some (runes "1.5 MB")
unfolding format_bytes itoa digits_into
picture = refl
