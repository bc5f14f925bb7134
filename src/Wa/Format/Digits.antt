-- ===== src/Wa/Format/Digits.antt =====
-- What the digits of `itoa`, `FormatDuration` and `FormatBytes` read back as.
use wachat.Prelude.{
  ℕ, zero, suc, ◌+◌, ◌-◌, ◌*◌, ◌/◌, ◌%◌, ◌^◌, ◌<◌, ◌≤◌, ◌≡◌, refl, Bool, inl, inr, Option, some, [],
  ◌∷◌, ◌++◌, All, ◌==◌, nat_eq, ltb, arith, Bool-cases, Runes, runes,
}
use wachat.Prelude.Int.{pos}
use wachat.Wa.Format.{
  zero_char, digits_into, itoa, zeropad2, with_tenth, format_duration, format_bytes, kb, mb, gb,
}

-- The number that decimal digits spell, after `n`.
unfoldable pub reads : Runes → ℕ → ℕ
reads [] n = n
reads (c ∷ cs) n = reads cs (n * 10 + (c - zero_char))

abbrev pub IsDigit : ℕ → Type 0
IsDigit c = (zero_char ≤ c) × (c < zero_char + 10)

-- A text that spells a number.
pub record Spells (o : Option Runes) (n : ℕ) : Type 0 where
  pub text : Runes
  pub done : o ≡ some text
  pub digits : All IsDigit text
  pub value : reads text 0 ≡ n

-- With `i < 10 ^ room` the buffer is large enough.
digits_into-Spells :
    (room i : ℕ) (acc : Runes)
    → i < 10 ^ room
    → All IsDigit acc
    → Spells (digits_into room i acc) (reads acc i)
unfolding digits_into reads
digits_into-Spells zero i acc small ok =
    let none_left : i ≡ 0 = omega arith in
    record { text = acc; done = rw none_left refl; digits = ok; value = rw none_left refl }
digits_into-Spells (suc room) i acc small ok = elim (Bool-cases (i == 0)) [
  | inl e ↦
      let none_left : i ≡ 0 = (nat_eq.same_iff i 0).0 e in
      record { text = acc; done = rw e refl; digits = ok; value = rw none_left refl }
  | inr e ↦
      let rest =
        digits_into-Spells room (i / 10) ((zero_char + i % 10) ∷ acc) (omega arith)
          ((omega arith, omega arith), ok) in
      let back : i / 10 * 10 + (zero_char + i % 10 - zero_char) ≡ i = omega arith in
      rw e (rw back at rest)
]

itoa-Spells : (i : ℕ) → i < 2 ^ 63 → Spells (itoa (pos i)) i
unfolding itoa reads
itoa-Spells i small = elim (Bool-cases (i == 0)) [
  | inl e ↦
      let zero_is : i ≡ 0 = (nat_eq.same_iff i 0).0 e in
      record {
        text = runes "0";
        done = rw e refl;
        digits = ((omega arith, omega arith), tt);
        value = rw zero_is refl;
      }
  | inr e ↦ rw e (digits_into-Spells 20 i [] (omega arith) tt)
]

-- A number of minutes, a colon, and two digits.
pub record IsClock (o : Option Runes) (secs : ℕ) : Type 0 where
  pub minutes : Runes
  pub seconds : Runes
  pub done : o ≡ some (minutes ++ runes ":" ++ seconds)
  pub minutes_digits : All IsDigit minutes
  pub seconds_digits : All IsDigit seconds
  pub value : reads minutes 0 * 60 + reads seconds 0 ≡ secs
  pub below_minute : reads seconds 0 < 60

zeropad2-Spells : (i : ℕ) → i < 60 → Spells (zeropad2 (pos i)) i
unfolding zeropad2 reads
zeropad2-Spells i small =
    let s = itoa-Spells i (omega arith) in
    elim (Bool-cases (ltb i 10)) [
      | inl e ↦ record {
        text = runes "0" ++ s.text;
        done = rw (e, s.done) refl;
        digits = ((omega arith, omega arith), s.digits);
        value = s.value;
      }
      | inr e ↦ rw e s
    ]

-- FormatDuration of a uint32 that is not 0 spells minutes, a colon and seconds below 60, all in
-- digits, which together are the duration.
pub format_duration-IsClock :
    (secs : ℕ) → 0 < secs → secs < 2 ^ 32 → IsClock (format_duration secs) secs
unfolding format_duration
format_duration-IsClock secs given small =
    let m = itoa-Spells (secs / 60) (omega arith) in
    let s = zeropad2-Spells (secs % 60) (omega arith) in
    let nonzero : (secs == 0) ≡ Bool.false = ground (arith, given) in
    record {
      minutes = m.text;
      seconds = s.text;
      done = rw (nonzero, m.done, s.done) refl;
      minutes_digits = m.digits;
      seconds_digits = s.digits;
      value = rw (m.value, s.value) (omega arith);
      below_minute = rw s.value (omega arith);
    }

-- A number with one decimal place and a unit.
pub record IsDecimal (o : Option Runes) (tenths : ℕ) (name : Runes) : Type 0 where
  pub whole : Runes
  pub tenth : Runes
  pub done : o ≡ some ((whole ++ runes "." ++ tenth) ++ name)
  pub whole_digits : All IsDigit whole
  pub tenth_digits : All IsDigit tenth
  pub value : reads whole 0 * 10 + reads tenth 0 ≡ tenths
  pub one_place : reads tenth 0 < 10

decimal :
    (unit b : ℕ) (name : Runes)
    → b / unit < 2 ^ 63
    → b % unit * 10 / unit < 10
    → b / unit * 10 + b % unit * 10 / unit ≡ b * 10 / unit
    → IsDecimal (with_tenth unit b name) (b * 10 / unit) name
decimal unit b name small place value =
    let w = itoa-Spells (b / unit) small in
    let t = itoa-Spells (b % unit * 10 / unit) (omega arith) in
    record {
      whole = w.text;
      tenth = t.text;
      done = rw (w.done, t.done) refl;
      whole_digits = w.digits;
      tenth_digits = t.digits;
      value = rw (w.value, t.value) value;
      one_place = rw t.value place;
    }

-- FormatBytes of a uint64 of a megabyte or more spells its size in megabytes, from a gigabyte on in
-- gigabytes, with one decimal digit, rounded down.
pub format_bytes-IsDecimal :
    (b : ℕ)
    → mb ≤ b
    → b < 2 ^ 64
    → (b < gb → IsDecimal (format_bytes b) (b * 10 / mb) (runes " MB"))
      × (gb ≤ b → IsDecimal (format_bytes b) (b * 10 / gb) (runes " GB"))
unfolding format_bytes
format_bytes-IsDecimal b large small =
    let not_zero : (b == 0) ≡ Bool.false = ground (arith, large) in
    let not_bytes : ltb b kb ≡ Bool.false = ground (arith, large) in
    let not_kb : ltb b mb ≡ Bool.false = ground (arith, large) in
    (
      λ below.
          let is_mb : ltb b gb ≡ Bool.true = ground (arith, below) in
          rw (not_zero, not_bytes, not_kb, is_mb)
            (decimal mb b (runes " MB") (omega arith) (omega arith) (omega arith)),
      λ above.
          let is_gb : ltb b gb ≡ Bool.false = ground (arith, above) in
          rw (not_zero, not_bytes, not_kb, is_gb)
            (decimal gb b (runes " GB") (omega arith) (omega arith) (omega arith)),
    )
