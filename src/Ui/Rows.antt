-- ===== src/Ui/Rows.antt =====
-- The rows of the chat list in internal/ui/chatrow.go, and the relative times of view.go.
use Prim.Native.Nat.{bit_xor}
use wachat.Prelude.{
  ℕ, ◌-◌, ◌*◌, ◌/◌, ◌%◌, ◌^◌, Bool, Option, none, some, List, [], ◌∷◌, ◌++◌, ◌==◌, nat_eq, text_eq,
  ltb, if◌then◌else◌, Runes, runes, utf8,
}
use wachat.Ui.State.{ChatSummary}
use wachat.Ui.Bubble.{last_digits}
use wachat.Ui.View.{decorate_name, display_name, initial, format_count}

-- FNV-1a over the bytes of a text, in 64 bits.
unfoldable pub hash_bytes : List ℕ → ℕ → ℕ
hash_bytes [] h = h
hash_bytes (b ∷ bs) h = hash_bytes bs (bit_xor h b * 1099511628211 % 2 ^ 64)

-- The hue of a name or a JID, in degrees.
unfoldable pub hue_of : Runes → ℕ
unfolding hash_bytes
hue_of name = hash_bytes (utf8 name) 14695981039346656037 % 360

-- A number in decimal, as `%d` prints it.
abbrev decimal_of : ℕ → Runes
decimal_of n = if n == 0 then runes "0" else last_digits 20 n []

-- The age of a time, in whole milliseconds; `date` prints it as a date.
unfoldable pub human_time : (ℕ → Runes) → ℕ → ℕ → Runes
human_time date now_ms ts =
    let age = now_ms - ts in
    if ltb age 60000
    then runes "just now"
    else if ltb age 3600000
    then decimal_of (age / 60000) ++ runes "m ago"
    else if ltb age 86400000
    then decimal_of (age / 3600000) ++ runes "h ago"
    else date ts

unfoldable pub chat_subtitle : (ℕ → Runes) → ℕ → ChatSummary → Runes
unfolding human_time
chat_subtitle date now_ms c =
    let when = if ltb 0 c.last_ts then human_time date now_ms c.last_ts else runes "—" in
    if ltb 0 c.unread then when ++ runes " · " ++ decimal_of c.unread ++ runes " unread" else when

-- A row: the letter of its avatar, the name, the line below it, and the time and badge at its end.
pub record ChatRowView : Type 0 where
  pub glyph : Runes
  pub name : Runes
  pub subtitle : Runes
  pub is_bold : Bool
  pub time : Runes
  pub badge : Option Runes

unfoldable pub chat_row : (ℕ → Runes) → ℕ → ChatSummary → ChatRowView
unfolding chat_subtitle decorate_name display_name initial format_count human_time
chat_row date now_ms c = record {
  glyph = initial (runes (display_name c));
  name = decorate_name c;
  subtitle = chat_subtitle date now_ms c;
  is_bold = ltb 0 c.unread;
  time = if ltb 0 c.last_ts then human_time date now_ms c.last_ts else [];
  badge = if ltb 0 c.unread then some (format_count c.unread) else none;
}
