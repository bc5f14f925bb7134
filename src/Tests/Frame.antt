-- ===== src/Tests/Frame.antt =====
-- A frame that drains one event, selects a chat by a click and sends what was typed.
use wachat.Prelude.{
  ℕ, ◌+◌, if◌then◌else◌, refl, ◌≡◌, Bool, true, false, none, some, List, [], ◌∷◌, ◌==◌, nat_eq,
  arith,
}
use wachat.Store.Schema.{Sqlite, query}
use wachat.Store.Messages.Updates.{IsSound}
use wachat.Ui.Theme.{new_theme, light_palette}
use wachat.Ui.Pairing.{new_pairing_view, conn_connected}
use wachat.Ui.Draw.{Tree}
use wachat.Ui.Layout.{ViewCallbacks, View, Input, layout}
use wachat.Ui.Layout.Narrow.{narrow_never_pages}
use wachat.Main.{Toast}
use wachat.Main.Frame.{App, reads, callbacks, frame}
use wachat.Main.Frame.Sound.{frame-IsSound}
use wachat.Tests.Data.{memory, three, three-IsSound}
use wachat.Tests.Ui.{open_chat}
use wachat.Tests.Wa.{greeting}

abbrev running : App
running = record {
  state = open_chat;
  results = none;
  theme = new_theme light_palette;
  drawn = new_theme light_palette;
  same_theme = true;
  minted = "3EB2" ∷ [];
  sending = [];
  db = three;
  calls = 0;
}

-- Queries fail during the first call of a callback, and nothing after it.
abbrev fails_first : ℕ → Sqlite
fails_first n =
    if n == 0 then record memory { succeeds = λ c. elim c [ query ↦ false | _ ↦ true ] } else memory

abbrev used_view : View
used_view = record {
  chat_clicks = 2;
  hit_clicks = 0;
  composer_text = 104 ∷ 105 ∷ [];
  search_text = [];
  prev_near_end = false;
}

abbrev keys : Input
keys = record {
  chat_clicked = λ i. i == 1;
  hit_clicked = λ i. false;
  theme_clicked = true;
  density_clicked = false;
  back_clicked = false;
  send_clicked = true;
  search_keys = [];
  composer_keys = [];
  insert_newline = λ t. t;
  width_dp = 900;
  now_ms = 7;
  date = λ ts. [];
  visible_chats = 0 ∷ 1 ∷ [];
  visible_rows = 0 ∷ [];
  position = record { first = 0; count = 1 };
}

frame-IsSound_example :
    (toasts : List Toast) × (shown : Tree × Bool) × (v' : View) × (a' : App) × (frame fails_first
        (λ phrase rows. [])
        (λ ts. "local")
        (λ text. "hi")
        true
        7
        (λ i. 7 + i)
        2
        []
        (greeting ∷ [])
        keys
        new_pairing_view
        false
        conn_connected
        used_view
        running
      ≡ some (toasts, shown, v', a'))
    × IsSound a'.db
frame-IsSound_example =
    frame-IsSound fails_first (λ phrase rows. []) (λ ts. "local") (λ text. "hi") true 7 (λ i. 7 + i)
      2 [] (greeting ∷ []) keys new_pairing_view false conn_connected used_view running
      (omega arith) three-IsSound

abbrev callbacks_of_main : ViewCallbacks App
callbacks_of_main = callbacks fails_first (λ phrase rows. []) (λ ts. "local") (λ text. "hi") true 7

abbrev small_window : Input
small_window = record keys { width_dp = 400 }

narrow_never_pages_example :
    layout reads (record callbacks_of_main { on_near_end = none }) small_window used_view running
    ≡ layout reads callbacks_of_main small_window used_view running
narrow_never_pages_example =
    narrow_never_pages reads callbacks_of_main none small_window used_view running refl
