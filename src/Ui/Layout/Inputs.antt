-- ===== src/Ui/Layout/Inputs.antt =====
-- What View.Layout is given: its callbacks, the state that they act on, and what Gio reports.
use wachat.Prelude.{ℕ, String, Bool, false, Option, List, [], text_eq, nat_eq, Runes}
use wachat.Store.Search.{SearchHit}
use wachat.Ui.State.{State}
use wachat.Ui.Theme.{Theme}
use wachat.Ui.Composer.{KeyEvent}
use wachat.Ui.View.{Position}

-- ViewCallbacks over the caller's state `S`; a callback that is not set is none.
pub record ViewCallbacks (S : Type 0) : Type 0 where
  pub on_select_chat : Option (String → S → S)
  pub on_near_end : Option (S → S)
  pub on_send : Option (String → Runes → S → S)
  pub on_search : Option (Runes → S → S)
  pub on_jump_to_message : Option (SearchHit → S → S)
  pub on_toggle_theme : Option (S → S)
  pub on_toggle_density : Option (S → S)
  pub on_back : Option (S → S)

-- What Layout reads of it.
pub record Reads (S : Type 0) : Type 0 where
  pub state : S → State
  pub results : S → Option (List SearchHit)
  pub theme : S → Theme

-- The widgets that live across frames. The counts are the lengths of the slices of clickables.
pub record View : Type 0 where
  pub chat_clicks : ℕ
  pub hit_clicks : ℕ
  pub composer_text : Runes
  pub search_text : Runes
  pub prev_near_end : Bool

unfoldable pub new_view : View
new_view = record {
  chat_clicks = 0;
  hit_clicks = 0;
  composer_text = [];
  search_text = [];
  prev_near_end = false;
}

-- What Gio reports in a frame: the events of the keys and clicks, the width of the window, the time,
-- and the rows that are visible after the list was laid out.
pub record Input : Type 0 where
  pub chat_clicked : ℕ → Bool
  pub hit_clicked : ℕ → Bool
  pub theme_clicked : Bool
  pub density_clicked : Bool
  pub back_clicked : Bool
  pub send_clicked : Bool
  pub search_keys : List KeyEvent
  pub composer_keys : List KeyEvent
  pub insert_newline : Runes → Runes
  pub width_dp : ℕ
  pub now_ms : ℕ
  pub date : ℕ → Runes
  pub visible_chats : List ℕ
  pub visible_rows : List ℕ
  pub position : Position
