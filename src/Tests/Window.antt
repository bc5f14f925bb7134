-- ===== src/Tests/Window.antt =====
-- The open conversation at the small database, with one of its two messages shown.
use wachat.Prelude.{
  not, ◌&&◌, true, false, String, ◌≡◌, ◌≢◌, refl, List, [], ◌∷◌, map, filter, arith, text_iff, All,
  true, false, if◌then◌else◌,
}
use wachat.Prelude.Sort.{sort_by, insert_by}
use wachat.Store.Schema.{MessageRow}
use wachat.Store.Messages.{to_row}
use wachat.Store.Paging.{scan_message, newest_first}
use wachat.Store.Paging.Order.{history}
use wachat.Store.Paging.Pages.{cursor_of}
use wachat.Ui.State.{State}
use wachat.Ui.State.Window.{IsWindow, at_row, IsExtended, load_older-IsWindow}
use wachat.Ui.View.{Frame}
use wachat.Ui.View.Trigger.{IsFrame, run_frames, run_frames_lem}
use wachat.Tests.Data.{memory, memory-Succeeds, three, three-IsSound, hello, world, writes}
use wachat.Tests.Ui.{open_chat}

abbrev alice_jid : String
alice_jid = "alice"

alice_jid_named : alice_jid ≢ ""
alice_jid_named = ground (arith, text_iff alice_jid "")

abbrev shown : List MessageRow
shown = to_row 2 world ∷ []

abbrev not_shown : List MessageRow
not_shown = to_row 1 hello ∷ []

abbrev one_shown : State
one_shown = record open_chat {
  messages = map scan_message shown;
  cursor = cursor_of (to_row 2 world);
}

one_shown-IsWindow : IsWindow alice_jid three one_shown shown not_shown
unfolding history writes newest_first sort_by insert_by filter
one_shown-IsWindow = record {
  selected = refl;
  whole = refl;
  shown = refl;
  place = at_row [] (to_row 2 world) refl refl;
}

load_older-IsWindow_example :
    IsExtended memory memory-Succeeds alice_jid alice_jid_named three three-IsSound.well_formed
      one_shown shown not_shown
load_older-IsWindow_example =
    load_older-IsWindow memory memory-Succeeds alice_jid alice_jid_named three
      three-IsSound.well_formed one_shown shown not_shown one_shown-IsWindow

-- A frame at the top of a chat.
abbrev at_top : Frame
at_top = record {
  width_dp = 900;
  position = record { first = 2; count = 9 };
  total = 50;
  selected_chat = "alice";
}

stay_at_top : All (IsFrame true) (at_top ∷ at_top ∷ [])
stay_at_top = ((refl, refl), ((refl, refl), tt))

run_frames_lem_example :
    run_frames (at_top ∷ at_top ∷ []) false ≡ (if true && not false then 1 else 0, true)
run_frames_lem_example = run_frames_lem true at_top (at_top ∷ []) false stay_at_top
