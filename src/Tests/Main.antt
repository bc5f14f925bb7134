-- ===== src/Tests/Main.antt =====
-- The drain of two events while a third arrives, and a theme that is toggled.
use wachat.Prelude.{◌+◌, ◌≡◌, refl, [], ◌∷◌, arith, find?}
use wachat.Store.Settings.{get_setting}
use wachat.Wa.Extract.{MessageEvent}
use wachat.Ui.Theme.{Theme, new_theme, light_palette}
use wachat.Main.{
  load_initial_theme, read_density, toggle_theme, toggle_density, drain_incoming_notify,
}
use wachat.Main.Drain.{IsDrained, drain-IsDrained}
use wachat.Main.Themes.{other_palette, other_density, toggles-IsPersisted}
use wachat.Tests.Data.{memory, memory-Succeeds, empty}
use wachat.Tests.Ui.{open_chat}
use wachat.Tests.Wa.{greeting}

abbrev from_bob : MessageEvent
from_bob = record greeting { wa_id = "g2"; chat_jid = "bob" }

drain-IsDrained_example :
    IsDrained
      (λ i. 7 + i)
      ((greeting ∷ []) ∷ [])
      (greeting ∷ from_bob ∷ [])
      open_chat
      (drain_incoming_notify
        (λ i. 7 + i)
        4
        ((greeting ∷ []) ∷ [])
        (greeting ∷ from_bob ∷ [])
        open_chat)
drain-IsDrained_example =
    drain-IsDrained (λ i. 7 + i) 4 ((greeting ∷ []) ∷ []) (greeting ∷ from_bob ∷ []) open_chat
      (omega arith)

abbrev initial_theme : Theme
initial_theme = new_theme light_palette

loads_initial : load_initial_theme memory empty ≡ initial_theme
unfolding load_initial_theme read_density get_setting find? new_theme
loads_initial = refl

toggles-IsPersisted_example :
    (load_initial_theme memory (toggle_theme memory (initial_theme, empty)).1
      ≡ (toggle_theme memory (initial_theme, empty)).0)
    × ((toggle_theme memory (initial_theme, empty)).0
        ≡ record (new_theme (other_palette initial_theme.palette)) {
          density = initial_theme.density;
        })
    × (load_initial_theme memory (toggle_density memory (initial_theme, empty)).1
        ≡ (toggle_density memory (initial_theme, empty)).0)
    × ((toggle_density memory (initial_theme, empty)).0
        ≡ record initial_theme { density = other_density initial_theme.density })
toggles-IsPersisted_example =
    toggles-IsPersisted memory memory-Succeeds initial_theme empty loads_initial
