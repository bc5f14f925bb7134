-- ===== src/Ui/State/Muted.antt =====
-- From a mute action of whatsmeow to what the chat list shows as muted.
use wachat.Prelude.{ℕ, ◌*◌, ◌≡◌, Bool, true, ◌&&◌, ◌||◌, ◌==◌, nat_eq, ltb, arith}
use wachat.Prelude.Int.{ℤ, pos, negsuc}
use wachat.Store.Schema.{ChatRow}
use wachat.Wa.Proto.{MuteAction}
use wachat.Wa.Updates.{mute_until_ms}
use wachat.Ui.State.{is_muted, to_summary}

-- Whether a mute with this end, in seconds, lasts at a time in milliseconds: without an end, and
-- with a negative one, it lasts for ever.
abbrev pub lasts_until : ℤ → ℕ → Bool
lasts_until (negsuc n) now_ms = true
lasts_until (pos ts) now_ms = ts == 0 || ltb now_ms (ts * 1000)

-- The deadline that applyMute computes from an action, once it is stored in a chat's row and loaded
-- into the chat list, shows the chat as muted exactly if the action mutes and its end, if it has
-- one, is not reached.
pub is_muted-mute_until_ms :
    (a : MuteAction) (c : ChatRow) (now_ms : ℕ)
    → is_muted (to_summary (record c { mute_until = mute_until_ms a })) now_ms
      ≡ (a.muted && lasts_until a.mute_end_timestamp now_ms)
unfolding is_muted to_summary mute_until_ms
is_muted-mute_until_ms a c now_ms = ground arith
