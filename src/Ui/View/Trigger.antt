-- ===== src/Ui/View/Trigger.antt =====
-- When the view asks for older messages, over a sequence of frames.
use wachat.Prelude.{
  ℕ, ◌+◌, ◌≡◌, refl, Bool, true, not, ◌&&◌, List, [], ◌∷◌, ◌==◌, nat_eq, text_eq, leb, All, arith,
  if◌then◌else◌,
}
use wachat.Ui.View.{Frame, is_near_oldest_loaded, check_paging_trigger, end_of_frame}

-- The calls of OnNearEnd in a sequence of frames, and the flag after it.
unfoldable pub run_frames : List Frame → Bool → ℕ × Bool
run_frames [] prev = (0, prev)
run_frames (f ∷ fs) prev =
    let (fired, near) = end_of_frame true f prev in
    let (calls, last) = run_frames fs near in ((if fired then 1 else 0) + calls, last)

-- A window that is wide enough for both panes.
abbrev pub is_wide : Frame → Bool
is_wide f = leb 760 f.width_dp

-- A chat is open, some of its messages are loaded and drawn, and the first that is drawn is among
-- the six oldest.
abbrev pub is_near : Frame → Bool
is_near f =
    not (f.selected_chat == "")
    && not (f.total == 0)
    && not (f.position.count == 0)
    && leb f.position.first 5

end_of_frame_near :
    (f : Frame) (prev : Bool)
    → is_wide f ≡ true
    → end_of_frame true f prev ≡ (is_near f && not prev, is_near f)
unfolding end_of_frame check_paging_trigger is_near_oldest_loaded
end_of_frame_near f prev wide = ground (arith, wide)

-- A frame of a wide window that is near the oldest loaded message, or is not.
abbrev pub IsFrame : Bool → Frame → Type 0
IsFrame b f = (is_wide f ≡ true) × (is_near f ≡ b)

-- Further frames of the same kind call nothing.
stay : (b : Bool) (fs : List Frame) → All (IsFrame b) fs → run_frames fs b ≡ (0, b)
unfolding run_frames
stay b [] h = refl
stay b (f ∷ fs) h = rw (end_of_frame_near f b h.0.0, h.0.1, stay b fs h.1) (ground arith)

-- A stretch of frames, one or more, of a window at least 760 dp wide, that are all near the oldest
-- loaded message of an open chat (`b` is true), or all not: in the first case OnNearEnd is called
-- exactly once unless the frame before the stretch was near too, and in the second case never,
-- whatever came before.
pub run_frames_lem :
    (b : Bool) (f : Frame) (fs : List Frame) (prev : Bool)
    → All (IsFrame b) (f ∷ fs)
    → run_frames (f ∷ fs) prev ≡ (if b && not prev then 1 else 0, b)
unfolding run_frames
run_frames_lem b f fs prev h =
    rw (end_of_frame_near f prev h.0.0, h.0.1, stay b fs h.1) (ground arith)
