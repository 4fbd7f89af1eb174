-- ===== src/Gui/Split.antt =====
-- client/internal/gioui/components/split.go: the bar between the two parts of a page, which the user
-- drags. The arithmetic of float32 and the conversions of the drawing library are the parameter
-- `Floats`; nothing is assumed of them, so a number can also be a NaN.
use secure_messager_erlang.Prelude.{
  ℕ, ℤ, pos, ◌+ℤ◌, ◌-ℤ◌, ltb_ℤ, ◌≡◌, refl, ◌∙◌, inl, inr, Bool-cases, arith, Bool, true, false, not,
  ◌&&◌, ◌||◌, ◌==◌, List, [], ◌∷◌, if◌then◌else◌,
}

pub record Floats (F : Type 0) : Type 0 where
  pub plus : F → F → F
  pub minus : F → F → F
  pub times : F → F → F
  pub over : F → F → F
  pub less : F → F → Bool
  pub at_most_zero : F → Bool
  pub zero_float : F
  pub from_int : ℤ → F
  pub to_int : F → ℤ
  -- gtx.Dp, and the default width of the bar.
  pub dp : F → ℤ
  pub default_bar_width : F

pub record SplitStyle (F : Type 0) : Type 0 where
  pub ratio : F
  pub min_ratio : F
  pub max_ratio : F
  pub min_pixel : ℤ
  pub max_pixel : ℤ
  pub bar : F
  pub drag : Bool
  pub drag_id : ℕ
  pub drag_x : F

-- A pointer with its number, at a place.
pub data DragEvent (F : Type 0) : Type 0 where
  presses : ℕ → F → DragEvent F
  drags : ℕ → F → DragEvent F
  releases cancels : DragEvent F

module _ {F : Type 0} (f : Floats F) where
  unfoldable pub split : F → F → F → ℤ → ℤ → F → SplitStyle F
  split ratio min_ratio max_ratio min_pixel max_pixel bar = record {
    ratio = ratio;
    min_ratio = min_ratio;
    max_ratio = max_ratio;
    min_pixel = min_pixel;
    max_pixel = max_pixel;
    bar = if f.at_most_zero bar then f.default_bar_width else bar;
    drag = false;
    drag_id = 0;
    drag_x = f.zero_float;
  }

  -- The new ratio of a drag is outside of its bounds, or the left side would leave its own.
  abbrev pub refused : SplitStyle F → ℤ → F → Bool
  refused s left_size delta_ratio =
      (f.less (f.plus s.ratio delta_ratio) s.min_ratio
        || f.less s.max_ratio (f.plus s.ratio delta_ratio))
      || ((f.less delta_ratio f.zero_float && not (ltb_ℤ s.min_pixel left_size))
          || (f.less f.zero_float delta_ratio && not (ltb_ℤ left_size s.max_pixel)))

  -- One event, with the width of the page and of the left side when the frame began.
  unfoldable pub drag_bar : ℤ → ℤ → SplitStyle F → DragEvent F → SplitStyle F
  drag_bar width left_size s (presses id x) =
      if s.drag then s else record s { drag_id = id; drag_x = x; drag = true }
  drag_bar width left_size s (drags id x) =
      if not (s.drag_id == id)
      then s
      else (let delta_ratio = f.over (f.minus x s.drag_x) (f.from_int width) in
          if refused s left_size delta_ratio
          then s
          else record s { drag_x = x; ratio = f.plus s.ratio delta_ratio })
  drag_bar width left_size s releases = record s { drag = false }
  drag_bar width left_size s cancels = record s { drag = false }

  unfoldable pub drag_all : ℤ → ℤ → SplitStyle F → List (DragEvent F) → SplitStyle F
  drag_all width left_size s [] = s
  drag_all width left_size s (e ∷ events) =
      drag_all width left_size (drag_bar width left_size s e) events

  -- The width of the bar in a frame.
  unfoldable pub bar_width : SplitStyle F → ℤ
  bar_width s = if not (ltb_ℤ (pos 1) (f.dp s.bar)) then f.dp f.default_bar_width else f.dp s.bar

  -- A frame: the sizes are those of before its events.
  unfoldable pub layout : ℤ → SplitStyle F → List (DragEvent F) → SplitStyle F × ℤ × ℤ
  layout width s events =
      let bar = bar_width s in
      let left_size = f.to_int (f.minus (f.times s.ratio (f.from_int width)) (f.from_int bar)) in
      (drag_all width left_size s events, left_size, width -ℤ (left_size +ℤ bar))

  -- Frames, each with its width and its events.
  unfoldable pub frames : SplitStyle F → List (ℤ × List (DragEvent F)) → SplitStyle F
  frames s [] = s
  frames s ((width, events) ∷ rest) = frames (layout width s events).0 rest

  -- The bounds are the given ones, and the ratio is not outside of them.
  pub record IsWithin (low high : F) (s : SplitStyle F) : Type 0 where
    pub low_kept : s.min_ratio ≡ low
    pub high_kept : s.max_ratio ≡ high
    pub above : f.less s.ratio low ≡ false
    pub below : f.less high s.ratio ≡ false

  module _ (low high : F) where
    -- Only the ratio and the bounds matter.
    IsWithin-kept :
        (s s' : SplitStyle F)
        → s'.ratio ≡ s.ratio
        → s'.min_ratio ≡ s.min_ratio
        → s'.max_ratio ≡ s.max_ratio
        → IsWithin low high s
        → IsWithin low high s'
    IsWithin-kept s s' r lo hi h = record {
      low_kept = lo ∙ h.low_kept;
      high_kept = hi ∙ h.high_kept;
      above = rw r h.above;
      below = rw r h.below;
    }

    IsWithin-moved :
        (left_size : ℤ) (s : SplitStyle F) (delta_ratio x : F)
        → refused s left_size delta_ratio ≡ false
        → IsWithin low high s
        → IsWithin low high (record s { drag_x = x; ratio = f.plus s.ratio delta_ratio })
    IsWithin-moved left_size s delta_ratio x free h = record {
      low_kept = h.low_kept;
      high_kept = h.high_kept;
      above = ground (arith, free, h.low_kept);
      below = ground (arith, free, h.high_kept);
    }

    drag_bar-IsWithin :
        (width left_size : ℤ) (s : SplitStyle F) (e : DragEvent F)
        → IsWithin low high s
        → IsWithin low high (drag_bar width left_size s e)
    unfolding drag_bar
    drag_bar-IsWithin width left_size s (presses id x) h =
        let held = record s { drag_id = id; drag_x = x; drag = true } in
        ground (arith, h, IsWithin-kept s held refl refl refl h)
    drag_bar-IsWithin width left_size s releases h =
        IsWithin-kept s (record s { drag = false }) refl refl refl h
    drag_bar-IsWithin width left_size s cancels h =
        IsWithin-kept s (record s { drag = false }) refl refl refl h
    drag_bar-IsWithin width left_size s (drags id x) h = elim (Bool-cases (s.drag_id == id)) [
      | inr other ↦ ground (arith, other, h)
      | inl same ↦
          let delta = f.over (f.minus x s.drag_x) (f.from_int width) in
          elim (Bool-cases (refused s left_size delta)) [
            | inl stays ↦ ground (arith, same, stays, h)
            | inr free ↦ ground (arith, same, free, IsWithin-moved left_size s delta x free h)
          ]
    ]

    drag_all-IsWithin :
        (width left_size : ℤ) (s : SplitStyle F) (events : List (DragEvent F))
        → IsWithin low high s
        → IsWithin low high (drag_all width left_size s events)
    unfolding drag_all
    drag_all-IsWithin width left_size s [] h = h
    drag_all-IsWithin width left_size s (e ∷ events) h =
        drag_all-IsWithin width left_size (drag_bar width left_size s e) events
          (drag_bar-IsWithin width left_size s e h)

    frames-IsWithin :
        (s : SplitStyle F) (rest : List (ℤ × List (DragEvent F)))
        → IsWithin low high s
        → IsWithin low high (frames s rest)
    unfolding frames layout
    frames-IsWithin s [] h = h
    frames-IsWithin s ((width, events) ∷ rest) h =
        frames-IsWithin (layout width s events).0 rest (drag_all-IsWithin width _ s events h)

  -- However the bar is dragged, in any frames of any width: if the first ratio is not below the least
  -- ratio nor above the greatest one, then no later ratio is, and these bounds are the first ones.
  pub split-frames :
      (ratio low high : F) (min_pixel max_pixel : ℤ) (bar : F)
      (rest : List (ℤ × List (DragEvent F)))
      → f.less ratio low ≡ false
      → f.less high ratio ≡ false
      → IsWithin low high (frames (split ratio low high min_pixel max_pixel bar) rest)
  unfolding split
  split-frames ratio low high min_pixel max_pixel bar rest above below =
      frames-IsWithin low high (split ratio low high min_pixel max_pixel bar) rest
        (record { low_kept = refl; high_kept = refl; above = above; below = below })
