-- ===== src/Gui/Click.antt =====
-- client/internal/gioui/components: what a clickable area does with pointer events (click.go), the
-- buttons that have one, and the colours (colors.go) that show their state.
use secure_messager_erlang.Prelude.{
  ℕ, ◌+◌, ◌≡◌, refl, arith, Bool, true, false, List, [], ◌∷◌, Option, none, some, Bytes, ℤ, pos,
  ltb_ℤ, length, if◌then◌else◌,
}

pub data Pointer : Type 0 where
  press release enter leave : Pointer

pub record Click (H : Type 0) : Type 0 where
  pub on_click : Option H
  pub pressed : Bool
  pub hovered : Bool

abbrev releases : List Pointer → ℕ
releases [] = 0
releases (release ∷ events) = releases events + 1
releases (_ ∷ events) = releases events

module _ {H : Type 0} where
  -- The handlers that are called, in their order, stand beside the click.
  unfoldable pub update : Click H → List Pointer → Click H × List H
  update c [] = (c, [])
  update c (press ∷ events) = update (record c { pressed = true }) events
  update c (release ∷ events) =
      let (c', calls) = update (record c { pressed = false }) events in
      (c', elim c.on_click [ none ↦ calls | some h ↦ h ∷ calls ])
  update c (enter ∷ events) = update (record c { hovered = true }) events
  update c (leave ∷ events) = update (record c { hovered = false }) events

  -- With a handler set, it is called once for every release of the pointer, pressed before or not.
  length-update :
      (c : Click H) (events : List Pointer) {h : H}
      → c.on_click ≡ some h
      → (length (update c events).1 ≡ releases events) × ((update c events).0.on_click ≡ some h)
  unfolding update
  length-update c [] e = (refl, e)
  length-update c (press ∷ events) e = length-update (record c { pressed = true }) events e
  length-update c (release ∷ events) e =
      ground (arith, e, length-update (record c { pressed = false }) events e)
  length-update c (enter ∷ events) e = length-update (record c { hovered = true }) events e
  length-update c (leave ∷ events) e = length-update (record c { hovered = false }) events e

-- color.NRGBA
pub record Color : Type 0 where
  pub r : ℕ
  pub g : ℕ
  pub b : ℕ
  pub a : ℕ

abbrev pub surface_container : Color
surface_container = record { r = 33; g = 31; b = 38; a = 255 }

abbrev pub surface_container_high : Color
surface_container_high = record { r = 43; g = 41; b = 48; a = 255 }

abbrev pub surface_container_highest : Color
surface_container_highest = record { r = 54; g = 52; b = 59; a = 255 }

abbrev pub primary : Color
primary = record { r = 208; g = 188; b = 255; a = 255 }

abbrev pub on_primary : Color
on_primary = record { r = 56; g = 30; b = 114; a = 255 }

abbrev pub on_primary_variant : Color
on_primary_variant = record { r = 79; g = 55; b = 139; a = 255 }

pub record ClickableButton (H : Type 0) : Type 0 where
  pub title : Bytes
  pub width : ℤ
  pub is_active : Bool
  pub click : Click H

module _ {H : Type 0} where
  unfoldable pub button : Bytes → ℤ → ClickableButton H
  button title width = record {
    title = title;
    width = width;
    is_active = false;
    click = record { on_click = none; pressed = false; hovered = false };
  }

  unfoldable pub set_active : ClickableButton H → Bool → ClickableButton H
  set_active b active = record b { is_active = active }

  unfoldable pub set_on_click : ClickableButton H → H → ClickableButton H
  set_on_click b on_click = record b { click = record b.click { on_click = some on_click } }

  unfoldable pub set_width : ClickableButton H → ℤ → ClickableButton H
  set_width b width = record b { width = width }

  unfoldable pub set_title : ClickableButton H → Bytes → ClickableButton H
  set_title b title = record b { title = title }

  -- The colour of the box behind the title.
  unfoldable pub background : ClickableButton H → Color
  background b =
      if b.is_active
      then primary
      else if b.click.pressed
      then surface_container_highest
      else if b.click.hovered
      then surface_container_high
      else surface_container

  -- The width and the height of the box and its colour, with the size of the title and the width that
  -- there is. Of the button's width the code asks only whether there is one.
  unfoldable pub button_box : ClickableButton H → ℤ × ℤ → ℤ → ℤ × ℤ × Color
  unfolding background
  button_box b size available =
      (if ltb_ℤ (pos 0) b.width then size.0 else available, size.1, background b)
