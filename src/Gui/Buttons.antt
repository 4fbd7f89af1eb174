-- ===== src/Gui/Buttons.antt =====
-- client/internal/gioui/components/buttonIcon.go and buttonLink.go: the other buttons. Icons are values of a type that is a parameter.
use secure_messager_erlang.Prelude.{
  Bool, false, none, some, Bytes, ℤ, pos, ◌+ℤ◌, ltb_ℤ, if◌then◌else◌,
}
use secure_messager_erlang.Gui.Click.{
  Click, Color, surface_container, surface_container_high, surface_container_highest, primary,
  on_primary, on_primary_variant,
}

abbrev pub on_surface : Color
on_surface = record { r = 230; g = 224; b = 233; a = 255 }

pub record ClickableButtonIcon (I H : Type 0) : Type 0 where
  pub icon : I
  pub width : ℤ
  pub size : ℤ
  pub is_active : Bool
  pub click : Click H

pub record ClickableButtonLink (H : Type 0) : Type 0 where
  pub title : Bytes
  pub click : Click H

module _ {I H : Type 0} where
  unfoldable pub button_icon : I → ℤ → ℤ → Bool → ClickableButtonIcon I H
  button_icon icon width size is_active = record {
    icon = icon;
    width = width;
    size = size;
    is_active = is_active;
    click = record { on_click = none; pressed = false; hovered = false };
  }

  unfoldable pub icon_set_active : ClickableButtonIcon I H → Bool → ClickableButtonIcon I H
  icon_set_active b active = record b { is_active = active }

  unfoldable pub icon_set_width : ClickableButtonIcon I H → ℤ → ClickableButtonIcon I H
  icon_set_width b width = record b { width = width }

  unfoldable pub icon_set_on_click : ClickableButtonIcon I H → H → ClickableButtonIcon I H
  icon_set_on_click b on_click = record b { click = record b.click { on_click = some on_click } }

  -- The colours of the icon and of the box behind it.
  unfoldable pub icon_colors : ClickableButtonIcon I H → Color × Color
  icon_colors b = (
    if b.is_active then on_primary else on_surface,
    if b.is_active
        then primary
        else if b.click.pressed
        then surface_container_highest
        else if b.click.hovered
        then surface_container_high
        else surface_container,
  )

  -- The width and the height of the box.
  unfoldable pub icon_box : ClickableButtonIcon I H → ℤ × ℤ
  icon_box b =
      (if ltb_ℤ (b.size +ℤ pos 20) b.width then b.width else b.size +ℤ pos 20, b.size +ℤ pos 10)

module _ {H : Type 0} where
  unfoldable pub button_link : Bytes → ClickableButtonLink H
  button_link title = record {
    title = title;
    click = record { on_click = none; pressed = false; hovered = false };
  }

  unfoldable pub link_set_on_click : ClickableButtonLink H → H → ClickableButtonLink H
  link_set_on_click l on_click = record l { click = record l.click { on_click = some on_click } }

  unfoldable pub link_set_title : ClickableButtonLink H → Bytes → ClickableButtonLink H
  link_set_title l title = record l { title = title }

  unfoldable pub link_color : ClickableButtonLink H → Color
  link_color l = if l.click.hovered then on_primary_variant else on_primary
