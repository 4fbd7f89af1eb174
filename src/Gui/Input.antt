-- ===== src/Gui/Input.antt =====
-- client/internal/gioui/components/input.go: the text input around the editor of the drawing library,
-- which holds the text. What a frame shows of it, given the height of the laid out text.
use secure_messager_erlang.Prelude.{
  Bool, not, ◌&&◌, List, [], ◌∷◌, Bytes, ℤ, pos, ◌+ℤ◌, eqb_ℤ, length, ◌==◌, if◌then◌else◌,
}
use secure_messager_erlang.Gui.Click.{Color, surface_container}

pub record InputStyle : Type 0 where
  pub text : Bytes
  pub single_line : Bool
  pub hint : Bytes
  pub max_lines : ℤ

unfoldable pub input : Bytes → ℤ → InputStyle
input hint max_lines = record {
  text = [];
  single_line = eqb_ℤ max_lines (pos 1);
  hint = hint;
  max_lines = max_lines;
}

-- strings.Split by a line feed.
unfoldable pub split_lines : Bytes → List Bytes
split_lines [] = [] ∷ []
split_lines (b ∷ bs) = elim (split_lines bs) [
  | [] ↦ (b ∷ []) ∷ []
  | line ∷ rest ↦ if b == 10 then [] ∷ line ∷ rest else (b ∷ line) ∷ rest
]

abbrev pub last_line : List Bytes → Bytes
last_line [] = []
last_line (line ∷ []) = line
last_line (line ∷ next ∷ rest) = last_line (next ∷ rest)

-- The layers of a frame, from the bottom.
pub data Layer : Type 0 where
  round_box : Color → ℤ → Layer
  text_layer hint_layer : Bytes → Layer

-- The height of the box, with that of the text.
unfoldable pub input_height : InputStyle → ℤ → ℤ
input_height e height =
    let lines = split_lines e.text in
    if not (length (last_line lines) == 0) && not (length lines == 1)
    then height +ℤ pos 1
    else height

unfoldable pub input_layers : InputStyle → ℤ → List Layer
input_layers e height =
    round_box surface_container (input_height e height)
    ∷ text_layer e.text
    ∷ (if length e.text == 0 then hint_layer e.hint ∷ [] else [])
