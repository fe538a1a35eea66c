-- ===== src/Tests/Video.antt =====
-- The screen of nanOS/Kernel/videoDriver.c: one of four characters by two.
use tpe_arqui.Prelude.{[], ◌∷◌, ◌≡◌, inl, refl, arith, pos, negsuc, some}
use tpe_arqui.Video.{Video, Color, valid_colors, fill, put_char}
use tpe_arqui.Video.Pixels.{Shows, fill_lem, fill_past_edge}
use tpe_arqui.User.Format.Text.{decimal}
use tpe_arqui.Video.Text.{num_text}
use tpe_arqui.Video.Numbers.{num_text-decimal}
use tpe_arqui.Syscalls.Screen.{write_out, write_error, Written, write_error-OnScreen}
use tpe_arqui.Video.Cursor.{Stays, put_char-OnScreen}

abbrev black : Color
black = record { red = 0; green = 0; blue = 0 }

abbrev white : Color
white = record { red = 255; green = 255; blue = 255 }

-- The cursor is on the last place.
abbrev screen : Video
screen = record {
  cursor = 7;
  x_res = 32;
  y_res = 32;
  char_color = white;
  bg_color = black;
  base = 1000;
  frame = λ _. 0;
}

-- The pixel to the right keeps its colour.
fill_last_column :
    let (r, t) = fill screen white (pos 31) (pos 3) in
    (r ≡ 1) × Shows t 31 3 white × Shows t 30 3 black
fill_last_column =
    fill_lem screen white black 31 3 30 3 (omega arith) (omega arith) (omega arith)
      (inl (omega arith)) (refl, refl, refl)

fill_past_edge_example : fill screen white (pos 32) (pos 3) ≡ fill screen white (pos 0) (pos 4)
fill_past_edge_example = fill_past_edge screen white 3 (omega arith)

-- The character behind the last place: the screen scrolls.
last_place : Stays screen (put_char (λ _. 85) screen 65)
last_place = put_char-OnScreen (λ _. 85) screen 65 (omega arith) (omega arith) refl

minus_42 : num_text (negsuc 41) ≡ some (decimal (negsuc 41))
minus_42 = num_text-decimal (negsuc 41) (omega arith)

-- "A", a newline, "B".
write_error-OnScreen_example :
    Written screen 3 (write_out (λ _. 85) screen (65 ∷ 10 ∷ 66 ∷ []))
    × Written screen 3 (write_error (λ _. 85) screen (65 ∷ 10 ∷ 66 ∷ []))
unfolding valid_colors
write_error-OnScreen_example =
    write_error-OnScreen (λ _. 85) screen (65 ∷ 10 ∷ 66 ∷ []) refl (omega arith) (omega arith)
      (omega arith) refl
