-- ===== src/Tests/Keyboard.antt =====
-- The keyboard of nanOS/Kernel/keyboardDriver.c: a ring of keys that goes round the end of its array.
use tpe_arqui.Prelude.{◌≡◌, refl, arith, true, false, [], get_or, ◌==◌, if◌then◌else◌, pos, negsuc}
use tpe_arqui.Process.Defs.{Process, Processes, blocked_read}
use tpe_arqui.Keyboard.{Keyboard, store_scancode, get_char, choose_keyboard, is_alpha}
use tpe_arqui.Keyboard.Layouts.{kbdus, shiftkbdus}
use tpe_arqui.Syscalls.Keys.{Read, HasChars, read_keys, read_keys_lem}
use tpe_arqui.Keyboard.Laws.{
  IsRing, Stored, Taken, store_scancode_lem, get_char_lem, store_scancode_full, caps_lock_lem,
}

abbrev reader : Process
reader = record {
  st = blocked_read;
  name = [];
  entry_point = 0;
  rsp = 0;
  stack_page = 0;
  n_data_page = 0;
  data_page = [];
  pid = 4;
  ppid = 1;
  open_fds = λ fd. false;
}

abbrev one_reader : Processes
one_reader = record {
  heap = λ p. reader;
  process_table = [];
  foreground = 10;
  n_processes = 1;
  lock_calls = [];
}

-- Three keys wait, the last of them at the end of the array; Caps Lock is on.
abbrev three_keys : Keyboard
three_keys = record {
  buffer = λ a. 16;
  ret_index = 124;
  store_index = 127;
  buff_size = 3;
  shift_pressed = false;
  caps_lock_pressed = false;
  caps_lock_pressed_count = 0;
  caps_lock_activated = true;
}

three_keys-IsRing : IsRing three_keys
three_keys-IsRing = record { ret_in = omega arith; size_in = omega arith; store_after = refl }

abbrev no_room : Keyboard
no_room = record three_keys { buff_size = 128; store_index = 124; shift_pressed = true }

store_scancode_lem_example :
    let (t, q) = store_scancode three_keys one_reader (pos 30) in
    Stored three_keys one_reader 30 t q
store_scancode_lem_example =
    store_scancode_lem three_keys one_reader 30 three_keys-IsRing (omega arith) (omega arith)
      (omega arith) (omega arith) (omega arith) (omega arith)

get_one_char : let (r, t) = get_char three_keys in Taken three_keys r t
get_one_char = get_char_lem three_keys three_keys-IsRing (omega arith)

-- The left Shift key, 54, goes up.
store_when_full : store_scancode no_room one_reader (negsuc 73) ≡ (no_room, one_reader)
store_when_full = store_scancode_full no_room one_reader (negsuc 73) refl

caps_lock_letter :
    let table = if is_alpha 16 then shiftkbdus else kbdus in
    choose_keyboard three_keys 16
    ≡ (if get_or kbdus 16 0 == 0 then negsuc 0 else pos (get_or table 16 0))
caps_lock_letter = caps_lock_lem three_keys 16 refl refl (omega arith) (omega arith) (omega arith)

three_keys-HasChars : HasChars three_keys
unfolding choose_keyboard is_alpha
three_keys-HasChars = λ j l. refl

-- Five bytes are to be read.
read_keys_lem_example :
    let (chars, left, u) = read_keys 5 three_keys in Read three_keys 5 chars left u
read_keys_lem_example = read_keys_lem 5 three_keys three_keys-IsRing three_keys-HasChars
