-- ===== src/Keyboard.antt =====
-- The keyboard: nanOS/Kernel/keyboardDriver.c. The key that `get_key` returns is an argument.
pub mod Layouts
pub mod Laws
use tpe_arqui.Prelude.{
  ℕ, ◌+◌, ◌-◌, ◌%◌, ltb, leb, ◌==◌, Bool, true, false, not, ◌&&◌, ◌||◌, if◌then◌else◌, ℤ, pos,
  negsuc, get_or,
}
use tpe_arqui.Libc.Copy.{Memory}
use tpe_arqui.Process.Defs.{Processes}
use tpe_arqui.Process.Status.{ppid_process, unblock_read_process}
use tpe_arqui.Process.Foreground.{set_foreground_force_process}
use tpe_arqui.Process.Table.{get_process_by_pid}
use tpe_arqui.Keyboard.Layouts.{kbdus, shiftkbdus, capskbdus}

-- `BUFFSIZE`
abbrev pub buff_max : ℕ
buff_max = 128

-- The statics.
pub record Keyboard : Type 0 where
  pub buffer : Memory
  pub ret_index : ℕ
  pub store_index : ℕ
  pub buff_size : ℕ
  pub shift_pressed : Bool
  pub caps_lock_pressed : Bool
  pub caps_lock_pressed_count : ℕ
  pub caps_lock_activated : Bool

unfoldable pub is_shift_key : ℕ → Bool
is_shift_key k = (k == 54) || (k == 42)

abbrev pub press_shift : Keyboard → Keyboard
press_shift s = record s { shift_pressed = not s.shift_pressed }

abbrev pub press_caps_lock : Keyboard → Keyboard
press_caps_lock s =
    let t = record s {
      caps_lock_pressed = not s.caps_lock_pressed;
      caps_lock_pressed_count = s.caps_lock_pressed_count + 1;
    } in
    if t.caps_lock_pressed_count % 2 == 0
    then record t { caps_lock_activated = not t.caps_lock_activated; caps_lock_pressed_count = 0 }
    else t

unfoldable pub process_key_scan_code : Keyboard → ℕ → Bool × Keyboard
process_key_scan_code s k =
    if (k == 42) || (k == 54)
    then (true, press_shift s)
    else if k == 58
    then (true, press_caps_lock s)
    else (false, s)

abbrev pub put_key : Keyboard → ℕ → Keyboard
put_key s k = record s {
  buffer = λ a. if s.store_index == a then k else s.buffer a;
  store_index = s.store_index + 1;
  buff_size = s.buff_size + 1;
}

abbrev pub wrap_store_index : Keyboard → Keyboard
wrap_store_index s = if s.store_index == buff_max then record s { store_index = 0 } else s

-- `k > 0 && k < TOPCHARCODE`
abbrev pub key_pressed : Keyboard → Processes → ℕ → Keyboard × Processes
key_pressed s p k =
    let (special, t) = process_key_scan_code s k in
    if special
    then (t, p)
    else (put_key t k, record p { heap = unblock_read_process p.heap p.foreground })

-- A key is a `char`, from -128 to 127.
unfoldable pub store_scancode : Keyboard → Processes → ℤ → Keyboard × Processes
unfolding process_key_scan_code
store_scancode s p (pos k) =
    let (t, q) = if ltb 0 k then key_pressed s p k else (s, p) in
    if s.buff_size == buff_max
    then (s, p)
    else if k == 1
    then (
      s,
      set_foreground_force_process p (get_process_by_pid p (ppid_process p.heap p.foreground)),
    )
    else (wrap_store_index t, q)
store_scancode s p (negsuc k) =
    let (special, t) = process_key_scan_code s (127 - k) in
    if s.buff_size == buff_max then (s, p) else (wrap_store_index t, p)

unfoldable pub is_alpha : ℕ → Bool
is_alpha k = (leb 16 k && leb k 25) || ((leb 30 k && leb k 38) || (leb 44 k && leb k 50))

unfoldable pub choose_keyboard : Keyboard → ℕ → ℤ
unfolding is_alpha
choose_keyboard s k =
    let plain = get_or kbdus k 0 in
    let shifted = get_or shiftkbdus k 0 in
    if plain == 0
    then negsuc 0
    else if s.caps_lock_activated && not s.shift_pressed
    then pos (get_or capskbdus k 0)
    else if not s.caps_lock_activated && s.shift_pressed
    then pos shifted
    else if s.caps_lock_activated && s.shift_pressed
    then pos (if is_alpha k then plain else shifted)
    else pos plain

unfoldable pub get_char : Keyboard → ℤ × Keyboard
get_char s =
    let k = s.buffer s.ret_index in
    let r = s.ret_index + 1 in
    let t = record s {
      ret_index = (if r == buff_max then 0 else r);
      buff_size = s.buff_size - 1;
    } in
    if s.buff_size == 0 then (negsuc 0, s) else (choose_keyboard t k, t)
