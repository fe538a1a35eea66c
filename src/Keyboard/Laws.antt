-- ===== src/Keyboard/Laws.antt =====
-- The keys of nanOS/Kernel/keyboardDriver.c come out in the order in which they went in; the flags.
use tpe_arqui.Prelude.{
  ℕ, ◌+◌, ◌%◌, ◌≤◌, ◌<◌, ◌≡◌, ◌≢◌, refl, subst, arith, ◌==◌, true, false, not, if◌then◌else◌, ℤ,
  pos, negsuc, get_or,
}
use tpe_arqui.Process.Defs.{Processes}
use tpe_arqui.Process.Status.{unblock_read_process}
use tpe_arqui.Keyboard.{
  Keyboard, buff_max, store_scancode, process_key_scan_code, choose_keyboard, is_alpha, get_char,
}
use tpe_arqui.Keyboard.Layouts.{kbdus, shiftkbdus}

pub record IsRing (s : Keyboard) : Type 0 where
  pub ret_in : s.ret_index < buff_max
  pub size_in : s.buff_size ≤ buff_max
  pub store_after : s.store_index ≡ (s.ret_index + s.buff_size) % buff_max

-- The `j`-th key that waits, the oldest first.
abbrev pub key : Keyboard → ℕ → ℕ
key s j = s.buffer ((s.ret_index + j) % buff_max)

pub record Stored (s : Keyboard) (p : Processes) (k : ℕ) (t : Keyboard) (q : Processes)
    : Type 0 where
  pub ring : IsRing t
  pub size : t.buff_size ≡ s.buff_size + 1
  pub kept : (j : ℕ) → j < s.buff_size → key t j ≡ key s j
  pub added : key t s.buff_size ≡ k
  pub reader : q.heap ≡ unblock_read_process p.heap p.foreground

-- A key other than Escape, Shift and Caps Lock that goes down while there is room joins the end of
-- the ring, whose other keys keep their order, and the foreground process is woken if it waits for
-- a key.
pub store_scancode_lem :
    (s : Keyboard) (p : Processes) (k : ℕ)
    → IsRing s
    → s.buff_size < buff_max
    → 1 < k
    → k < 128
    → k ≢ 42
    → k ≢ 54
    → k ≢ 58
    → let (t, q) = store_scancode s p (pos k) in Stored s p k t q
unfolding store_scancode
store_scancode_lem s p k v room lo hi a b c = record {
  ring = record {
    ret_in = ground (arith, v.ret_in, v.store_after, room, lo, a, b, c);
    size_in = ground (arith, v.ret_in, v.store_after, room, lo, a, b, c);
    store_after = ground (arith, v.ret_in, v.store_after, room, lo, a, b, c);
  };
  size = ground (arith, v.ret_in, v.store_after, room, lo, a, b, c);
  kept = λ j l. ground (arith, v.ret_in, v.store_after, room, lo, a, b, c, l);
  added = ground (arith, v.ret_in, v.store_after, room, lo, a, b, c);
  reader = ground (arith, room, lo, a, b, c);
}

pub record Taken (s : Keyboard) (result : ℤ) (t : Keyboard) : Type 0 where
  pub ring : IsRing t
  pub size : t.buff_size + 1 ≡ s.buff_size
  pub left : (j : ℕ) → j < t.buff_size → key t j ≡ key s (j + 1)
  pub char : result ≡ choose_keyboard t (key s 0)
  pub flags : (t.shift_pressed ≡ s.shift_pressed) × (t.caps_lock_activated ≡ s.caps_lock_activated)

get_char-held :
    (s : Keyboard)
    → 0 < s.buff_size
    → (get_char s).0 ≡ choose_keyboard (get_char s).1 (s.buffer s.ret_index)
unfolding get_char
get_char-held s held = let e : (s.buff_size == 0) ≡ false = ground (arith, held) in rw e refl

-- While keys wait, `get_char` returns the character of the oldest of them under the flags of the
-- moment, and takes it from the ring, which keeps the others in order.
pub get_char_lem :
    (s : Keyboard) → IsRing s → 0 < s.buff_size → let (r, t) = get_char s in Taken s r t
unfolding get_char
get_char_lem s v held = record {
  ring = record {
    ret_in = ground (arith, v.ret_in, held);
    size_in = ground (arith, v.size_in, held);
    store_after = ground (arith, v.ret_in, v.store_after, v.size_in, held);
  };
  size = ground (arith, held);
  left = λ j l. ground (arith, v.ret_in, v.size_in, held, l);
  char =
      subst (λ j. (get_char s).0 ≡ choose_keyboard (get_char s).1 (s.buffer j)) {x = s.ret_index}
        {y = (s.ret_index + 0) % buff_max} (ground (arith, v.ret_in)) (get_char-held s held);
  flags = ground (arith, held);
}

-- While the ring is full a key changes nothing, be it pressed or released: the release of a Shift
-- key is lost, so that the flag stays as the press has left it.
pub store_scancode_full :
    (s : Keyboard) (p : Processes) (k : ℤ) → s.buff_size ≡ buff_max → store_scancode s p k ≡ (s, p)
unfolding store_scancode
store_scancode_full s p (pos k) f = ground (arith, f)
store_scancode_full s p (negsuc k) f = ground (arith, f)

-- The flags after the scan code `k`.
abbrev pub code : Keyboard → ℕ → Keyboard
code s k = (process_key_scan_code s k).1

-- A Shift key that goes down and up again leaves the flags as they were, and so do two rounds of Caps
-- Lock; one round of it, from an even count, turns `caps_lock_activated` over.
pub modifiers_lem :
    (s : Keyboard)
    → s.caps_lock_pressed_count ≡ 0
    → let caps = code (code s 58) 58 in
      ((code (code s 42) 42) ≡ s)
      × (caps.caps_lock_activated ≡ not s.caps_lock_activated)
      × (code (code caps 58) 58 ≡ s)
unfolding process_key_scan_code
modifiers_lem s z = ground (arith, z)

-- On the letters, Caps Lock gives what Shift gives; on the other keys that can be printed it gives
-- the plain character, but for the keys 41 and 43, where the table has others.
pub caps_lock_lem :
    (s : Keyboard) (k : ℕ)
    → s.caps_lock_activated ≡ true
    → s.shift_pressed ≡ false
    → k < 128
    → k ≢ 41
    → k ≢ 43
    → let table = if is_alpha k then shiftkbdus else kbdus in
      choose_keyboard s k ≡ (if get_or kbdus k 0 == 0 then negsuc 0 else pos (get_or table k 0))
unfolding choose_keyboard is_alpha
caps_lock_lem s k a b l n m = ground (arith, a, b, l, n, m)
