-- ===== src/Keyboard.antt =====
-- src/kernel/keyboard.c: the keyboard interrupt. The controller is the bytes that its data port gives in
-- order and what was written to the ports, the last first; a poll of its status port only waits.
pub mod Keymap
pub mod Codes
pub mod Characters
pub mod Lights
pub mod Typing
pub mod Pressing
pub mod Handler
mod Tests
use txos.Base.{
  ℕ, zero, suc, ◌+◌, ◌-◌, ◌*◌, ◌/◌, ◌%◌, ◌^◌, Bool, true, false, not, ◌&&◌, ◌||◌, List, [], ◌∷◌,
  Outcome, ok, out_of_fuel, ◌>>=◌, ◌>>◌, assert, ◌==◌, ltb, leb, if◌then◌else◌, null, bit_and,
  bit_or,
}
use txos.Fifo.{Fifo, fifo_init, fifo_put}
use txos.Interrupt.{send_eoi}
use txos.Task.{Kernel, task_unblock}
use txos.Keyboard.Keymap.{keycap}

abbrev pub keyboard_data_port : ℕ
keyboard_data_port = 0x60

abbrev pub keyboard_cmd_led : ℕ
keyboard_cmd_led = 0xed

abbrev pub keyboard_cmd_ack : ℕ
keyboard_cmd_ack = 0xfa

abbrev pub keyboard_cmd_resend : ℕ
keyboard_cmd_resend = 0xfe

abbrev pub inv : ℕ
inv = 0

abbrev pub extcode_byte : ℕ
extcode_byte = 0xe0

abbrev pub buffer_size : ℕ
buffer_size = 64

abbrev pub key_ctrl_l : ℕ
key_ctrl_l = 0x1d

abbrev pub key_shift_l : ℕ
key_shift_l = 0x2a

abbrev pub key_slash : ℕ
key_slash = 0x35

abbrev pub key_shift_r : ℕ
key_shift_r = 0x36

abbrev pub key_alt_l : ℕ
key_alt_l = 0x38

abbrev pub key_capslock : ℕ
key_capslock = 0x3a

abbrev pub key_numlock : ℕ
key_numlock = 0x45

abbrev pub key_scrlock : ℕ
key_scrlock = 0x46

abbrev pub key_clipboard : ℕ
key_clipboard = 0x5d

abbrev pub key_print_screen : ℕ
key_print_screen = 0xb7

-- `keyboard_t`, with the `key_state` of the entries of `keymap`: plain (false) and extended (true)
pub record Keyboard : Type 0 where
  pub capslock : Bool
  pub scrlock : Bool
  pub numlock : Bool
  pub extcode : Bool
  pub ctrl : Bool
  pub alt : Bool
  pub shift : Bool
  pub fifo : Fifo
  pub waiter : ℕ
  pub key_state : ℕ → Bool → Bool

pub record Controller : Type 0 where
  pub replies : List ℕ
  pub written : List (ℕ × ℕ)

pub record System : Type 0 where
  pub keyboard : Keyboard
  pub controller : Controller
  pub kernel : Kernel

-- `inb` of the data port; a controller with nothing left is waited for.
abbrev pub take_reply : Controller → Outcome (ℕ × Controller)
take_reply c = elim c.replies [
  | [] ↦ out_of_fuel
  | reply ∷ replies ↦ ok (reply, record c { replies = replies })
]

-- `do { outb(port, byte); state = inb(port); } while (state == KEYBOARD_CMD_RESEND)`
unfoldable pub send : (byte : ℕ) → (replies : List ℕ) → List (ℕ × ℕ) → Outcome (ℕ × Controller)
send byte [] written = out_of_fuel
send byte (state ∷ replies) written =
    let written' = (keyboard_data_port, byte) ∷ written in
    let again = send byte replies written' in
    if state == keyboard_cmd_resend
    then again
    else ok (state, record { replies = replies; written = written' })

abbrev pub bit : Bool → ℕ
bit true = 1
bit false = 0

-- the byte of the three lights
abbrev pub leds : Keyboard → ℕ
leds k = bit_or (bit_or (bit k.capslock * 4) (bit k.numlock * 2)) (bit k.scrlock)

unfoldable pub keyboard_set_leds : Keyboard → Controller → Outcome Controller
keyboard_set_leds k c = do
  (state, c) ← send keyboard_cmd_led c.replies c.written
  assert (state == keyboard_cmd_ack)
  (_, c) ← send (leds k) c.replies c.written
  ok c

-- `keyboard_new`; the lights are those of the keyboard that it has reset.
unfoldable pub keyboard_new : Keyboard → Controller → Outcome (Keyboard × Controller)
keyboard_new k c = do
  let k' = record k {
    capslock = false;
    scrlock = false;
    numlock = false;
    extcode = false;
    ctrl = false;
    alt = false;
    shift = false;
  }
  c ← keyboard_set_leds k' c
  ok (record k' { fifo = fifo_init k.fifo.buf buffer_size; waiter = null }, c)

-- `isAlpha`
abbrev pub is_alpha : ℕ → Bool
is_alpha c = (leb 97 c && leb c 122) || (leb 65 c && leb c 90)

abbrev pub key_state_set : Keyboard → (make_code : ℕ) → (ext down : Bool) → Keyboard
key_state_set k make_code ext down = record k {
  key_state = λ code e.
      if code == make_code
      then (if ext
          then (if e then down else k.key_state code e)
          else (if e then k.key_state code e else down))
      else k.key_state code e;
}

-- The locks, with whether a light has changed.
abbrev pub toggle_locks : Keyboard → (make_code : ℕ) → Bool × Keyboard
toggle_locks k make_code =
    if make_code == key_numlock
    then (true, record k { numlock = not k.numlock })
    else if make_code == key_capslock
    then (true, record k { capslock = not k.capslock })
    else if make_code == key_scrlock
    then (true, record k { scrlock = not k.scrlock })
    else (false, k)

abbrev pub set_modifiers : Keyboard → Keyboard
set_modifiers k = record k {
  ctrl = k.key_state key_ctrl_l false || k.key_state key_ctrl_l true;
  alt = k.key_state key_alt_l false || k.key_state key_alt_l true;
  shift = k.key_state key_shift_l false || k.key_state key_shift_r false;
}

-- which of a key's two characters is meant, the first being `low`
abbrev pub shifted_of : Keyboard → (low : ℕ) → Bool
shifted_of k low =
    let by_lock = if k.capslock && is_alpha low then true else false in
    if k.shift then not by_lock else by_lock

abbrev pub shifted : Keyboard → (make_code : ℕ) → Bool
shifted k make_code = shifted_of k (keycap make_code).0

unfoldable pub key_char : Keyboard → (make_code : ℕ) → (ext : Bool) → ℕ
key_char k make_code ext =
    let caps = keycap make_code in
    if ext
    then (if make_code == key_slash then caps.0 else caps.1)
    else (if shifted k make_code then caps.1 else caps.0)

-- The character goes to the queue, and the task that waits for one is woken.
unfoldable pub put_char : System → (ch : ℕ) → Outcome System
put_char s ch = do
  fifo ← fifo_put s.keyboard.fifo ch
  let s' = record s { keyboard = record s.keyboard { fifo = fifo } }
  let wake = (do
    kernel ← task_unblock s'.kernel s'.keyboard.waiter
    ok (record s' { kernel = kernel; keyboard = record s'.keyboard { waiter = null } }))
  if s.keyboard.waiter == null then ok s' else wake

-- The handler from the make code on.
unfoldable pub key_down : System → (make_code : ℕ) → (ext : Bool) → Outcome System
key_down s make_code ext = do
  let (led, k) = toggle_locks (key_state_set s.keyboard make_code ext true) make_code
  let lit = keyboard_set_leds k s.controller
  c ← if led then lit else ok s.controller
  let k' = set_modifiers k
  let s' = record s { keyboard = k'; controller = c }
  let ch = key_char k' make_code ext
  let put = put_char s' ch
  if ch == inv then ok s' else put

-- The handler behind the reading of the scan code, a `u16`.
unfoldable pub receive : System → (byte : ℕ) → Outcome System
receive s byte =
    let k = s.keyboard in
    let ext = k.extcode in
    let scan_code = if ext then bit_or byte 0xe0000 % 2 ^ 16 else byte in
    let s' = record s { keyboard = record k { extcode = false } } in
    let make_code = bit_and scan_code 0x7f in
    let released = record s' { keyboard = key_state_set s'.keyboard make_code ext false } in
    let pressed = key_down s' make_code ext in
    if byte == extcode_byte
    then ok (record s { keyboard = record k { extcode = true } })
    else if not (make_code == key_print_screen) && ltb key_clipboard make_code
    then ok s'
    else if not (bit_and scan_code 0x80 == 0)
    then ok released
    else pressed

unfoldable pub keyboard_handler : System → (vector : ℕ) → Outcome System
keyboard_handler s vector = do
  assert (vector == 0x21)
  let c = record s.controller { written = send_eoi vector s.controller.written }
  (byte, c) ← take_reply c
  receive (record s { controller = c }) byte
