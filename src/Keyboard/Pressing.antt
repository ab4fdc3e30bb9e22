-- ===== src/Keyboard/Pressing.antt =====
-- The handler from a make code on: the locks, the lights, the modifiers and the character.
use txos.Base.{
  ℕ, ◌<◌, ◌≡◌, ◌≢◌, inl, inr, refl, ap, ◌∙◌, arith, Bool, true, false, ok, List, ◌∷◌, ◌++◌,
  replicate, ◌==◌, if◌then◌else◌, Bool-cases, null, suc,
}
use txos.Fifo.Refine.{contents}
use txos.Fifo.Queue
use txos.Keyboard.{
  Keyboard, Controller, System, put_char, key_down, key_char, toggle_locks, set_modifiers,
  key_state_set, keyboard_set_leds, keyboard_cmd_resend, keyboard_cmd_ack, leds, keyboard_data_port,
  keyboard_cmd_led, inv, key_numlock, key_capslock, key_scrlock,
}
use txos.Keyboard.Characters.{key_char_lem}
use txos.Keyboard.Lights.{keyboard_set_leds_lem}
use txos.Keyboard.Typing.{IsValid, put_char-Typed}

-- The controller takes the next command and its byte, each after some requests to resend.
pub record Acknowledges (replies : List ℕ) : Type 0 where
  pub resent : ℕ
  pub resent_byte : ℕ
  pub last : ℕ
  pub rest : List ℕ
  pub taken : last ≢ keyboard_cmd_resend
  pub order :
      replies
      ≡ replicate resent keyboard_cmd_resend
        ++ keyboard_cmd_ack ∷ (replicate resent_byte keyboard_cmd_resend ++ last ∷ rest)

lights-ok :
    (k : Keyboard) (c : Controller) (led : Bool)
    → Acknowledges c.replies
    → (c' : Controller) × ((if led then keyboard_set_leds k c else ok c) ≡ ok c')
lights-ok k c false a = (c, refl)
lights-ok k c true a = (
  record {
    replies = a.rest;
    written =
        replicate (suc a.resent_byte) (keyboard_data_port, leds k)
        ++ (replicate (suc a.resent) (keyboard_data_port, keyboard_cmd_led) ++ c.written);
  },
  rw a.order (
      keyboard_set_leds_lem k a.resent a.resent_byte keyboard_cmd_ack a.last a.rest c.written
        (omega arith) a.taken),
)

-- the keyboard after the make code of a key
abbrev pub pressed : Keyboard → (make_code : ℕ) → (ext : Bool) → Keyboard
pressed k make_code ext =
    set_modifiers (toggle_locks (key_state_set k make_code ext true) make_code).1

pressed-kept :
    (k : Keyboard) (make_code : ℕ) (ext : Bool)
    → ((pressed k make_code ext).fifo ≡ k.fifo) × ((pressed k make_code ext).waiter ≡ k.waiter)
pressed-kept k make_code ext = elim (Bool-cases (make_code == key_numlock)) [
  | inl numlock ↦ rw numlock (refl, refl)
  | inr other ↦ elim (Bool-cases (make_code == key_capslock)) [
    | inl capslock ↦ rw (other, capslock) (refl, refl)
    | inr more ↦ elim (Bool-cases (make_code == key_scrlock)) [
      | inl scrlock ↦ rw (other, more, scrlock) (refl, refl)
      | inr none ↦ rw (other, more, none) (refl, refl)
    ]
  ]
]

-- Two systems with the same queue, reader and kernel.
pub record Alike (s s' : System) : Type 0 where
  pub fifo : s'.keyboard.fifo ≡ s.keyboard.fifo
  pub waiter : s'.keyboard.waiter ≡ s.keyboard.waiter
  pub kernel : s'.kernel ≡ s.kernel

pub Alike-IsValid : {s s' : System} → IsValid s → Alike s s' → IsValid s'
Alike-IsValid v a = record {
  ring = rw a.fifo v.ring;
  room = rw a.fifo v.room;
  characters = rw a.fifo v.characters;
  kernel = rw a.kernel v.kernel;
  waiting = rw (a.kernel, a.waiter) v.waiting;
}

-- What an interrupt that means the character `ch` leaves; a `ch` of 0 is no character.
pub record Heard (s s' : System) (ch : ℕ) : Type 0 where
  pub valid : IsValid s'
  pub text :
      contents s'.keyboard.fifo
      ≡ (if ch == 0 then contents s.keyboard.fifo else Queue.put 63 (contents s.keyboard.fifo) ch)
  pub waiter : s'.keyboard.waiter ≡ (if ch == 0 then s.keyboard.waiter else null)

pub unheard : {s s' : System} → IsValid s → Alike s s' → Heard s s' 0
unheard v a = record { valid = Alike-IsValid v a; text = ap contents a.fifo; waiter = a.waiter }

-- The end of the handler, from the character on.
char-Heard :
    (s after : System) (ch : ℕ)
    → IsValid s
    → Alike s after
    → ch < 128
    → (s' : System) × ((if ch == inv then ok after else put_char after ch) ≡ ok s') × Heard s s' ch
char-Heard s after ch v a small = elim (Bool-cases (ch == 0)) [
  | inl none ↦ (
    after,
    rw none refl,
    record {
      valid = Alike-IsValid v a;
      text = rw none (ap contents a.fifo);
      waiter = rw none a.waiter;
    },
  )
  | inr typed ↦
      let (s', put, t) = put_char-Typed after ch (Alike-IsValid v a) small in
      (
        s',
        rw typed put,
        record {
          valid = t.valid;
          text = rw typed (t.text ∙ ap (λ f. Queue.put 63 (contents f) ch) a.fifo);
          waiter = rw typed t.woken;
        },
      )
]

pub key_down-Heard :
    (s : System) (make_code : ℕ) (ext : Bool)
    → IsValid s
    → make_code < 128
    → Acknowledges s.controller.replies
    → (s' : System) × (key_down s make_code ext ≡ ok s')
      × Heard s s' (key_char (pressed s.keyboard make_code ext) make_code ext)
unfolding key_down
key_down-Heard s make_code ext v small a =
    let (led, k) = toggle_locks (key_state_set s.keyboard make_code ext true) make_code in
    let (c, lit) = lights-ok k s.controller led a in
    let after : System = record s { keyboard = set_modifiers k; controller = c } in
    let (fifo, waiter) = pressed-kept s.keyboard make_code ext in
    let alike : Alike s after = record { fifo = fifo; waiter = waiter; kernel = refl } in
    let ch = key_char (set_modifiers k) make_code ext in
    let (s', done, heard) =
      char-Heard s after ch v alike (key_char_lem (set_modifiers k) make_code ext small).0 in
    (s', rw lit done, heard)
