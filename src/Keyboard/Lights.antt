-- ===== src/Keyboard/Lights.antt =====
-- The exchange with the controller that sets the lights.
use txos.Base.{
  ℕ, zero, suc, ◌≡◌, ◌≢◌, refl, ok, halt, List, ◌∷◌, ◌++◌, replicate, ◌==◌, if◌then◌else◌, ◌∙◌, ap,
  ==_ne, Bool-cases, inl, inr,
}
use txos.Keyboard.{
  Keyboard, send, leds, keyboard_set_leds, keyboard_cmd_ack, keyboard_cmd_led, keyboard_cmd_resend,
  keyboard_data_port,
}

-- one more byte on top of a run of them
replicate-under :
    (n : ℕ) (x : ℕ × ℕ) (rest : List (ℕ × ℕ))
    → replicate n x ++ x ∷ rest ≡ x ∷ replicate n x ++ rest
replicate-under zero x rest = refl
replicate-under (suc n) x rest = ap (λ r. x ∷ r) (replicate-under n x rest)

-- A byte is sent again after each of `times` requests to resend.
send_lem :
    (times byte state : ℕ) (replies : List ℕ) (written : List (ℕ × ℕ))
    → state ≢ keyboard_cmd_resend
    → send byte (replicate times keyboard_cmd_resend ++ state ∷ replies) written
      ≡ ok (
        state,
        record {
          replies = replies;
          written = replicate (suc times) (keyboard_data_port, byte) ++ written;
        },
      )
unfolding send
send_lem zero byte state replies written ne = rw (==_ne state keyboard_cmd_resend ne) refl
send_lem (suc times) byte state replies written ne =
    send_lem times byte state replies ((keyboard_data_port, byte) ∷ written) ne
    ∙ ap (λ w. ok (state, record { replies = replies; written = w }))
        (replicate-under (suc times) (keyboard_data_port, byte) written)

-- However often the controller asks for the command and the lights again, `keyboard_set_leds` ends once
-- each is taken: with the lights sent after the command if the command was acknowledged, and with a
-- failed assertion if it was answered otherwise.
pub keyboard_set_leds_lem :
    (k : Keyboard) (m n state last : ℕ) (rest : List ℕ) (written : List (ℕ × ℕ))
    → state ≢ keyboard_cmd_resend
    → last ≢ keyboard_cmd_resend
    → keyboard_set_leds k (record {
      replies =
          replicate m keyboard_cmd_resend
          ++ state ∷ (replicate n keyboard_cmd_resend ++ last ∷ rest);
      written = written;
    })
      ≡ (if state == keyboard_cmd_ack
          then ok (record {
            replies = rest;
            written =
                replicate (suc n) (keyboard_data_port, leds k)
                ++ (replicate (suc m) (keyboard_data_port, keyboard_cmd_led) ++ written);
          })
          else halt)
unfolding keyboard_set_leds
keyboard_set_leds_lem k m n state last rest written ne ne' =
    rw
      (send_lem m keyboard_cmd_led state (replicate n keyboard_cmd_resend ++ last ∷ rest) written
        ne)
      (elim (Bool-cases (state == keyboard_cmd_ack)) [
        | inl acked ↦
            rw
              (
                acked,
                send_lem n (leds k) last rest
                    (replicate (suc m) (keyboard_data_port, keyboard_cmd_led) ++ written) ne',
              )
              refl
        | inr other ↦ rw other refl
      ])
