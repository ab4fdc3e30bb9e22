-- ===== src/Fifo/Queue.antt =====
-- What a byte queue promises: at most `cap` bytes, oldest first; a full one forgets its oldest.
use txos.Base.{ℕ, List, [], ◌∷◌, ◌++◌, Option, none, some, length, ltb, if◌then◌else◌}

abbrev pub Queue : Type 0
Queue = List ℕ

abbrev pub forget_oldest : Queue → Queue
forget_oldest [] = []
forget_oldest (x ∷ q) = q

unfoldable pub put : ℕ → Queue → ℕ → Queue
put cap q byte = (if ltb (length q) cap then q else forget_oldest q) ++ byte ∷ []

unfoldable pub get : Queue → Option (ℕ × Queue)
get [] = none
get (x ∷ q) = some (x, q)
