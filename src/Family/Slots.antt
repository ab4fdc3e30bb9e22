-- ===== src/Family/Slots.antt =====
-- The pid of a process is its slot.
use txos.Base.{
  ℕ, zero, suc, ◌+◌, ◌≡◌, refl, ap, ◌∙◌, arith, Bool, true, false, not, List, [], ◌∷◌, Option, none,
  some, ◌==◌, if◌then◌else◌, get_elem?, ltb,
}
use txos.Family.{Process, adopt, adopt_children}

-- each process from slot `i` on has its slot for a pid
abbrev pub Numbered : List (Option Process) → ℕ → Type 0
Numbered [] i = Unit {0}
Numbered (none ∷ slots) i = Numbered slots (i + 1)
Numbered (some p ∷ slots) i = (p.pid ≡ i) × Numbered slots (i + 1)

adopt-Numbered :
    (current : Process) (slot : ℕ) (slots : List (Option Process)) (i : ℕ)
    → Numbered slots i
    → Numbered (adopt current slot slots i) i
unfolding adopt
adopt-Numbered current slot [] i h = tt
adopt-Numbered current slot (none ∷ slots) i h = adopt-Numbered current slot slots (i + 1) h
adopt-Numbered current slot (some p ∷ slots) i h =
    (ground (arith, h.0), adopt-Numbered current slot slots (i + 1) h.1)

-- the process of a slot after the exit of `current`
abbrev pub adopted : (current : Process) → (slot i : ℕ) → Option Process → Option Process
adopted current slot i none = none
adopted current slot i (some p) =
    some (
      if i == slot
      then p
      else if p.ppid == current.pid
      then record p { ppid = current.ppid }
      else p)

abbrev pub found_map :
    (Option Process → Option Process) → Option (Option Process) → Option (Option Process)
found_map f none = none
found_map f (some o) = some (f o)

adopt-adopted :
    (current : Process) (slot : ℕ) (slots : List (Option Process)) (i k : ℕ)
    → get_elem? (adopt current slot slots i) k
      ≡ found_map (adopted current slot (i + k)) (get_elem? slots k)
unfolding adopt
adopt-adopted current slot [] i k = refl
adopt-adopted current slot (none ∷ slots) i zero = refl
adopt-adopted current slot (some p ∷ slots) i zero =
    let here : i + 0 ≡ i = omega arith in rw here (one (i == slot) (p.ppid == current.pid) p)
  where
    one :
        (own child : Bool) (p : Process)
        → some (some (if own then p else if not child then p else record p { ppid = current.ppid }))
          ≡ some (some (if own then p else if child then record p { ppid = current.ppid } else p))
    one true child p = refl
    one false true p = refl
    one false false p = refl
adopt-adopted current slot (none ∷ slots) i (suc k) =
    let next : i + suc k ≡ i + 1 + k = omega arith in
    rw next (adopt-adopted current slot slots (i + 1) k)
adopt-adopted current slot (some p ∷ slots) i (suc k) =
    let next : i + suc k ≡ i + 1 + k = omega arith in
    rw next (adopt-adopted current slot slots (i + 1) k)

adopt_children-adopted :
    (current : Process) (slot : ℕ) (slots : List (Option Process)) (k : ℕ)
    → get_elem? (adopt_children current slot slots) k ≡ (
        if ltb k 2
        then get_elem? slots k
        else found_map (adopted current slot k) (get_elem? slots k))
unfolding adopt_children
adopt_children-adopted current slot [] k = ground arith
adopt_children-adopted current slot (x ∷ []) zero = refl
adopt_children-adopted current slot (x ∷ []) (suc k) = ground arith
adopt_children-adopted current slot (x ∷ y ∷ slots) zero = refl
adopt_children-adopted current slot (x ∷ y ∷ slots) (suc zero) = refl
adopt_children-adopted current slot (x ∷ y ∷ slots) (suc (suc k)) =
    let beyond : ltb (suc (suc k)) 2 ≡ false = ground arith in
    let place : 2 + k ≡ suc (suc k) = omega arith in
    adopt-adopted current slot slots 2 k
    ∙ rw beyond (ap (λ n. found_map (adopted current slot n) (get_elem? slots k)) place)

adopt_children-Numbered :
    (current : Process) (slot : ℕ) (slots : List (Option Process))
    → Numbered slots 0
    → Numbered (adopt_children current slot slots) 0
unfolding adopt_children
adopt_children-Numbered current slot [] h = h
adopt_children-Numbered current slot (x ∷ []) h = h
adopt_children-Numbered current slot (none ∷ none ∷ slots) h = adopt-Numbered current slot slots 2 h
adopt_children-Numbered current slot (none ∷ some q ∷ slots) h =
    (h.0, adopt-Numbered current slot slots 2 h.1)
adopt_children-Numbered current slot (some p ∷ none ∷ slots) h =
    (h.0, adopt-Numbered current slot slots 2 h.1)
adopt_children-Numbered current slot (some p ∷ some q ∷ slots) h =
    (h.0, (h.1.0, adopt-Numbered current slot slots 2 h.1.1))

-- When a process exits, each of its children outside the first two slots gets its parent for a parent, and
-- every other slot is as before; each process still has its slot for a pid.
pub adopt_children_lem :
    (current : Process) (slot : ℕ) (slots : List (Option Process))
    → Numbered slots 0
    → Numbered (adopt_children current slot slots) 0
      × ((k : ℕ)
          → get_elem? (adopt_children current slot slots) k ≡ (
              if ltb k 2
              then get_elem? slots k
              else found_map (adopted current slot k) (get_elem? slots k)))
adopt_children_lem current slot slots h =
    (adopt_children-Numbered current slot slots h, adopt_children-adopted current slot slots)
