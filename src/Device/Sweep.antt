-- ===== src/Device/Sweep.antt =====
-- A whole sweep of the disk: every request has its turn, in one pass up and one down.
use mathlib.Core.List.{append-nil, append_assoc}
use mathlib.Core.Path.{subst}
use txos.Base.{
  ℕ, zero, suc, ◌+◌, ◌<◌, ◌≡◌, refl, ap, ◌∙◌, arith, false, List, [], ◌∷◌, ◌++◌, Option, none, some,
  ok, length,
}
use txos.NodeList.{Links, head}
use txos.NodeList.Chains.{last_of_nodes}
use txos.NodeList.Shape.{IsList, before, after, removed, removed-IsList}
use txos.NodeList.Walk.{is_nil}
use txos.Device.{Direction, direct_in, direct_out, finish_request, serve}
use txos.Device.Elevator.{chosen, finish_request-chosen}

-- the nodes behind the head, the nearest first, in the order of the list
abbrev pub backwards : List ℕ → List ℕ
backwards [] = []
backwards (b ∷ behind) = backwards behind ++ b ∷ []

-- The elevator: on to the end of its direction, then back to the other end.
abbrev pub sweep : Direction → (behind : List ℕ) → (node : ℕ) → (ahead : List ℕ) → List ℕ
sweep direct_out behind node ahead = node ∷ ahead ++ behind
sweep direct_in behind node ahead = node ∷ behind ++ ahead

last-snoc : (a : ℕ) (xs : List ℕ) (b : ℕ) → last_of_nodes a (xs ++ b ∷ []) ≡ b
last-snoc a [] b = refl
last-snoc a (x ∷ xs) b = last-snoc x xs b

is_nil-snoc : (xs : List ℕ) (b : ℕ) → is_nil (xs ++ b ∷ []) ≡ false
is_nil-snoc [] b = refl
is_nil-snoc (x ∷ xs) b = refl

-- where the elevator goes next
abbrev stop_after : Direction → (behind ahead : List ℕ) → Option ℕ × Direction
stop_after direct_out [] [] = (none, direct_in)
stop_after direct_out (b ∷ behind) [] = (some b, direct_in)
stop_after direct_out behind (a ∷ ahead) = (some a, direct_out)
stop_after direct_in [] [] = (none, direct_out)
stop_after direct_in [] (a ∷ ahead) = (some a, direct_out)
stop_after direct_in (b ∷ behind) ahead = (some b, direct_in)

outward :
    (behind : List ℕ) (a : ℕ) (ahead : List ℕ)
    → stop_after direct_out behind (a ∷ ahead) ≡ (some a, direct_out)
outward [] a ahead = refl
outward (b ∷ behind) a ahead = refl

inward :
    (behind : List ℕ) (b : ℕ) (ahead : List ℕ)
    → stop_after direct_in (b ∷ behind) ahead ≡ (some b, direct_in)
inward behind b [] = refl
inward behind b (a ∷ ahead) = refl

chosen-stop_after :
    (l : ℕ) (d : Direction) (behind ahead : List ℕ)
    → chosen l d (backwards behind) ahead ≡ stop_after d behind ahead
chosen-stop_after l direct_out [] [] = refl
chosen-stop_after l direct_out (b ∷ behind) [] =
    rw (is_nil-snoc (backwards behind) b, last-snoc (head l) (backwards behind) b) refl
chosen-stop_after l direct_out [] (a ∷ ahead) = refl
chosen-stop_after l direct_out (b ∷ behind) (a ∷ ahead) = rw (is_nil-snoc (backwards behind) b) refl
chosen-stop_after l direct_in [] [] = refl
chosen-stop_after l direct_in [] (a ∷ ahead) = refl
chosen-stop_after l direct_in (b ∷ behind) [] =
    rw (is_nil-snoc (backwards behind) b, last-snoc (head l) (backwards behind) b) refl
chosen-stop_after l direct_in (b ∷ behind) (a ∷ ahead) =
    rw (is_nil-snoc (backwards behind) b, last-snoc (head l) (backwards behind) b) refl

-- what is left of a list after its sweep
abbrev pub Served : (fuel : ℕ) → Links → (l : ℕ) → Direction → (node : ℕ) → List ℕ → Type 0
Served fuel s l d node order =
    (s' : Links) × (serve fuel s l d node ≡ ok (order, s')) × IsList s' l []

finish-to :
    {s : Links} {l : ℕ} (d d' : Direction) (behind : List ℕ) (node : ℕ) (ahead : List ℕ)
    (o : Option ℕ)
    → IsList s l (backwards behind ++ node ∷ ahead)
    → stop_after d behind ahead ≡ (o, d')
    → finish_request s l d node
      ≡ ok (removed s (before l (backwards behind)) (after l ahead) node, o, d')
finish-to {s} {l} d d' behind node ahead o v to =
    finish_request-chosen d (backwards behind) ahead node v
    ∙ ap (λ c. ok (removed s (before l (backwards behind)) (after l ahead) node, c.0, c.1))
        (chosen-stop_after l d behind ahead ∙ to)

-- one turn, and the sweep of the rest
serve-step :
    (fuel : ℕ) {s : Links} {l : ℕ} (d d' : Direction) (behind : List ℕ) (node : ℕ) (ahead : List ℕ)
    (next : ℕ) (order : List ℕ)
    → IsList s l (backwards behind ++ node ∷ ahead)
    → stop_after d behind ahead ≡ (some next, d')
    → Served fuel (removed s (before l (backwards behind)) (after l ahead) node) l d' next order
    → Served (suc fuel) s l d node (node ∷ order)
unfolding serve
serve-step fuel {s} {l} d d' behind node ahead next order v to (s', done, is) =
    (s', rw (finish-to d d' behind node ahead (some next) v to, done) refl, is)

serve-last :
    (fuel : ℕ) {s : Links} {l : ℕ} (d d' : Direction) (node : ℕ)
    → IsList s l (node ∷ [])
    → stop_after d [] [] ≡ (none, d')
    → Served (suc fuel) s l d node (node ∷ [])
unfolding serve
serve-last fuel {s} {l} d d' node v to = (
  removed s (before l []) (after l []) node,
  rw (finish-to d d' [] node [] none v to) refl,
  removed-IsList [] [] node v,
)

-- the list with its node gone, seen from the next one behind
moved_back :
    {s : Links} {l : ℕ} (behind : List ℕ) (b : ℕ) (ahead : List ℕ)
    → IsList s l (backwards (b ∷ behind) ++ ahead)
    → IsList s l (backwards behind ++ b ∷ ahead)
moved_back {s} {l} behind b ahead is =
    subst (IsList s l) (append_assoc (backwards behind) (b ∷ []) ahead) is

-- With as many rounds as there are requests, and none coming in, each request of a disk is served just
-- once, in the order of the elevator: all those ahead of the first in its direction, then those on its
-- other side, back from the nearest; the list is empty then.
pub serve-sweep :
    (fuel : ℕ) {s : Links} {l : ℕ} (d : Direction) (behind : List ℕ) (node : ℕ) (ahead : List ℕ)
    → IsList s l (backwards behind ++ node ∷ ahead)
    → length behind + length ahead < fuel
    → Served fuel s l d node (sweep d behind node ahead)
serve-sweep zero d behind node ahead v enough = absurd (omega arith)
serve-sweep (suc fuel) direct_out [] node [] v enough =
    serve-last fuel direct_out direct_in node v refl
serve-sweep (suc fuel) direct_out (b ∷ behind) node [] v enough =
    serve-step fuel direct_out direct_in (b ∷ behind) node [] b (b ∷ behind) v refl (
      subst (Served fuel _ _ direct_in b) (ap (λ r. b ∷ r) (append-nil behind)) (
        serve-sweep fuel direct_in behind b []
          (moved_back behind b [] (removed-IsList (backwards (b ∷ behind)) [] node v))
          (omega arith)))
serve-sweep (suc fuel) direct_out behind node (a ∷ ahead) v enough =
    serve-step fuel direct_out direct_out behind node (a ∷ ahead) a (a ∷ ahead ++ behind) v
      (outward behind a ahead)
      (serve-sweep fuel direct_out behind a ahead
        (removed-IsList (backwards behind) (a ∷ ahead) node v) (omega arith))
serve-sweep (suc fuel) direct_in [] node [] v enough =
    serve-last fuel direct_in direct_out node v refl
serve-sweep (suc fuel) direct_in [] node (a ∷ ahead) v enough =
    serve-step fuel direct_in direct_out [] node (a ∷ ahead) a (a ∷ ahead) v refl (
      subst (Served fuel _ _ direct_out a) (ap (λ r. a ∷ r) (append-nil ahead)) (
        serve-sweep fuel direct_out [] a ahead (removed-IsList [] (a ∷ ahead) node v)
          (omega arith)))
serve-sweep (suc fuel) direct_in (b ∷ behind) node ahead v enough =
    serve-step fuel direct_in direct_in (b ∷ behind) node ahead b (b ∷ behind ++ ahead) v
      (inward behind b ahead)
      (serve-sweep fuel direct_in behind b ahead
        (moved_back behind b ahead (removed-IsList (backwards (b ∷ behind)) ahead node v))
        (omega arith))
