-- ===== src/Family/Tests.antt =====
-- A parent in slot 2 with a living child in slot 3 and a dead one in slot 4.
use txos.Base.{ℕ, ◌≡◌, refl, List, [], ◌∷◌, Option, none, some, get_elem?, ltb, if◌then◌else◌}
use txos.Task.{task_running, task_ready, task_died}
use txos.Family.{Process, any_pid, adopt_children, wait_round, blocks, wait_scan}
use txos.Family.Slots.{Numbered, adopted, found_map, adopt_children_lem}

abbrev parent : Process
parent = record { pid = 2; ppid = 1; state = task_running; status = 0; waitpid = 0 }

abbrev living : Process
living = record { pid = 3; ppid = 2; state = task_ready; status = 0; waitpid = 0 }

abbrev gone : Process
gone = record { pid = 4; ppid = 2; state = task_died; status = 7; waitpid = 0 }

abbrev table : List (Option Process)
table = none ∷ none ∷ some parent ∷ some living ∷ some gone ∷ none ∷ []

-- For any child the living one is waited for, though another is dead.
overlooked : wait_round 2 2 any_pid table ≡ blocks 3
unfolding wait_round wait_scan
overlooked = refl

table-Numbered : Numbered table 0
table-Numbered = (refl, (refl, (refl, tt)))

adopt_children_lem_example :
    Numbered (adopt_children parent 2 table) 0
    × ((k : ℕ)
        → get_elem? (adopt_children parent 2 table) k ≡ (
            if ltb k 2
            then get_elem? table k
            else found_map (adopted parent 2 k) (get_elem? table k)))
adopt_children_lem_example = adopt_children_lem parent 2 table table-Numbered
