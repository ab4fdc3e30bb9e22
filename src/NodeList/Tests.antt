-- ===== src/NodeList/Tests.antt =====
-- Two lists in one memory, and the theorems at them.
use txos.Base.{
  ℕ, ◌-◌, ◌==◌, if◌then◌else◌, ◌∙◌, ◌%◌, ◌≡◌, refl, List, [], ◌∷◌, arith, ok, true, update, elem,
}
use txos.Stdlib.{word}
use txos.NodeList.{
  Links, list_init, list_insert_before, list_insert_after, list_remove, list_contains, list_size,
  node_free,
}
use txos.NodeList.Shape.{IsList, inserted, inserted-other, removed, removed-other}
use txos.NodeList.Insert.{
  list_init-IsList, list_insert_before_lem, list_insert_after_lem, list_remove_lem,
}
use txos.NodeList.Walk.{list_contains-elem, list_size-length}
use txos.NodeList.Deque.{
  Op, push_front, push_back, pop_front, pop_back, run, run_nodes, run-run_nodes,
}

-- a list at 100 of the nodes 300 and 320, and one at 200 of no node
abbrev links : Links
links = record {
  prev = update (update (update (update (λ _. 0) 300 100) 320 300) 108 320) 208 200;
  next = update (update (update (update (λ _. 0) 100 300) 300 320) 320 108) 200 208;
}

abbrev nodes : List ℕ
nodes = 300 ∷ 320 ∷ []

links-IsList : IsList links 100 nodes
links-IsList = record {
  nexts = (refl, (refl, refl));
  prevs = (refl, (refl, refl));
  front = refl;
  back = refl;
  apart = refl;
}

empty-IsList : IsList links 200 []
empty-IsList = record { nexts = refl; prevs = refl; front = refl; back = refl; apart = refl }

list_init-IsList_example : (s' : Links) × (list_init links 500 ≡ ok s') × IsList s' 500 []
list_init-IsList_example = list_init-IsList links 500 (omega arith)

list_insert_before_lem_example :
    (s' : Links) × (list_insert_before links 320 340 ≡ ok s') × IsList s' 100 (300 ∷ 340 ∷ 320 ∷ [])
list_insert_before_lem_example = list_insert_before_lem (300 ∷ []) (320 ∷ []) 340 links-IsList refl

list_insert_after_lem_example :
    (s' : Links) × (list_insert_after links 320 340 ≡ ok s') × IsList s' 100 (300 ∷ 320 ∷ 340 ∷ [])
list_insert_after_lem_example = list_insert_after_lem nodes [] 340 links-IsList refl

list_remove_lem_example :
    (s' : Links) × (list_remove links 300 ≡ ok s')
    × IsList s' 100 (320 ∷ [])
    × (node_free s' 300 ≡ ok true)
list_remove_lem_example = list_remove_lem [] (320 ∷ []) 300 links-IsList

list_contains-elem_example : list_contains 3 links 100 320 ≡ ok (elem 320 nodes)
list_contains-elem_example = list_contains-elem 3 320 links-IsList (omega arith)

list_size-length_example : list_size 3 links 100 ≡ ok (2 % word)
list_size-length_example = list_size-length 3 links-IsList (omega arith)

-- the keys are the addresses, but for 340, which is a negative number
abbrev key : ℕ → ℕ
key p = if p == 340 then word - 5 else p

inserted-other_example : IsList (inserted links 300 320 340) 200 []
inserted-other_example = inserted-other 300 320 340 empty-IsList refl refl refl

removed-other_example : IsList (removed links 100 320 300) 200 []
removed-other_example = removed-other 100 320 300 empty-IsList refl refl refl

abbrev script : List Op
script = push_front 340 ∷ pop_back ∷ push_back 360 ∷ pop_front ∷ pop_back ∷ []

script_nodes : run 9 links 100 script ≡ ok (320 ∷ 340 ∷ 360 ∷ [])
script_nodes =
    run-run_nodes script 9 nodes links-IsList refl (omega arith) ∙ unfold run_nodes in refl

run-run_nodes_example : run 9 links 100 script ≡ run_nodes nodes script
run-run_nodes_example = run-run_nodes script 9 nodes links-IsList refl (omega arith)
