-- ===== src/Device/Tests.antt =====
-- A table with one device, three requests on a disk, and the theorems at them.
use txos.Base.{◌≡◌, some, refl, arith, List, [], ◌∷◌, replicate, ◌==◌, if◌then◌else◌, null}
use txos.NodeList.{Links}
use txos.NodeList.Shape.{IsList}
use txos.Device.{dev_find, Device, dev_null, dev_block, direct_in, direct_out}
use txos.Device.Table.{dev_find-of_kind}
use txos.Device.Sweep.{Served, serve-sweep}

abbrev empty : Device
empty = record {
  type = dev_null;
  subtype = 0;
  dev_id = 7;
  parent = 0;
  dev = 0;
  request_list = 0;
  direction = direct_in;
  ioctl = 0;
  read = 0;
  write = 0;
}

abbrev table : List Device
table = record empty { type = dev_block; subtype = 2 } ∷ replicate 63 empty

-- an empty device, of subtype 0, is found as a console
dev_find-of_kind_example : dev_find table 0 0 ≡ some 1
dev_find-of_kind_example = dev_find-of_kind table 0 0

-- the nodes 20, 40 and 60 in the list at 100
abbrev links : Links
links = record {
  prev = λ p.
      if p == 20
      then 100
      else if p == 40
      then 20
      else if p == 60
      then 40
      else if p == 108
      then 60
      else null;
  next = λ p.
      if p == 100
      then 20
      else if p == 20
      then 40
      else if p == 40
      then 60
      else if p == 60
      then 108
      else null;
}

links-IsList : IsList links 100 (20 ∷ 40 ∷ 60 ∷ [])
links-IsList = record {
  nexts = (refl, (refl, (refl, refl)));
  prevs = (refl, (refl, (refl, refl)));
  front = refl;
  back = refl;
  apart = refl;
}

serve-sweep_example : Served 3 links 100 direct_out 40 (40 ∷ 60 ∷ 20 ∷ [])
serve-sweep_example = serve-sweep 3 direct_out (20 ∷ []) 40 (60 ∷ []) links-IsList (omega arith)
