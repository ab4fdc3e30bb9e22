-- ===== src/Keyboard/Tests.antt =====
-- A letter typed while a task waits for it, and the theorems at it.
use txos.Base.{◌≡◌, arith, true, false, [], ◌∷◌, ok, ◌==◌, if◌then◌else◌, null, replicate}
use txos.NodeList.{Links}
use txos.Task.{Kernel, Task, task_ready, task_blocked, task_running, xos_magic}
use txos.Task.Schedule
use txos.Keyboard.{Keyboard, System, keyboard_set_leds}
use txos.Keyboard.Lights.{keyboard_set_leds_lem}

-- the reader, in the queue of the blocked tasks at 0x700
abbrev links : Links
links = record {
  prev = λ p. if p == 0x12004 then 0x700 else if p == 0x708 then 0x12004 else null;
  next = λ p. if p == 0x700 then 0x12004 else if p == 0x12004 then 0x708 else null;
}

abbrev idle_tcb : Task
idle_tcb = record {
  state = task_ready;
  priority = 1;
  ticks = 1;
  jiffies = 0;
  uid = 0;
  page_dir = 0x1000;
  magic = xos_magic;
}

abbrev kernel : Kernel
kernel = record {
  task_queue = 0x10000 ∷ 0x12000 ∷ [];
  blocked_queue = 0x700;
  sleeping_queue = 0x600;
  idle_task = 0x10000;
  jiffies = 60;
  tasks = λ t.
      if t == 0x12000
      then record idle_tcb { state = task_blocked }
      else if t == 0x10000
      then record idle_tcb { state = task_running }
      else idle_tcb;
  links = links;
  current = 0x10000;
  irq = false;
  cr3 = 0x1000;
  esp0 = 0x11000;
}

-- shift is held
abbrev keyboard : Keyboard
keyboard = record {
  capslock = false;
  scrlock = false;
  numlock = false;
  extcode = false;
  ctrl = false;
  alt = false;
  shift = true;
  fifo = record { buf = replicate 64 0; len = 64; head = 0; tail = 0 };
  waiter = 0x12000;
  key_state = λ code ext. code == 0x2a;
}

abbrev system : System
system = record {
  keyboard = keyboard;
  controller = record { replies = 0x1e ∷ 0xfe ∷ 0xfa ∷ 0xfa ∷ []; written = [] };
  kernel = kernel;
}

keyboard_set_leds_lem_example :
    keyboard_set_leds keyboard (record { replies = 0xfe ∷ 0xfa ∷ 0xfa ∷ []; written = [] })
    ≡ ok (record { replies = []; written = (0x60, 0) ∷ (0x60, 0xed) ∷ (0x60, 0xed) ∷ [] })
keyboard_set_leds_lem_example =
    keyboard_set_leds_lem keyboard 1 0 0xfa 0xfa [] [] (omega arith) (omega arith)
