-- ===== src/World.antt =====
-- The state of a call: the memory shared with C, the heap of Rust objects that C holds opaque
-- pointers to, and the calling thread's userdata stack. `O` is the type of the heap's objects.
use rustls_ffi.Prelude.{ℕ, Option, ◌==◌, if◌then◌else◌}
use rustls_ffi.Panic.{done, panicked, fault, Cmd}
use rustls_ffi.Memory.{Ptr, Memory}
use rustls_ffi.Userdata.{Local}

-- What an address of the heap holds: an object in a Box, one in an Arc with its count, or a Box
-- whose object is mutably borrowed by a call in progress.
pub data Slot (O : Type 0) : Type 0 where
  boxed : O → Slot O
  counted : ℕ → O → Slot O
  borrowed : Slot O

abbrev pub Heap : Type 0 → Type 0
Heap O = Ptr → Option (Slot O)

pub record World (O : Type 0) : Type 0 where
  pub mem : Memory
  pub heap : Heap O
  pub local : Local

module _ {O : Type 0} where
  abbrev pub put : Ptr → Option (Slot O) → Heap O → Heap O
  put p s h q = if q == p then s else h q

  abbrev pub set_heap : World O → Heap O → World O
  set_heap w h = record w { heap = h }

  -- A call that works on the memory only.
  abbrev pub on_memory : {A : Type 0} → Cmd Memory A → Cmd (World O) A
  on_memory m w = elim (m w.mem) [
    | done a mem ↦ done a (record w { mem = mem })
    | panicked mem ↦ panicked (record w { mem = mem })
    | fault ↦ fault
  ]

  -- A call that works on the thread's stack only, and neither panics nor faults.
  abbrev pub on_local : {A : Type 0} → (Local → A × Local) → Cmd (World O) A
  on_local f w = let (a, l) = f w.local in done a (record w { local = l })

-- The commands of a world, in the scope of a borrowed value of type T.
abbrev pub lift : {T W A : Type 0} → Cmd W A → Cmd (T × W) A
lift m (t, w) = elim (m w) [
  | done a w' ↦ done a (t, w')
  | panicked w' ↦ panicked (t, w')
  | fault ↦ fault
]
