-- ===== src/TaskArguments/Userdata.antt =====
-- What the new task finds in the region of its arguments, the userdata included.
use bubackos.Prelude.{ℕ}
use bubackos.Multiboot.{Bytes}
use bubackos.VirtualMemory.{Memory, vmem_get_physical_address}

-- The bytes as the task sees them, by their virtual addresses
abbrev pub seen : Memory → (handler : ℕ) → Bytes → Bytes
seen k handler m a = m (vmem_get_physical_address k handler a)
