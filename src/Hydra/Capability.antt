-- ===== src/Hydra/Capability.antt =====
-- lib/libhydra/capability.c: capabilities in the heap of kernal/mm.c. The structures are a part of memory apart from the headers of the heap.
-- `none` means that `kmalloc` ran out of fuel.
use Prim.Native.Nat.{bit_and}
use hydra_microkernal.Prelude.{
  ℕ, ◌^◌, not, ◌||◌, Option, none, some, ℤ, low_bits, ◌==◌, if◌then◌else◌, update,
}
use hydra_microkernal.Mm.{Heap, kmalloc}

-- `struct capability`
pub record CapabilityData : Type 0 where
  pub process_id : ℤ
  pub permissions : ℤ
  pub magic : ℕ

-- CAPABILITY_MAGIC
abbrev pub capability_magic : ℕ
capability_magic = 16045690984503098046

-- `sizeof(struct capability)`
abbrev pub capability_size : ℕ
capability_size = 16

-- The heap, and the structures by their addresses.
pub record Capabilities : Type 0 where
  pub heap : Heap
  pub store : ℕ → CapabilityData

-- The part behind `kmalloc`.
abbrev pub stored : ℤ → ℤ → (ℕ → CapabilityData) → Option (Heap × ℕ) → Option (Capabilities × ℕ)
stored process permissions store none = none
stored process permissions store (some (heap', cap)) =
    if cap == 0
    then some (record { heap = heap'; store = store }, 0)
    else some (
      record {
        heap = heap';
        store =
            update store cap (record {
              process_id = process;
              permissions = permissions;
              magic = capability_magic;
            });
      },
      cap,
    )

unfoldable pub create_capability : ℕ → ℤ → ℤ → Capabilities → Option (Capabilities × ℕ)
create_capability fuel process permissions c =
    stored process permissions c.store (kmalloc fuel capability_size c.heap)

-- `(c->permissions & operation) != 0`, on 32 bits
abbrev pub allows : ℤ → ℤ → ℕ
allows permissions operation =
    if bit_and (low_bits (2 ^ 32) permissions) (low_bits (2 ^ 32) operation) == 0 then 0 else 1

unfoldable pub check_capability : ℕ → ℤ → Capabilities → ℕ
check_capability cap operation c =
    if cap == 0 || not ((c.store cap).magic == capability_magic)
    then 0
    else allows (c.store cap).permissions operation
