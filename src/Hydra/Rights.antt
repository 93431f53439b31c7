-- ===== src/Hydra/Rights.antt =====
-- What a capability of lib/libhydra/capability.c allows.
use hydra_microkernal.Prelude.{
  ℕ, ◌+◌, ◌<◌, ◌≡◌, ◌≢◌, refl, ap, ◌∙◌, ◌⊎◌, inl, inr, true, ◌==◌, not, ◌||◌, if◌then◌else◌, Option,
  some, ℤ, List, length, All, arith, update, update_self, update_ne, if_eq, if_ne, not_eq,
}
use hydra_microkernal.Mm.{Heap, header_size, align8}
use hydra_microkernal.Mm.Cells.{Cell, IsHeap, InUse}
use hydra_microkernal.Mm.Kmalloc.{Allocates, kmalloc_lem}
use hydra_microkernal.Hydra.Capability.{
  CapabilityData, capability_magic, capability_size, Capabilities, stored, create_capability,
  allows, check_capability,
}

check_capability-valid :
    (cap : ℕ) (operation : ℤ) (c : Capabilities)
    → cap ≢ 0
    → (c.store cap).magic ≡ capability_magic
    → check_capability cap operation c ≡ allows (c.store cap).permissions operation
unfolding check_capability
check_capability-valid cap operation c ne e = rw (not_eq cap 0 ne, e) refl

check_capability-same :
    (cap : ℕ) (operation : ℤ) (c c' : Capabilities)
    → c.store cap ≡ c'.store cap
    → check_capability cap operation c ≡ check_capability cap operation c'
unfolding check_capability
check_capability-same cap operation c c' e =
    ap
      (λ (x : CapabilityData).
        if cap == 0 || not (x.magic == capability_magic) then 0 else allows x.permissions operation)
      e

-- A new capability, in a block of its own. It allows what its permissions say, and the capabilities in other
-- blocks in use allow what they did.
pub record IsCreated (start limit : ℕ) (cells : List Cell) (permissions : ℤ) (c : Capabilities)
    (run : Option (Capabilities × ℕ)) : Type 0 where
  pub after : Capabilities
  pub cap : ℕ
  pub returns : run ≡ some (after, cap)
  pub allocated : Allocates start limit cells (align8 capability_size) after.heap cap
  pub granted :
      (operation : ℤ) → check_capability cap operation after ≡ allows permissions operation
  pub others :
      (block size : ℕ) (operation : ℤ)
      → InUse block size start cells
      → check_capability (block + header_size) operation after
        ≡ check_capability (block + header_size) operation c

-- In a well-formed heap and with more fuel than there are blocks, `create_capability` returns: null, with nothing changed, if no free block is large enough, and otherwise a
-- capability that `check_capability` accepts for just the operations that share a bit with its permissions, in a block that
-- was not in use; the capabilities that were there allow what they allowed before.
pub create_capability-IsCreated :
    (fuel : ℕ) (process permissions : ℤ) (c : Capabilities) {start limit : ℕ} {cells : List Cell}
    → IsHeap c.heap start limit cells
    → length cells < fuel
    → ((create_capability fuel process permissions c ≡ some (c, 0))
        × All (λ b. b.free ≡ true → b.size < align8 capability_size) cells)
      ⊎ IsCreated start limit cells permissions c (create_capability fuel process permissions c)
unfolding create_capability
create_capability-IsCreated fuel process permissions c {start} {limit} {cells} v enough =
    let (h', ptr, run, end) = kmalloc_lem v fuel capability_size enough in
    let new : CapabilityData = record {
      process_id = process;
      permissions = permissions;
      magic = capability_magic;
    } in
    elim end [
      | inl r ↦ inl (
        ap (stored process permissions c.store) run
            ∙ if_eq ptr 0 _ _ r.null
            ∙ ap (λ (h : Heap). some (record { heap = h; store = c.store }, 0)) r.same,
        r.no_room,
      )
      | inr a ↦ inr (record {
        after = record { heap = h'; store = update c.store ptr new };
        cap = ptr;
        returns =
            ap (stored process permissions c.store) run
            ∙ if_ne ptr 0 _ _ (omega (arith, a.pointer));
        allocated = a;
        granted = λ operation.
            check_capability-valid ptr operation _ (omega (arith, a.pointer))
              (ap (λ (x : CapabilityData). x.magic) (update_self c.store ptr new))
            ∙ ap (λ (x : CapabilityData). allows x.permissions operation)
                (update_self c.store ptr new);
        others = λ block size operation u.
            check_capability-same (block + header_size) operation _ c (
              update_ne c.store ptr (block + header_size) new
                (omega (arith, a.pointer, a.apart block size u)));
      })
    ]
