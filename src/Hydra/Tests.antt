-- ===== src/Hydra/Tests.antt =====
-- The theorems about lib/libhydra at a small kernel and a small heap.
use hydra_microkernal.Prelude.{◌<◌, ◌≡◌, ◌⊎◌, refl, true, false, some, pos, [], ◌∷◌, All, arith}
use hydra_microkernal.Mm.{Heap, mm_init, align8}
use hydra_microkernal.Mm.Cells.{cell}
use hydra_microkernal.Mm.Boot.{mm_init-IsHeap}
use hydra_microkernal.Hydra.Capability.{Capabilities, capability_size, create_capability, allows}
use hydra_microkernal.Hydra.Rights.{IsCreated, create_capability-IsCreated}
use hydra_microkernal.Hydra.Clients.{
  Frame, net_service_bind, net_service_connect, net_service_send, net_service_receive,
}
use hydra_microkernal.Hydra.Refused.{net_service-IsRefused}
use hydra_microkernal.Kernel.{Kernel}
use hydra_microkernal.Sched.Tests.{three}
use hydra_microkernal.Ipc.Tests.{pool}
use hydra_microkernal.Net.Tests.{started}
use hydra_microkernal.Hydra.Requests.{IsRefused}

abbrev kernel : Kernel
kernel = record { ipc = pool; sched = three; net = started; memory = λ a. a }

abbrev frame : Frame
frame = record { req = 7000; resp = 8000; msg = 5000; msg_type = 6000 }

net_service-IsRefused_example :
    IsRefused kernel (net_service_bind 4096 frame 80 kernel)
    × IsRefused kernel (net_service_connect 4096 frame 16909060 80 kernel)
    × IsRefused kernel (net_service_send 4096 frame (pos 1) 1000 5 kernel)
    × IsRefused kernel (net_service_receive 4096 frame (pos 1) 9000 64 kernel)
net_service-IsRefused_example =
    net_service-IsRefused 4096 frame kernel 16909060 80 1000 5 9000 64 (pos 1)

-- A fresh heap of 1 KB, with no capability in it.
abbrev no_heap : Heap
no_heap = record {
  store = λ a. record { size = 0; free = false; next = 0 };
  heap_head = 0;
  total_allocated = 0;
}

abbrev no_capabilities : Capabilities
no_capabilities = record {
  heap = mm_init 4096 5120 no_heap;
  store = λ a. record { process_id = pos 0; permissions = pos 0; magic = 0 };
}

create_capability-IsCreated_example :
    ((create_capability 2 (pos 1) (pos 3) no_capabilities ≡ some (no_capabilities, 0))
      × All (λ b. b.free ≡ true → b.size < align8 capability_size) (cell 1008 true ∷ []))
    ⊎ IsCreated 4096 5120
        (cell 1008 true ∷ [])
        (pos 3)
        no_capabilities
        (create_capability 2 (pos 1) (pos 3) no_capabilities)
create_capability-IsCreated_example =
    create_capability-IsCreated 2 (pos 1) (pos 3) no_capabilities
      (mm_init-IsHeap 4096 5120 no_heap refl (omega arith) (omega arith) (omega arith))
      (omega arith)

-- Read and write are allowed, and execute and delete are not.
rights :
    (allows (pos 3) (pos 1) ≡ 1)
    × (allows (pos 3) (pos 2) ≡ 1)
    × (allows (pos 3) (pos 4) ≡ 0)
    × (allows (pos 3) (pos 8) ≡ 0)
rights = (refl, refl, refl, refl)
