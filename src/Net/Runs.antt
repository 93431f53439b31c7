-- ===== src/Net/Runs.antt =====
-- Runs of the network driver from `net_init` on.
use mathlib.Core.List.{Perm, perm_middle, perm_append_singleton, append_assoc}
use mathlib.Core.List.Perm
use hydra_microkernal.Prelude.{
  ℕ, ◌%◌, ◌^◌, ◌≡◌, inl, inr, Bool-cases, List, [], ◌∷◌, ◌++◌, subst, Bytes, ℤ, ltb, ◌==◌,
}
use hydra_microkernal.Net.{
  Net, packet_pool_size, net_send, net_interrupt_handler, net_is_packet_available, sys_net_send,
  sys_net_recv, next_count, magnitude,
}
use hydra_microkernal.Net.Pool.{IsPool, IsPool-rest}
use hydra_microkernal.Net.Traffic.{
  arrive, net_interrupt_handler-IsPool, net_is_packet_available-drops, sys_net_recv-Taken,
}
use hydra_microkernal.Net.Boot.{numbered, IsFull}

-- A call of the driver.
pub data Step (s s' : Net) : Type 0 where
  sends : (len : ℕ) → s' ≡ (sys_net_send len s).0 → Step s s'
  receives : (buffer : Bytes) (arg2 : ℤ) → s' ≡ (sys_net_recv buffer arg2 s).0 → Step s s'
  peeks : s' ≡ (net_is_packet_available s).0 → Step s s'
  interrupts : s' ≡ net_interrupt_handler s → Step s s'

pub data Reach (s : Net) : Net → Type 0 where
  here : Reach s s
  more : {t u : Net} → Reach s t → Step t u → Reach s u

net_send-IsPool :
    {s : Net} {free rx : List ℕ} (len : ℕ)
    → IsPool s free rx
    → IsPool (sys_net_send len s).0 free rx
unfolding sys_net_send net_send
net_send-IsPool {s} len v = elim (Bool-cases (ltb 1514 (len % 2 ^ 16))) [
  | inl e ↦ rw e (IsPool-rest _ s.mac_addr s.interrupt_count v)
  | inr e ↦ rw e (IsPool-rest _ s.mac_addr s.interrupt_count v)
]

-- A packet that goes from the head of one list to the end of the other.
moved-Perm : (a : ℕ) (free rx : List ℕ) → Perm (free ++ (rx ++ a ∷ [])) (a ∷ free ++ rx)
moved-Perm a free rx =
    subst (λ l. Perm l (a ∷ free ++ rx)) (append_assoc free rx (a ∷ []))
      (perm_append_singleton a (free ++ rx))

arrive-Perm :
    (count : ℕ) (free rx : List ℕ)
    → Perm ((arrive count free rx).0 ++ (arrive count free rx).1) (free ++ rx)
arrive-Perm count [] rx = Perm.refl rx
arrive-Perm count (a ∷ free) rx = elim (Bool-cases (count % 100 == 0)) [
  | inl e ↦ rw e (moved-Perm a free rx)
  | inr e ↦ rw e (Perm.refl (a ∷ free ++ rx))
]

pub Step-IsFull : {s s' : Net} → IsFull s → Step s s' → IsFull s'
Step-IsFull f (sends len e) =
    rw e (record { free = f.free; rx = f.rx; pool = net_send-IsPool len f.pool; all = f.all })
Step-IsFull {s} f (receives buffer arg2 e) = rw e (go f.rx f.pool f.all)
  where
    go :
        (rx : List ℕ)
        → IsPool s f.free rx
        → Perm (f.free ++ rx) (numbered packet_pool_size 0)
        → IsFull (sys_net_recv buffer arg2 s).0
    go [] v n = rw (sys_net_recv-Taken buffer arg2 f.free [] v) f
    go (a ∷ rx) v n = record {
      free = a ∷ f.free;
      rx = rx;
      pool = (sys_net_recv-Taken buffer arg2 f.free (a ∷ rx) v).0;
      all = Perm.trans (Perm.symm (perm_middle f.free rx)) n;
    }
Step-IsFull {s} f (peeks e) = rw e (go f.rx f.pool f.all)
  where
    go :
        (rx : List ℕ)
        → IsPool s f.free rx
        → Perm (f.free ++ rx) (numbered packet_pool_size 0)
        → IsFull (net_is_packet_available s).0
    go [] v n = rw (net_is_packet_available-drops f.free [] v) f
    go (a ∷ rx) v n = record {
      free = a ∷ f.free;
      rx = rx;
      pool = (net_is_packet_available-drops f.free (a ∷ rx) v).0;
      all = Perm.trans (Perm.symm (perm_middle f.free rx)) n;
    }
Step-IsFull {s} f (interrupts e) = rw e (record {
  free = (arrive (magnitude (next_count s)) f.free f.rx).0;
  rx = (arrive (magnitude (next_count s)) f.free f.rx).1;
  pool = net_interrupt_handler-IsPool f.free f.rx f.pool;
  all = Perm.trans (arrive-Perm (magnitude (next_count s)) f.free f.rx) f.all;
})
