-- ===== src/Sender/Chunks.antt =====
-- The loops of apps/image_sender.c that send data in chunks.
use hydra_microkernal.Prelude.{
  ℕ, zero, suc, ◌+◌, ◌≤◌, ◌<◌, ◌≡◌, refl, ap, ◌∙◌, ◌⊎◌, inl, inr, true, false, Bool-cases, Option,
  some, ℤ, is_nonpos, pos_part, List, [], ◌∷◌, arith, if_lt, le→ltb, dec_lt,
}
use hydra_microkernal.Socket.{Sockets, send}
use hydra_microkernal.Sender.{Call, next_size, with_call, send_chunks, chunk_size, send_http_data}

-- Calls that pass the data from offset `a` on, each from the place that the results so far have reached, and end at `b`:
-- a chunk is not empty, no larger than allowed, and within the data.
abbrev pub Passes : ℕ → ℕ → ℕ → List Call → ℕ → Type 0
Passes chunk data_size a [] b = a ≡ b
Passes chunk data_size a (c ∷ cs) b =
    (c.offset ≡ a)
    × (0 < c.size)
    × (c.size ≤ chunk)
    × (c.offset + c.size ≤ data_size)
    × Passes chunk data_size (a + pos_part c.result) cs b

-- The last call failed.
abbrev pub Fails : List Call → Type 0
Fails [] = ⊥
Fails (c ∷ []) = is_nonpos c.result ≡ true
Fails (c ∷ d ∷ cs) = Fails (d ∷ cs)

-- A loop that has ended: the calls pass the data in order up to `sent`, which is all of it or where a call failed.
pub record IsSent (chunk data_size start : ℕ) (run : Option (ℕ × List Call)) : Type 0 where
  pub sent : ℕ
  pub calls : List Call
  pub returns : run ≡ some (sent, calls)
  pub passes : Passes chunk data_size start calls sent
  pub most : sent ≤ data_size
  pub complete : (sent ≡ data_size) ⊎ Fails calls

-- A call of the loop at an offset.
abbrev call_at : ℕ → (ℕ → ℕ → ℤ) → ℕ → ℕ → Call
call_at chunk reply data_size sent = record {
  offset = sent;
  size = next_size chunk data_size sent;
  result = reply sent (next_size chunk data_size sent);
}

module _ (chunk : ℕ) (reply : ℕ → ℕ → ℤ) (data_size fuel sent : ℕ) where
  send_chunks-end :
      data_size ≤ sent → send_chunks (suc fuel) chunk reply data_size sent ≡ some (sent, [])
  unfolding send_chunks
  send_chunks-end h = rw (le→ltb sent data_size h) refl

  send_chunks-break :
      sent < data_size
      → is_nonpos (call_at chunk reply data_size sent).result ≡ true
      → send_chunks (suc fuel) chunk reply data_size sent
        ≡ some (sent, call_at chunk reply data_size sent ∷ [])
  unfolding send_chunks
  send_chunks-break h e = if_lt sent data_size _ _ h ∙ rw e refl

  send_chunks-next :
      sent < data_size
      → is_nonpos (call_at chunk reply data_size sent).result ≡ false
      → send_chunks (suc fuel) chunk reply data_size sent
        ≡ with_call (call_at chunk reply data_size sent) (
            send_chunks fuel chunk reply data_size
              (sent + pos_part (call_at chunk reply data_size sent).result))
  unfolding send_chunks
  send_chunks-next h e = if_lt sent data_size _ _ h ∙ rw e refl

next_size-bounds :
    (chunk data_size sent : ℕ)
    → 0 < chunk
    → sent < data_size
    → (0 < next_size chunk data_size sent)
      × (next_size chunk data_size sent ≤ chunk)
      × (sent + next_size chunk data_size sent ≤ data_size)
next_size-bounds chunk data_size sent p h = ground arith

positive : (x : ℤ) → is_nonpos x ≡ false → 0 < pos_part x
positive x e = ground arith

with_failing : (c : Call) (cs : List Call) → Fails cs → Fails (c ∷ cs)
with_failing c [] f = absurd f
with_failing c (d ∷ cs) f = f

send_chunks-IsSent :
    (fuel chunk data_size sent : ℕ) (reply : ℕ → ℕ → ℤ)
    → 0 < chunk
    → ((o n : ℕ) → pos_part (reply o n) ≤ n)
    → sent ≤ data_size
    → data_size < fuel + sent
    → IsSent chunk data_size sent (send_chunks fuel chunk reply data_size sent)
send_chunks-IsSent zero chunk data_size sent reply p accepts le h = absurd (omega arith)
send_chunks-IsSent (suc fuel) chunk data_size sent reply p accepts le h =
    elim (dec_lt sent data_size) [
      | no end ↦ record {
        sent = sent;
        calls = [];
        returns = send_chunks-end chunk reply data_size fuel sent (omega arith);
        passes = refl;
        most = le;
        complete = inl (omega arith);
      }
      | yes less ↦
          let c = call_at chunk reply data_size sent in
          let bounds = next_size-bounds chunk data_size sent p less in
          elim (Bool-cases (is_nonpos c.result)) [
            | inl failed ↦ record {
              sent = sent;
              calls = c ∷ [];
              returns = send_chunks-break chunk reply data_size fuel sent less failed;
              passes = (refl, bounds.0, bounds.1, bounds.2, nothing c.result failed);
              most = le;
              complete = inr failed;
            }
            | inr went ↦
                let more = positive c.result went in
                let taken = accepts sent c.size in
                let rest =
                  send_chunks-IsSent fuel chunk data_size (sent + pos_part c.result) reply p accepts
                    (omega (arith, bounds.2, taken)) (omega (arith, more)) in
                record {
                  sent = rest.sent;
                  calls = c ∷ rest.calls;
                  returns =
                      send_chunks-next chunk reply data_size fuel sent less went
                      ∙ ap (with_call c) rest.returns;
                  passes = (refl, bounds.0, bounds.1, bounds.2, rest.passes);
                  most = rest.most;
                  complete = elim rest.complete [
                    | inl all ↦ inl all
                    | inr f ↦ inr (with_failing c rest.calls f)
                  ];
                }
          ]
    ]
  where
    nothing : (x : ℤ) → is_nonpos x ≡ true → sent + pos_part x ≡ sent
    nothing x e = ground arith

send-le : (fd x : ℤ) (t : Sockets) (n : ℕ) → pos_part x ≤ n → pos_part (send fd x t) ≤ n
unfolding send
send-le fd x t n h = ground arith

-- If no call reports more than it was given, the data loop of `send_http_response` ends, with more fuel than there are bytes: its calls pass the data in
-- order, in chunks of 1 to 512 bytes within it, each from where the last one ended, and the loop ends when all data
-- is sent or when a call fails.
pub send_http_data-IsSent :
    (fuel : ℕ) (client_sock : ℤ) (answer : ℕ → ℕ → ℤ) (data_size : ℕ) (t : Sockets)
    → ((o n : ℕ) → pos_part (answer o n) ≤ n)
    → data_size < fuel
    → IsSent chunk_size data_size 0 (send_http_data fuel client_sock answer data_size t)
unfolding send_http_data send
send_http_data-IsSent fuel client_sock answer data_size t accepts h =
    send_chunks-IsSent fuel chunk_size data_size 0 _ (omega arith)
      (λ o n. send-le client_sock (answer o n) t n (accepts o n)) (omega arith) (omega arith)
