-- ===== src/Network/Server/Turns.antt =====
-- The turns of the loop over a buffer are enough.
use tellstone.Prelude.{
  ℕ, zero, suc, ◌+◌, ◌<◌, ◌≤◌, ◌≡◌, refl, ap, inl, inr, Bool, Bool-cases, true, Bytes, length, drop,
  ltb, if◌then◌else◌, length-drop, arith,
}
use tellstone.Prelude.Run.{Run, done, panics}
use tellstone.Network.Frame.{Message, short_read, decoded, failed, Decoded, decode}
use tellstone.Network.Server.{Config, Handler, World, one_frame, traffic, blank}

decode-short :
    (buf : Bytes) (max : ℕ) (m : Message)
    → ltb (length buf) 5 ≡ true
    → decode buf max m ≡ done (m, failed short_read)
unfolding decode
decode-short buf max m h = rw h refl

module _ {S : Type 0} where
  traffic-short :
      (n : ℕ) (g : Config) (f : Handler S) (room ok : ℕ → Bool) (now : ℕ → ℕ) (w : World S)
      (buf : Bytes)
      → ltb (length buf) 5 ≡ true
      → traffic n g f room ok now w buf ≡ done (w, buf)
  unfolding traffic
  traffic-short zero g f room ok now w buf h = refl
  traffic-short (suc n) g f room ok now w buf h =
      rw (traffic, decode-short buf g.max_msg_size blank h) refl

  -- With as many turns as the buffer has bytes, or more, the loop comes to the same: it ends by itself.
  traffic-turns :
      (n k : ℕ) (g : Config) (f : Handler S) (room ok : ℕ → Bool) (now : ℕ → ℕ) (w : World S)
      (buf : Bytes)
      → length buf ≤ n
      → length buf ≤ k
      → traffic n g f room ok now w buf ≡ traffic k g f room ok now w buf
  unfolding traffic
  traffic-turns zero zero g f room ok now w buf h l = refl
  traffic-turns zero (suc k) g f room ok now w buf h l =
      rw (traffic-short (suc k) g f room ok now w buf (ground (arith, h))) refl
  traffic-turns (suc n) zero g f room ok now w buf h l =
      rw (traffic-short (suc n) g f room ok now w buf (ground (arith, l))) refl
  traffic-turns (suc n) (suc k) g f room ok now w buf h l = elim (Bool-cases (ltb (length buf) 5)) [
    | inl short ↦
        rw
          (
            traffic-short (suc n) g f room ok now w buf short,
            traffic-short (suc k) g f room ok now w buf short,
          )
          refl
    | inr long ↦ go (decode buf g.max_msg_size blank) (λ w' len.
        let d = length-drop {0} (5 + len) buf in
        let less : length (drop (5 + len) buf) < length buf = ground (arith, d, long) in
        traffic-turns n k g f (λ i. room (suc i)) (λ i. ok (suc i)) (λ i. now (suc i)) w'
          (drop (5 + len) buf) (omega (arith, less)) (omega (arith, less)))
  ]
    where
      rest : ℕ → World S → Bytes → Run (World S × Bytes)
      rest t w' b = traffic t g f (λ i. room (suc i)) (λ i. ok (suc i)) (λ i. now (suc i)) w' b

      step : ℕ → ℕ → World S → Run (World S × Bytes)
      step t len w' =
          if w'.closes
          then done (w', buf)
          else if w'.conn.auth_pending
          then done (w', drop (5 + len) buf)
          else rest t w' (drop (5 + len) buf)

      go :
          (x : Run (Message × Decoded))
          → ((w' : World S) (len : ℕ)
              → rest n w' (drop (5 + len) buf) ≡ rest k w' (drop (5 + len) buf))
          → elim x [
            | panics ↦ panics
            | done (m, failed short_read) ↦ done (w, buf)
            | done (m, failed err) ↦ done (record w { closes = true }, buf)
            | done (m, decoded len) ↦ step n len (one_frame g f (room 0) (ok 0) (now 0) w m)
          ]
            ≡ elim x [
              | panics ↦ panics
              | done (m, failed short_read) ↦ done (w, buf)
              | done (m, failed err) ↦ done (record w { closes = true }, buf)
              | done (m, decoded len) ↦ step k len (one_frame g f (room 0) (ok 0) (now 0) w m)
            ]
      go panics more = refl
      go (done (m, failed err)) more = refl
      go (done (m, decoded len)) more =
          let w' = one_frame g f (room 0) (ok 0) (now 0) w m in
          ap
            (λ r.
              if w'.closes
              then done (w', buf)
              else if w'.conn.auth_pending
              then done (w', drop (5 + len) buf)
              else r)
            (more w' len)
