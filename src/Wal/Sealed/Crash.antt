-- ===== src/Wal/Sealed/Crash.antt =====
-- The replay of an encrypted log of whole records, and of one whose last append stopped early.
use mathlib.Core.List.{append_assoc}
use tellstone.Prelude.{
  ℕ, zero, suc, ◌+◌, ◌<◌, ◌≤◌, ◌≡◌, refl, ap, ◌∙◌, Option, none, some, List, [], ◌∷◌, ◌++◌, Bytes,
  length, arith, u32_mod, u64_mod, length-append,
}
use tellstone.Prelude.Run.{Run, done, panics}
use tellstone.Crypto.Cipher.{Aead, AeadLaws, active}
use tellstone.Storage.Engine
use tellstone.Wal.Format.{Record, encode}
use tellstone.Wal.Format.Torn.{IsSized}
use tellstone.Wal.Handle.{nonce_of, packet}
use tellstone.Wal.Replay.{Moment, Applied, loaded, skipped, refused, apply_record}
use tellstone.Wal.Replay.Crash.{apply_all}
use tellstone.Wal.Sealed.{ended, read_sealed, larger, Unsealed, replay_sealed}
use tellstone.Wal.Sealed.Packet.{
  ciphertext, length-ciphertext, parse_plaintext-encode, read_sealed-packet,
}

-- A record whose packet has a length below 2^32.
pub record IsSealable (r : Record) : Type 0 where
  pub sized : IsSized r
  pub small : 28 + length (encode r) < u32_mod

abbrev pub AllSealable : List Record → Type 0
AllSealable [] = Unit
AllSealable (r ∷ rs) = IsSealable r × AllSealable rs

-- The largest counter seen after records under consecutive counters.
unfoldable pub top_after : ℕ → ℕ → List Record → ℕ
top_after top k [] = top
top_after top k (r ∷ rs) = top_after (larger top k) (k + 1) rs

pub top_after-lem :
    (top k : ℕ) (r : Record) (rs : List Record) → top ≤ k → top_after top k (r ∷ rs) ≡ k + length rs
unfolding top_after
top_after-lem top k r [] h = ground arith
top_after-lem top k r (q ∷ rs) h =
    let l : larger top k ≡ k = ground arith in
    rw l (top_after-lem k (k + 1) q rs (omega arith) ∙ omega arith)

module _ (a : Aead) (shard : ℕ) where
  -- Packets under consecutive counters, in front of other bytes.
  unfoldable pub seal_onto : ℕ → List Record → Bytes → Bytes
  seal_onto k [] tail = tail
  seal_onto k (r ∷ rs) tail =
      packet (nonce_of k shard) (ciphertext a shard k r) ++ seal_onto (k + 1) rs tail

  pub seal_onto-append :
      (k : ℕ) (rs : List Record) (tail b : Bytes)
      → seal_onto k rs tail ++ b ≡ seal_onto k rs (tail ++ b)
  unfolding seal_onto
  seal_onto-append k [] tail b = refl
  seal_onto-append k (r ∷ rs) tail b =
      append_assoc (packet (nonce_of k shard) (ciphertext a shard k r)) (seal_onto (k + 1) rs tail)
        b
      ∙ ap (λ s. packet (nonce_of k shard) (ciphertext a shard k r) ++ s)
          (seal_onto-append (k + 1) rs tail b)

  pub length-seal_onto :
      (k : ℕ) (rs : List Record) (tail : Bytes)
      → length rs + length tail ≤ length (seal_onto k rs tail)
  unfolding seal_onto
  length-seal_onto k [] tail = omega arith
  length-seal_onto k (r ∷ rs) tail = omega (
    arith,
    length-seal_onto (k + 1) rs tail,
    length-append {0} (packet (nonce_of k shard) (ciphertext a shard k r))
        (seal_onto (k + 1) rs tail),
  )

-- Where the replay stops, and what it has seen, is of interest only without an error.
abbrev pub settled : Run Unsealed → Run Unsealed
settled panics = panics
settled (done (e, none, top, s)) = done (e, none, top, s)
settled (done (e, some err, top, s)) = done (e, some err, 0, [])

abbrev pub ending : ℕ → Bytes → Run (Engine.Engine × Option Engine.Error) → Run Unsealed
ending top tail panics = panics
ending top tail (done (e, none)) = done (e, none, top, tail)
ending top tail (done (e, some err)) = done (e, some err, 0, [])

module _ (a : Aead) (laws : AeadLaws a) (fp : Bytes) (shard : ℕ) where
  pub replay_sealed-seal_onto :
      (n : ℕ) (ms : ℕ → Moment) (top k : ℕ) (e : Engine.Engine) (rs : List Record) (tail : Bytes)
      → length rs ≤ n
      → k + length rs < u64_mod
      → AllSealable rs
      → read_sealed (active a fp) tail ≡ ended
      → settled (replay_sealed n ms (active a fp) top e (seal_onto a shard k rs tail))
        ≡ ending (top_after top k rs) tail (apply_all ms e rs)
  unfolding replay_sealed seal_onto apply_all top_after
  replay_sealed-seal_onto zero ms top k e [] tail f c h t = refl
  replay_sealed-seal_onto zero ms top k e (r ∷ rs) tail f c h t = absurd (omega arith)
  replay_sealed-seal_onto (suc n) ms top k e [] tail f c h t = rw (t, settled) refl
  replay_sealed-seal_onto (suc n) ms top k e (r ∷ rs) tail f c h t =
      let l = length-ciphertext a laws fp shard k r h.0.sized (omega arith) in
      let small : 12 + length (ciphertext a shard k r) < u32_mod = omega (arith, l, h.0.small) in
      let read =
        read_sealed-packet a laws fp shard k r h.0.sized (omega arith)
          (seal_onto a shard (k + 1) rs tail) small in
      rw (read, parse_plaintext-encode r h.0.sized, settled)
        (go (apply_record e (ms 0) r) (λ e'.
          replay_sealed-seal_onto n (λ i. ms (suc i)) (larger top k) (k + 1) e' rs tail
            (omega arith) (omega arith) h.1 t))
    where
      go :
          (x : Run (Engine.Engine × Applied))
          → ((e' : Engine.Engine)
              → settled (
                  replay_sealed n
                    (λ i. ms (suc i))
                    (active a fp)
                    (larger top k)
                    e'
                    (seal_onto a shard (k + 1) rs tail))
                ≡ ending
                    (top_after (larger top k) (k + 1) rs)
                    tail
                    (apply_all (λ i. ms (suc i)) e' rs))
          → settled (elim x [
            | panics ↦ panics
            | done (e', refused err) ↦ done (e', some err, top, seal_onto a shard k (r ∷ rs) tail)
            | done (e', _) ↦
                replay_sealed n
                  (λ i. ms (suc i))
                  (active a fp)
                  (larger top k)
                  e'
                  (seal_onto a shard (k + 1) rs tail)
          ])
            ≡ ending (top_after (larger top k) (k + 1) rs) tail (elim x [
              | panics ↦ panics
              | done (e', refused err) ↦ done (e', some err)
              | done (e', _) ↦ apply_all (λ i. ms (suc i)) e' rs
            ])
      go panics more = refl
      go (done (e', refused err)) more = refl
      go (done (e', loaded)) more = more e'
      go (done (e', skipped)) more = more e'
