-- ===== src/Wal/Sealed/Counter.antt =====
-- A restart on an encrypted log: the records that it loads and the counter that it goes on with.
use mathlib.Core.List.{append-nil, append_assoc}
use tellstone.Prelude.{
  ℕ, ◌+◌, ◌-◌, ◌<◌, ◌≤◌, ◌≡◌, refl, ap, ◌∙◌, sym, true, false, Option, none, some, List, [], ◌∷◌,
  ◌++◌, Bytes, length, take, drop, ltb, if◌then◌else◌, arith, u32_mod, u64_mod, add64,
  length-append, take-append,
}
use tellstone.Prelude.Run.{Run, done, panics}
use tellstone.Crypto.Cipher.{Aead, AeadLaws, active, seal_with_counter}
use tellstone.Storage.Engine
use tellstone.Wal.Format.{Record}
use tellstone.Wal.Handle.{
  Handle, nonce_of, packet, magic, append_record, append_sealed, append_bytes,
}
use tellstone.Wal.Replay.{Moment, finish_replay}
use tellstone.Wal.Replay.Crash.{apply_all}
use tellstone.Wal.Sealed.{
  ended, read_sealed, Unsealed, replay_sealed, next_counter, LoadedLog, load_sealed,
}
use tellstone.Wal.Sealed.Packet.{ciphertext, length-ciphertext, read_sealed-take}
use tellstone.Wal.Sealed.Crash.{
  IsSealable, AllSealable, top_after, top_after-lem, seal_onto, seal_onto-append, length-seal_onto,
  settled, ending, replay_sealed-seal_onto,
}

-- The log, cut to whole packets and with its next counter, and the engine.
abbrev pub reopened : Handle → Bytes → ℕ → Run (Engine.Engine × Option Engine.Error) → Run LoadedLog
reopened h file ctr panics = panics
reopened h file ctr (done (e, none)) =
    done (record h { file = file; nonce_ctr = ctr; sidecar = ctr }, e, none)
reopened h file ctr (done (e, some err)) = done (h, e, some err)

load_of : Handle → Run Unsealed → Run LoadedLog
load_of h panics = panics
load_of h (done (e, none, top, s)) =
    let ctr = next_counter top h.sidecar in
    done (finish_replay (record h { nonce_ctr = ctr; sidecar = ctr }) s true, e, none)
load_of h (done (e, some err, top, s)) = done (h, e, some err)

load_of_lem :
    (h : Handle) (x y : Run Unsealed) → settled x ≡ y → load_of h x ≡ load_of h (settled y)
unfolding load_of
load_of_lem h panics y q = rw (← q, settled) refl
load_of_lem h (done (e, none, top, s)) y q = rw (← q, settled) refl
load_of_lem h (done (e, some err, top, s)) y q = rw (← q, settled) refl

load_sealed_lem :
    (h : Handle) (ms : ℕ → Moment) (e : Engine.Engine)
    → load_sealed h ms e true true
      ≡ load_of h (replay_sealed (length h.file) ms h.crypto 0 e (drop 4 h.file))
unfolding load_sealed load_of
load_sealed_lem h ms e = go (replay_sealed (length h.file) ms h.crypto 0 e (drop 4 h.file))
  where
    go :
        (x : Run Unsealed)
        → elim x [
          | panics ↦ panics
          | done (e', some err, top, s) ↦ done (h, e', some err)
          | done (e', none, top, s) ↦
              let ctr = next_counter top h.sidecar in
              done (finish_replay (record h { nonce_ctr = ctr; sidecar = ctr }) s true, e', none)
        ]
          ≡ load_of h x
    go panics = refl
    go (done (e', none, top, s)) = refl
    go (done (e', some err, top, s)) = refl

cut_lem :
    (front tail whole : Bytes)
    → whole ≡ front ++ tail
    → take (length whole - length tail) whole ≡ front
cut_lem front tail whole h =
    let l : length whole - length tail ≡ length front =
      omega (arith, length-append {0} front tail, ap length h) in
    rw (l, h) (take-append front tail)

module _ (a : Aead) (laws : AeadLaws a) (fp : Bytes) where
  pub load_sealed-seal_onto :
      (h : Handle) (ms : ℕ → Moment) (e : Engine.Engine) (k : ℕ) (r : Record) (rs : List Record)
      (tail : Bytes)
      → h.crypto ≡ active a fp
      → h.file ≡ magic ++ seal_onto a h.shard_id k (r ∷ rs) tail
      → h.sidecar ≤ k + length (r ∷ rs)
      → k + length (r ∷ rs) < u64_mod
      → AllSealable (r ∷ rs)
      → read_sealed (active a fp) tail ≡ ended
      → load_sealed h ms e true true
        ≡ reopened h
            (magic ++ seal_onto a h.shard_id k (r ∷ rs) [])
            (k + length (r ∷ rs))
            (apply_all ms e (r ∷ rs))
  unfolding load_of finish_replay next_counter
  load_sealed-seal_onto h ms e k r rs tail c f low small all t =
      load_sealed_lem h ms e
      ∙ ap (λ s. load_of h (replay_sealed (length s) ms h.crypto 0 e (drop 4 s))) f
      ∙ ap
          (λ y. load_of h (
            replay_sealed (length (magic ++ seal_onto a h.shard_id k (r ∷ rs) tail)) ms y 0 e
              (seal_onto a h.shard_id k (r ∷ rs) tail)))
          c
      ∙ load_of_lem h _ _ (
          replay_sealed-seal_onto a laws fp h.shard_id
            (length (magic ++ seal_onto a h.shard_id k (r ∷ rs) tail)) ms 0 k e (r ∷ rs) tail
            (omega (arith, length-seal_onto a h.shard_id k (r ∷ rs) tail)) small all t)
      ∙ go (apply_all ms e (r ∷ rs))
    where
      go :
          (x : Run (Engine.Engine × Option Engine.Error))
          → load_of h (settled (ending (top_after 0 k (r ∷ rs)) tail x))
            ≡ reopened h (magic ++ seal_onto a h.shard_id k (r ∷ rs) []) (k + length (r ∷ rs)) x
      go panics = refl
      go (done (e', none)) =
          let top = top_after-lem 0 k r rs (omega arith) in
          let ctr : (if ltb (add64 (top_after 0 k (r ∷ rs)) 1) h.sidecar
                then h.sidecar
                else add64 (top_after 0 k (r ∷ rs)) 1)
              ≡ k + length (r ∷ rs) =
            ground (arith, top) in
          let parts = seal_onto-append a h.shard_id k (r ∷ rs) [] tail in
          let cut : take (length h.file - length tail) h.file
              ≡ magic ++ seal_onto a h.shard_id k (r ∷ rs) [] =
            cut_lem (magic ++ seal_onto a h.shard_id k (r ∷ rs) []) tail h.file
              (f ∙ ap (λ s. magic ++ s) (sym parts)) in
          ap
            (λ n. done (
              record h {
                file = take (length h.file - length tail) h.file;
                nonce_ctr = n;
                sidecar = n;
              },
              e',
              none,
            ))
            ctr
          ∙ ap
              (λ s. done (
                record h {
                  file = s;
                  nonce_ctr = k + length (r ∷ rs);
                  sidecar = k + length (r ∷ rs);
                },
                e',
                none,
              ))
              cut
      go (done (e', some err)) = refl

AllSealable-snoc :
    (rs : List Record) (r : Record) → AllSealable rs → IsSealable r → AllSealable (rs ++ r ∷ [])
AllSealable-snoc [] r h k = (k, tt)
AllSealable-snoc (q ∷ rs) r h k = (h.0, AllSealable-snoc rs r h.1 k)

length-snoc : (rs : List Record) (r : Record) → length (rs ++ r ∷ []) ≡ length rs + 1
length-snoc rs r = length-append {0} rs (r ∷ [])

seal_onto-snoc :
    (a : Aead) (shard k : ℕ) (rs : List Record) (r : Record)
    → seal_onto a shard k rs
        (packet (nonce_of (k + length rs) shard) (ciphertext a shard (k + length rs) r))
      ≡ seal_onto a shard k (rs ++ r ∷ []) []
unfolding seal_onto
seal_onto-snoc a shard k [] r =
    let e : k + 0 ≡ k = omega arith in
    ap (λ c. packet (nonce_of c shard) (ciphertext a shard c r)) e ∙ sym (append-nil _)
seal_onto-snoc a shard k (q ∷ rs) r =
    let e : k + length (q ∷ rs) ≡ k + 1 + length rs = omega arith in
    ap (λ s. packet (nonce_of k shard) (ciphertext a shard k q) ++ s)
      (ap (λ c. seal_onto a shard (k + 1) rs (packet (nonce_of c shard) (ciphertext a shard c r))) e
        ∙ seal_onto-snoc a shard (k + 1) rs r)

-- A log that is open for appending: whole packets under the counters from k on, the next counter
-- behind them, and a sidecar that is not ahead.
pub record IsOpen (a : Aead) (fp : Bytes) (h : Handle) (k : ℕ) (r : Record) (rs : List Record)
    : Type 0 where
  pub cipher : h.crypto ≡ active a fp
  pub encrypted : h.sealed ≡ true
  pub settled_log : h.needs_migrate ≡ false
  pub packets : h.file ≡ magic ++ seal_onto a h.shard_id k (r ∷ rs) []
  pub next : h.nonce_ctr ≡ k + length (r ∷ rs)
  pub behind : h.sidecar ≤ h.nonce_ctr
  pub room : h.nonce_ctr + 1 < u64_mod
  pub sealable : AllSealable (r ∷ rs)

module _ (a : Aead) (laws : AeadLaws a) (fp : Bytes) where
  append_lem :
      (h : Handle) (k : ℕ) (r : Record) (rs : List Record) (q : Record) (fault : Option ℕ)
      → IsOpen a fp h k r rs
      → IsSealable q
      → let p = packet (nonce_of h.nonce_ctr h.shard_id) (ciphertext a h.shard_id h.nonce_ctr q) in
        (append_record h q fault).0 ≡ record h {
          file = h.file ++ elim fault [ none ↦ p | some n ↦ take n p ];
          nonce_ctr = h.nonce_ctr + 1;
        }
  unfolding append_record append_sealed append_bytes seal_with_counter
  append_lem h k r rs q none o s =
      let l =
        length-ciphertext a laws fp h.shard_id h.nonce_ctr q s.sized (omega (arith, o.room)) in
      let small : 12 + length (ciphertext a h.shard_id h.nonce_ctr q) < u32_mod =
        omega (arith, l, s.small) in
      ground (arith, o.cipher, o.encrypted, o.settled_log, o.room, small)
  append_lem h k r rs q (some n) o s =
      let l =
        length-ciphertext a laws fp h.shard_id h.nonce_ctr q s.sized (omega (arith, o.room)) in
      let small : 12 + length (ciphertext a h.shard_id h.nonce_ctr q) < u32_mod =
        omega (arith, l, s.small) in
      ground (arith, o.cipher, o.encrypted, o.settled_log, o.room, small)

  file_lem :
      (h : Handle) (k : ℕ) (r : Record) (rs : List Record) (b : Bytes)
      → IsOpen a fp h k r rs
      → h.file ++ b ≡ magic ++ seal_onto a h.shard_id k (r ∷ rs) b
  file_lem h k r rs b o =
      ap (λ f. f ++ b) o.packets
      ∙ append_assoc magic (seal_onto a h.shard_id k (r ∷ rs) []) b
      ∙ ap (λ x. magic ++ x) (seal_onto-append a h.shard_id k (r ∷ rs) [] b)

  -- On an encrypted log that is open for appending, for a record whose packet has a length below
  -- 2^32, and with a sidecar and a truncation that succeed: after an append that succeeds, a
  -- restart applies the records and the new one and goes on with the counter behind it; after one
  -- that stopped at any byte before the packet's end, a restart applies the records before it, cuts
  -- the file back to them, and goes on with the very counter under which the torn packet was sealed.
  pub load_sealed-append_record :
      (h : Handle) (ms : ℕ → Moment) (e : Engine.Engine) (k : ℕ) (r : Record) (rs : List Record)
      (q : Record) (n : ℕ)
      → IsOpen a fp h k r rs
      → IsSealable q
      → n
        < length (packet (nonce_of h.nonce_ctr h.shard_id) (ciphertext a h.shard_id h.nonce_ctr q))
      → (load_sealed (append_record h q none).0 ms e true true
          ≡ reopened
              (append_record h q none).0
              (magic ++ seal_onto a h.shard_id k (r ∷ (rs ++ q ∷ [])) [])
              (h.nonce_ctr + 1)
              (apply_all ms e (r ∷ (rs ++ q ∷ []))))
        × (load_sealed (append_record h q (some n)).0 ms e true true
            ≡ reopened (append_record h q (some n)).0 h.file h.nonce_ctr (apply_all ms e (r ∷ rs)))
  load_sealed-append_record h ms e k r rs q n o s short =
      let l =
        length-ciphertext a laws fp h.shard_id h.nonce_ctr q s.sized (omega (arith, o.room)) in
      let small : 12 + length (ciphertext a h.shard_id h.nonce_ctr q) < u32_mod =
        omega (arith, l, s.small) in
      let count : h.nonce_ctr + 1 ≡ k + length (r ∷ (rs ++ q ∷ [])) =
        omega (arith, o.next, length-snoc rs q) in
      let p = packet (nonce_of h.nonce_ctr h.shard_id) (ciphertext a h.shard_id h.nonce_ctr q) in
      let whole = record h { file = h.file ++ p; nonce_ctr = k + length (r ∷ (rs ++ q ∷ [])) } in
      let torn = record h { file = h.file ++ take n p; nonce_ctr = h.nonce_ctr + 1 } in
      (
        rw (append_lem h k r rs q none o s, count)
            (load_sealed-seal_onto a laws fp whole ms e k r (rs ++ q ∷ []) [] o.cipher
              (file_lem h k r rs p o
                ∙ ap
                    (λ c.
                      magic
                      ++ seal_onto a h.shard_id k (r ∷ rs)
                          (packet (nonce_of c h.shard_id) (ciphertext a h.shard_id c q)))
                    o.next
                ∙ ap (λ x. magic ++ x) (seal_onto-snoc a h.shard_id k (r ∷ rs) q))
              (omega (arith, o.behind, count)) (omega (arith, o.room, count))
              (AllSealable-snoc (r ∷ rs) q o.sealable s) (unfold read_sealed in refl)),
        rw (append_lem h k r rs q (some n) o s) (
            load_sealed-seal_onto a laws fp torn ms e k r rs (take n p) o.cipher
              (file_lem h k r rs (take n p) o) (omega (arith, o.behind, o.next))
              (omega (arith, o.room, o.next)) o.sealable
              (read_sealed-take a laws fp h.shard_id h.nonce_ctr q s.sized (omega (arith, o.room)) n
                small short)
            ∙ ap (λ f. reopened torn f (k + length (r ∷ rs)) (apply_all ms e (r ∷ rs)))
                (sym o.packets)
            ∙ ap (λ c. reopened torn h.file c (apply_all ms e (r ∷ rs))) (sym o.next)),
      )
