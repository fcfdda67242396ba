-- ===== src/Wal/Sealed/Packet.antt =====
-- One encrypted record: read back whole, and a part of it as the end of the log.
use tellstone.Prelude.{
  take_whole, take-append_ge, ℕ, ◌+◌, ◌-◌, ◌<◌, ◌≡◌, some, ◌++◌, Bytes, length, take, ltb, u64_mod,
  u32_mod, arith, length-append, length-take, take-append, drop-append, Bool-cases, inl, inr,
}
use tellstone.Crypto.Cipher.{Aead, AeadLaws, active, open_with_counter}
use tellstone.Wal.Format.{Record, le32, get_le32, get_le64, encode}
use tellstone.Wal.Format.Torn.{IsSized, fields, length-encode, get_le32-le32, get_le64-le64}
use tellstone.Wal.Handle.{nonce_of, packet}
use tellstone.Wal.Sealed.{ended, readable, read_packet, read_sealed, parse_plaintext}

-- The ciphertext of a record under a counter.
abbrev pub ciphertext : Aead → ℕ → ℕ → Record → Bytes
ciphertext a shard ctr r = a.seal (nonce_of ctr shard) (encode r)

pub parse_plaintext-encode : (r : Record) → IsSized r → parse_plaintext (encode r) ≡ some r
unfolding parse_plaintext encode
parse_plaintext-encode r h =
    let (k, v, t, d, l) = fields r h (r.key ++ r.value) in
    ground (
      arith,
      k,
      v,
      t,
      d,
      l,
      length-append {0} r.key r.value,
      take-append {0} r.key r.value,
      drop-append {0} r.key r.value,
      take_whole r.value,
    )

module _ (a : Aead) (laws : AeadLaws a) (fp : Bytes) (shard ctr : ℕ) (r : Record) (h : IsSized r)
    (low : ctr < u64_mod) where
  pub length-ciphertext : length (ciphertext a shard ctr r) ≡ length (encode r) + 16
  length-ciphertext = laws.length-seal (nonce_of ctr shard) (encode r)

  read_packet-ciphertext :
      (rest : Bytes)
      → read_packet (active a fp) (nonce_of ctr shard ++ ciphertext a shard ctr r) rest
        ≡ readable ctr (encode r) rest
  unfolding read_packet open_with_counter
  read_packet-ciphertext rest =
      let c : get_le64 (nonce_of ctr shard ++ ciphertext a shard ctr r) ≡ ctr =
        omega (arith, get_le64-le64 ctr (le32 shard ++ ciphertext a shard ctr r), low) in
      ground (
        arith,
        c,
        laws.unseal-seal (nonce_of ctr shard) (encode r),
        length-ciphertext,
        length-encode r,
      )

  pub read_sealed-packet :
      (rest : Bytes)
      → 12 + length (ciphertext a shard ctr r) < u32_mod
      → read_sealed (active a fp) (packet (nonce_of ctr shard) (ciphertext a shard ctr r) ++ rest)
        ≡ readable ctr (encode r) rest
  unfolding read_sealed
  read_sealed-packet rest small =
      let body = nonce_of ctr shard ++ ciphertext a shard ctr r in
      let n : get_le32 (le32 (12 + length (ciphertext a shard ctr r)) ++ (body ++ rest))
          ≡ length body =
        omega
          (arith, get_le32-le32 (12 + length (ciphertext a shard ctr r)) (body ++ rest), small) in
      let l = length-append {0} body rest in
      ground (
        arith,
        n,
        l,
        length-ciphertext,
        take-append {0} body rest,
        drop-append {0} body rest,
        read_packet-ciphertext rest,
      )

  -- A packet of which the last bytes are missing.
  pub read_sealed-take :
      (n : ℕ)
      → 12 + length (ciphertext a shard ctr r) < u32_mod
      → n < length (packet (nonce_of ctr shard) (ciphertext a shard ctr r))
      → read_sealed (active a fp) (take n (packet (nonce_of ctr shard) (ciphertext a shard ctr r)))
        ≡ ended
  unfolding read_sealed
  read_sealed-take n small short = elim (Bool-cases (ltb n 4)) [
    | inl early ↦
        ground (arith, length-take {0} n (packet (nonce_of ctr shard) (ciphertext a shard ctr r)))
    | inr late ↦
        let body = nonce_of ctr shard ++ ciphertext a shard ctr r in
        let size = le32 (12 + length (ciphertext a shard ctr r)) in
        let cut = take-append_ge size body n (ground arith) in
        let part : get_le32 (size ++ take (n - 4) body) ≡ 12 + length (ciphertext a shard ctr r) =
          omega (
            arith,
            get_le32-le32 (12 + length (ciphertext a shard ctr r)) (take (n - 4) body),
            small,
          ) in
        ground (arith, cut, part, length-take {0} n (size ++ body))
  ]
