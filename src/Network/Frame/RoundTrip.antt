-- ===== src/Network/Frame/RoundTrip.antt =====
-- What Marshal writes, Decode reads.
use tellstone.Prelude.{
  ℕ, ◌+◌, ◌-◌, ◌/◌, ◌%◌, ◌≤◌, ◌<◌, ◌≡◌, ◌≢◌, refl, ap, ◌∙◌, none, ◌∷◌, ◌++◌, Bytes, length, take,
  drop, take-append, drop-append, length-append, get_or, arith, u32_mod, u64_mod,
}
use tellstone.Prelude.Run.{done}
use tellstone.Network.Frame.{
  put16, put32, put64, get16, get32, get64, msg_request, header_size, Message, payload_of, marshal,
  fill, decoded, outcome, decode, write, read,
}

get16-put16 : (n : ℕ) (s : Bytes) → get16 (put16 n ++ s) ≡ n % 65536
get16-put16 n s = omega arith

get32-put32 : (n : ℕ) (s : Bytes) → get32 (put32 n ++ s) ≡ n % 4294967296
get32-put32 n s = omega arith

get64-put64 : (n : ℕ) (s : Bytes) → get64 (put64 n ++ s) ≡ n % u64_mod
get64-put64 n s = omega (arith, get32-put32 (n / 4294967296) (put32 n ++ s), get32-put32 n s)

fill-payload_of :
    (m out : Message)
    → m.type ≡ msg_request
    → out.type ≡ msg_request
    → m.ttl < u64_mod
    → length m.key < 65536
    → fill out (payload_of m) ≡ (record m { type = out.type; payload = payload_of m }, none)
unfolding fill payload_of
fill-payload_of m out t u small short =
    let k : get16 (put16 (length m.key) ++ (put64 m.ttl ++ (m.key ++ m.value))) ≡ length m.key =
      omega (arith, get16-put16 (length m.key) (put64 m.ttl ++ (m.key ++ m.value))) in
    let v : get64 (put64 m.ttl ++ (m.key ++ m.value)) ≡ m.ttl =
      omega (arith, get64-put64 m.ttl (m.key ++ m.value)) in
    let l = length-append {0} m.key m.value in
    let f = take-append {0} m.key m.value in
    let g = drop-append {0} m.key m.value in ground (arith, k, v, l, f, g)

length-payload_of :
    (m : Message)
    → m.type ≡ msg_request
    → length (payload_of m) ≡ header_size + length m.key + length m.value
unfolding payload_of
length-payload_of m t = ground (arith, length-append {0} m.key m.value)

length-marshal : (m : Message) → length (marshal m) ≡ 5 + length (payload_of m)
unfolding marshal
length-marshal m = omega arith

-- The frame in front of other bytes.
module _ (m : Message) (rest : Bytes) where
  marshal_parts :
      5 + length (payload_of m) < u32_mod
      → (get32 (marshal m ++ rest) ≡ 1 + length (payload_of m))
        × (get_or (marshal m ++ rest) 4 0 ≡ m.type)
        × (take (length (payload_of m)) (drop 5 (marshal m ++ rest)) ≡ payload_of m)
  unfolding marshal
  marshal_parts low = (
    omega (arith, get32-put32 (1 + length (payload_of m)) ((m.type ∷ payload_of m) ++ rest)),
    refl,
    take-append {0} (payload_of m) rest,
  )

decode_lem :
    (buf raw : Bytes) (max_size n : ℕ) (out : Message)
    → get32 buf ≡ 1 + n
    → 0 < n
    → 1 + n ≤ max_size
    → 5 + n ≤ length buf
    → length buf < u32_mod
    → take n (drop 5 buf) ≡ raw
    → decode buf max_size out ≡ done (outcome n (fill (record out { type = get_or buf 4 0 }) raw))
unfolding decode
decode_lem buf raw max_size n out size some_raw within there low e =
    let m : get32 buf - 1 ≡ n = omega (arith, size) in ground (arith, size, m, e)

-- Decode reads a request that Marshal wrote back, with its payload and the payload's length, in
-- front of any bytes that follow, into any message: the key is shorter than 2^16, the frame within
-- the limit and the slice shorter than 2^32.
pub decode-marshal :
    (m out : Message) (rest : Bytes) (max_size : ℕ)
    → m.type ≡ msg_request
    → m.ttl < u64_mod
    → length m.key < 65536
    → 1 + length (payload_of m) ≤ max_size
    → 5 + length (payload_of m) + length rest < u32_mod
    → decode (marshal m ++ rest) max_size out
      ≡ done (record m { payload = payload_of m }, decoded (length (payload_of m)))
decode-marshal m out rest max_size t ttl short within low =
    let (size, type, raw) = marshal_parts m rest (omega arith) in
    let n = length-payload_of m t in
    let l = length-append {0} (marshal m) rest in
    let k = length-marshal m in
    let f = fill-payload_of m (record out { type = m.type }) t t ttl short in
    let size' : length (marshal m ++ rest) ≡ 5 + length (payload_of m) + length rest =
      omega (arith, l, k) in
    decode_lem (marshal m ++ rest) (payload_of m) max_size (length (payload_of m)) out size
      (omega (arith, n)) within (omega (arith, size')) (omega (arith, size')) raw
    ∙ ap
        (λ x.
          done (outcome (length (payload_of m)) (fill (record out { type = x }) (payload_of m))))
        type
    ∙ ap (λ x. done (outcome (length (payload_of m)) x)) f

read_lem :
    (stream raw : Bytes) (size n : ℕ) (out : Message)
    → get32 stream ≡ 1 + n
    → 1 + n ≤ size
    → size < u32_mod
    → 5 + n ≤ length stream
    → take n (drop 5 stream) ≡ raw
    → read stream size out ≡ fill (record out { type = get_or stream 4 0 }) raw
unfolding read
read_lem stream raw size n out e fits low there f =
    let m : get32 stream - 1 ≡ n = omega (arith, e) in ground (arith, e, m, f)

fill-other :
    (out : Message) (type : ℕ) (raw : Bytes)
    → type ≢ msg_request
    → fill (record out { type = type }) raw
      ≡ (record out { type = type; payload = raw; value = raw }, none)
unfolding fill
fill-other out type raw h = ground arith

-- Read finds what Write sent in a frame of any other type than a request, in front of any bytes that
-- follow, if its buffer is shorter than 2^32 and holds the type and the payload; the fields of
-- a request keep what they were.
pub read-write :
    (type : ℕ) (payload rest : Bytes) (size : ℕ) (out : Message)
    → type ≢ msg_request
    → 1 + length payload ≤ size
    → size < u32_mod
    → read (write type payload ++ rest) size out
      ≡ (record out { type = type; payload = payload; value = payload }, none)
unfolding write
read-write type payload rest size out h fits low =
    let head = get32-put32 (1 + length payload) ((type ∷ payload) ++ rest) in
    let l = length-append {0} payload rest in
    read_lem (put32 (1 + length payload) ++ ((type ∷ payload) ++ rest)) payload size
      (length payload) out (omega (arith, head)) fits low (omega (arith, l))
      (take-append {0} payload rest)
    ∙ fill-other out type payload h
