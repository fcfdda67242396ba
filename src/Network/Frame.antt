-- ===== src/Network/Frame.antt =====
-- Marshal, Decode and Unmarshal of internal/network/protocol.go.
pub mod RoundTrip
pub mod Panics
use tellstone.Prelude.{
  ℕ, zero, suc, ◌+◌, ◌-◌, ◌*◌, ◌/◌, ◌%◌, ◌≤◌, ◌<◌, ◌≡◌, refl, Bool, true, false, not, ◌&&◌, ◌||◌,
  Option, none, some, List, [], ◌∷◌, ◌++◌, Bytes, length, take, drop, get_or, leb, ltb, ◌==◌,
  if◌then◌else◌, arith, u32_mod, u64_mod,
}
use tellstone.Prelude.Run.{Run, done, panics, ◌>>=◌}

-- binary.BigEndian.PutUint16, PutUint32 and PutUint64
abbrev pub put16 : ℕ → Bytes
put16 n = n / 256 % 256 ∷ n % 256 ∷ []

abbrev pub put32 : ℕ → Bytes
put32 n = n / 16777216 % 256 ∷ n / 65536 % 256 ∷ n / 256 % 256 ∷ n % 256 ∷ []

abbrev pub put64 : ℕ → Bytes
put64 n = put32 (n / 4294967296) ++ put32 n

-- The numbers at the front of a byte slice.
abbrev pub get16 : Bytes → ℕ
get16 (a ∷ b ∷ s) = a * 256 + b
get16 _ = 0

abbrev pub get32 : Bytes → ℕ
get32 (a ∷ b ∷ c ∷ d ∷ s) = a * 16777216 + b * 65536 + c * 256 + d
get32 _ = 0

abbrev pub get64 : Bytes → ℕ
get64 s = get32 s * 4294967296 + get32 (drop 4 s)

abbrev pub msg_request : ℕ
msg_request = 2

abbrev pub header_size : ℕ
header_size = 11

pub record Message : Type 0 where
  pub type : ℕ
  pub op : ℕ
  pub ttl : ℕ
  pub key : Bytes
  pub value : Bytes
  pub payload : Bytes

pub data Error : Type 0 where
  short_read too_long zero_length malformed_frame buffer_too_small io_failed : Error

-- The payload that Marshal builds.
unfoldable pub payload_of : Message → Bytes
payload_of m =
    if m.type == msg_request
    then m.op ∷ put16 (length m.key) ++ (put64 m.ttl ++ (m.key ++ m.value))
    else m.payload

-- Message.Marshal
unfoldable pub marshal : Message → Bytes
unfolding payload_of
marshal m = put32 (1 + length (payload_of m)) ++ (m.type ∷ payload_of m)

-- The fields of a payload, with the length checks of Decode and Read.
unfoldable pub fill : Message → Bytes → Message × Option Error
fill out raw =
    if out.type == msg_request
    then if ltb (length raw) header_size
      then (record out { payload = raw }, some malformed_frame)
      else if ltb (length raw) (header_size + get16 (drop 1 raw))
      then (
        record out { payload = raw; op = get_or raw 0 0; ttl = get64 (drop 3 raw) },
        some malformed_frame,
      )
      else (
        record out {
          payload = raw;
          op = get_or raw 0 0;
          ttl = get64 (drop 3 raw);
          key = take (get16 (drop 1 raw)) (drop header_size raw);
          value = drop (get16 (drop 1 raw)) (drop header_size raw);
        },
        none,
      )
    else (record out { payload = raw; value = raw }, none)

pub data Decoded : Type 0 where
  decoded : ℕ → Decoded
  failed : Error → Decoded

abbrev pub outcome : ℕ → Message × Option Error → Message × Decoded
outcome n (m, none) = (m, decoded n)
outcome n (m, some e) = (m, failed e)

-- Decode, on a slice whose capacity is its length: slicing past it panics.
unfoldable pub decode : Bytes → ℕ → Message → Run (Message × Decoded)
unfolding fill
decode buf max_size out =
    if ltb (length buf) 5
    then done (out, failed short_read)
    else if get32 buf == 0
    then done (out, failed zero_length)
    else if ltb max_size (get32 buf)
    then done (out, failed too_long)
    else if ltb (length buf % u32_mod) ((get32 buf + 4) % u32_mod)
    then done (out, failed short_read)
    else if get32 buf == 1
    then done (record out { type = get_or buf 4 0 }, decoded 0)
    else if ltb (length buf) (4 + get32 buf)
    then panics
    else done (
        outcome (get32 buf - 1)
          (fill (record out { type = get_or buf 4 0 }) (take (get32 buf - 1) (drop 5 buf))))

-- What Unmarshal makes of the bytes of a frame behind the length: there is no check of the key's
-- length.
unfoldable pub unmarshal_frame : ℕ → Bytes → Run (Option Message)
unmarshal_frame type raw =
    if type == msg_request
    then if ltb (length raw) header_size
      then done none
      else if ltb (length raw) (header_size + get16 (drop 1 raw))
      then panics
      else done (
          some (record {
            type = type;
            payload = raw;
            op = get_or raw 0 0;
            ttl = get64 (drop 3 raw);
            key = take (get16 (drop 1 raw)) (drop header_size raw);
            value = drop (get16 (drop 1 raw)) (drop header_size raw);
          }))
    else done (some (record { type = type; payload = raw; op = 0; ttl = 0; key = []; value = raw }))

-- Unmarshal on the bytes that the reader yields; `none` is an error.
unfoldable pub unmarshal : Bytes → Run (Option Message)
unfolding unmarshal_frame
unmarshal stream =
    if ltb (length stream) 4
    then done none
    else if get32 stream == 0
    then done none
    else if ltb (length stream) (4 + get32 stream)
    then done none
    else unmarshal_frame (get_or stream 4 0) (take (get32 stream - 1) (drop 5 stream))

-- Write: the bytes of its fast path, and of its two writes.
unfoldable pub write : ℕ → Bytes → Bytes
write type payload = put32 (1 + length payload) ++ (type ∷ payload)

-- Read on the bytes that the reader yields, with a buffer of the given length: the message
-- afterwards and the error.
unfoldable pub read : Bytes → ℕ → Message → Message × Option Error
unfolding fill
read stream size out =
    if ltb (length stream) 4
    then (out, some io_failed)
    else if get32 stream == 0
    then (out, some zero_length)
    else if ltb (size % u32_mod) (get32 stream)
    then (out, some buffer_too_small)
    else if ltb (length stream) (4 + get32 stream)
    then (out, some io_failed)
    else fill (record out { type = get_or stream 4 0 }) (take (get32 stream - 1) (drop 5 stream))
