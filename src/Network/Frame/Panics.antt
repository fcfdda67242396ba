-- ===== src/Network/Frame/Panics.antt =====
-- Which bytes make the readers of a frame panic.
use tellstone.Prelude.{
  ℕ, ◌+◌, ◌-◌, ◌<◌, ◌≤◌, ◌≡◌, ◌↔◌, ◌≢◌, Bytes, length, drop, get_or, arith, u32_mod, length-take,
  length-drop,
}
use tellstone.Prelude.Run.{done, panics, done_of}
use tellstone.Network.Frame.{
  get16, get32, msg_request, header_size, Message, Decoded, decode, unmarshal, unmarshal_frame,
}

decode_lem :
    (buf : Bytes) (max_size : ℕ) (out : Message)
    → max_size + 4 < u32_mod
    → length buf < u32_mod
    → decode buf max_size out ≢ panics
unfolding decode
decode_lem buf max_size out low short h = ground arith

-- With a limit that stays four bytes below 2^32, Decode returns, without a panic, on every slice
-- shorter than 2^32.
pub decode-done :
    (buf : Bytes) (max_size : ℕ) (out : Message)
    → max_size + 4 < u32_mod
    → length buf < u32_mod
    → (r : Message × Decoded) × (decode buf max_size out ≡ done r)
decode-done buf max_size out low short =
    done_of (decode buf max_size out) (decode_lem buf max_size out low short)

-- A complete request frame with the eleven bytes of its header that declares a key longer than what
-- follows.
abbrev pub IsOverlong : Bytes → Type 0
IsOverlong stream =
    (4 + get32 stream ≤ length stream)
    × (get_or stream 4 0 ≡ msg_request)
    × (header_size + 1 ≤ get32 stream)
    × (get32 stream ≤ header_size + get16 (drop 6 stream))

-- Unmarshal panics exactly on a stream that begins with a complete request frame that has the eleven
-- bytes of its header and declares a key longer than what follows them.
pub unmarshal-panics : (stream : Bytes) → (unmarshal stream ≡ panics) ↔ IsOverlong stream
unfolding unmarshal unmarshal_frame
unmarshal-panics stream =
    let l = length-take {0} (get32 stream - 1) (drop 5 stream) in
    let d = length-drop {0} 5 stream in (λ e. ground (arith, l, d), λ h. ground (arith, l, d))
