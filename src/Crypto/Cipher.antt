-- ===== src/Crypto/Cipher.antt =====
-- internal/crypto/cipher.go: the value cipher. ChaCha20-Poly1305 is a third-party package: its
-- `Seal` and `Open` are the record `Aead`, and `AeadLaws` is what their documentation promises.
-- A source of random bytes is the argument `entropy`; `none` is a failed read.
use tellstone.Prelude.{
  ℕ, ◌+◌, ◌≡◌, sym, ap, ◌∙◌, Bool, true, false, Option, none, some, ◌++◌, arith, Bytes, length,
  take, drop, take-append, drop-append, length-append, ltb, ◌==◌, if◌then◌else◌,
}

abbrev pub nonce_size : ℕ
nonce_size = 12

abbrev pub overhead : ℕ
overhead = 16

-- aead.Seal(nil, nonce, text, nil) and aead.Open(nil, nonce, sealed, nil)
pub record Aead : Type 0 where
  pub seal : Bytes → Bytes → Bytes
  pub unseal : Bytes → Bytes → Option Bytes

pub record AeadLaws (a : Aead) : Type 0 where
  pub length-seal : (nonce text : Bytes) → length (a.seal nonce text) ≡ length text + overhead
  pub unseal-seal : (nonce text : Bytes) → a.unseal nonce (a.seal nonce text) ≡ some text

-- `enabled == false` leaves `aead` nil, so the two fields are one.
pub data Engine : Type 0 where
  disabled : Engine
  active : Aead → Bytes → Engine

-- The key lengths that NewEngine takes; `construct` is chacha20poly1305.New.
unfoldable pub new_engine : (Bytes → Option Aead) → (Bytes → Bytes) → Bytes → Option Engine
new_engine construct fingerprint key =
    if length key == 0
    then some disabled
    else if length key == 32
    then elim (construct key) [ none ↦ none | some a ↦ some (active a (fingerprint key)) ]
    else none

unfoldable pub enabled : Engine → Bool
enabled disabled = false
enabled (active a fp) = true

-- EncryptInPlace; `none` is an error
unfoldable pub encrypt_in_place : Engine → Option Bytes → Bytes → Option Bytes
encrypt_in_place disabled entropy plaintext = some plaintext
encrypt_in_place (active a fp) none plaintext = none
encrypt_in_place (active a fp) (some nonce) plaintext = some (nonce ++ a.seal nonce plaintext)

-- DecryptInPlace, and DecryptInPlaceWithDst up to where the result is written
unfoldable pub decrypt_in_place : Engine → Bytes → Option Bytes
decrypt_in_place disabled ciphertext = some ciphertext
decrypt_in_place (active a fp) ciphertext =
    if ltb (length ciphertext) (nonce_size + overhead)
    then none
    else a.unseal (take nonce_size ciphertext) (drop nonce_size ciphertext)

-- SealWithCounter
unfoldable pub seal_with_counter : Engine → Bytes → Bytes → Option Bytes
seal_with_counter disabled nonce plaintext = some plaintext
seal_with_counter (active a fp) nonce plaintext =
    if length nonce == nonce_size then some (a.seal nonce plaintext) else none

-- OpenWithCounter
unfoldable pub open_with_counter : Engine → Bytes → Bytes → Option Bytes
open_with_counter disabled nonce ciphertext = some ciphertext
open_with_counter (active a fp) nonce ciphertext =
    if length nonce == nonce_size
    then (if ltb (length ciphertext) overhead then none else a.unseal nonce ciphertext)
    else none

-- What the laws of the primitive say of an engine, and that the nonce has its length.
abbrev pub Lawful : Engine → Type 0
Lawful disabled = Unit
Lawful (active a fp) = AeadLaws a

abbrev pub IsNonce : Option Bytes → Type 0
IsNonce none = Unit
IsNonce (some nonce) = length nonce ≡ nonce_size

unseal_packet :
    (a : Aead) (laws : AeadLaws a) (fp nonce text : Bytes)
    → length nonce ≡ nonce_size
    → decrypt_in_place (active a fp) (nonce ++ a.seal nonce text) ≡ some text
unfolding decrypt_in_place
unseal_packet a laws fp nonce text h =
    let t : take nonce_size (nonce ++ a.seal nonce text) ≡ nonce =
      ap (λ n. take n (nonce ++ a.seal nonce text)) (sym h)
      ∙ take-append nonce (a.seal nonce text) in
    let d : drop nonce_size (nonce ++ a.seal nonce text) ≡ a.seal nonce text =
      ap (λ n. drop n (nonce ++ a.seal nonce text)) (sym h)
      ∙ drop-append nonce (a.seal nonce text) in
    ground (
      arith,
      t,
      d,
      length-append {0} nonce (a.seal nonce text),
      laws.length-seal nonce text,
      laws.unseal-seal nonce text,
    )

-- With a primitive that keeps its laws and a nonce of twelve bytes, what an engine encrypted, it
-- decrypts.
pub decrypt-encrypt :
    (c : Engine) (entropy : Option Bytes) (plaintext : Bytes) {packet : Bytes}
    → Lawful c
    → IsNonce entropy
    → encrypt_in_place c entropy plaintext ≡ some packet
    → decrypt_in_place c packet ≡ some plaintext
unfolding encrypt_in_place
decrypt-encrypt disabled entropy plaintext laws h e = unfold decrypt_in_place in ground arith
decrypt-encrypt (active a fp) none plaintext laws h e = cc
decrypt-encrypt (active a fp) (some nonce) plaintext laws h e =
    ground (arith, unseal_packet a laws fp nonce plaintext h)

-- With a primitive that keeps its laws and a nonce of twelve bytes, an encrypted value has the length
-- that the storage engine reserves: 28 bytes more than the text, or the text's on a disabled engine.
pub length-encrypt :
    (c : Engine) (entropy : Option Bytes) (plaintext : Bytes) {packet : Bytes}
    → Lawful c
    → IsNonce entropy
    → encrypt_in_place c entropy plaintext ≡ some packet
    → length packet
      ≡ (if enabled c then nonce_size + length plaintext + overhead else length plaintext)
unfolding encrypt_in_place enabled
length-encrypt disabled entropy plaintext laws h e = ground arith
length-encrypt (active a fp) none plaintext laws h e = cc
length-encrypt (active a fp) (some nonce) plaintext laws h e =
    ground
      (arith, length-append {0} nonce (a.seal nonce plaintext), laws.length-seal nonce plaintext)
