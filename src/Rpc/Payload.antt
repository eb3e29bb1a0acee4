-- ===== src/Rpc/Payload.antt =====
-- `RPCPayload_t` of include/hicr/frontends/RPCEngine/RPCEngine.hpp as the sixteen bytes of a token:
-- its two words of 64 bits, the lowest byte first.
use native.Mathlib.Nat.{pow-suc}
use hi_cr.Prelude.{
  ℕ, zero, suc, ◌+◌, ◌*◌, ◌/◌, ◌%◌, ◌^◌, ◌≡◌, ◌<◌, List, [], ◌∷◌, ◌++◌, refl, arith, drop,
}
use hi_cr.Memory.{Slot, read}

pub record RpcPayload : Type 0 where
  pub index : ℕ
  pub argument : ℕ

-- The `n` lowest bytes of a word, and the word of bytes.
abbrev pub word_bytes : ℕ → ℕ → List ℕ
word_bytes zero v = []
word_bytes (suc n) v = v % 256 ∷ word_bytes n (v / 256)

abbrev pub bytes_word : List ℕ → ℕ
bytes_word [] = 0
bytes_word (b ∷ l) = b + 256 * bytes_word l

abbrev pub first : ℕ → List ℕ → List ℕ
first zero l = []
first (suc n) [] = []
first (suc n) (b ∷ l) = b ∷ first n l

abbrev nth : List ℕ → ℕ → ℕ
nth [] i = 0
nth (b ∷ l) zero = b
nth (b ∷ l) (suc i) = nth l i

abbrev pub encode : RpcPayload → List ℕ
encode p = word_bytes 8 p.index ++ word_bytes 8 p.argument

abbrev pub decode : List ℕ → RpcPayload
decode l = record { index = bytes_word (first 8 l); argument = bytes_word (drop 8 l) }

-- The slot that is registered for a payload on the stack of `requestRPC`.
abbrev pub payload_slot : RpcPayload → Slot
payload_slot p = record { size = 16; byte = nth (encode p); messages_recv = 0; messages_sent = 0 }

pub read-payload_slot : (p : RpcPayload) → read (payload_slot p).byte 0 16 ≡ encode p
unfolding read
read-payload_slot p = refl

pub word_lem : (n v : ℕ) → v < 256 ^ n → bytes_word (word_bytes n v) ≡ v
word_lem zero v h = omega arith
word_lem (suc n) v h =
    let low : v / 256 < 256 ^ n = omega (arith, pow-suc 256 n) in
    omega (arith, word_lem n (v / 256) low)

pub decode-encode :
    (p : RpcPayload) → p.index < 2 ^ 64 → p.argument < 2 ^ 64 → decode (encode p) ≡ p
decode-encode p h h' =
    λ i. record { index = word_lem 8 p.index h i; argument = word_lem 8 p.argument h' i }
