-- ===== src/Runtime/Bytes.antt =====
-- Big-endian words, digests in hexadecimal, and collisions.
use nexus_go_ccnf_ref.Base.{
  ℕ, ◌-◌, ◌/◌, ◌%◌, ◌^◌, ◌<◌, ◌≡◌, ◌≢◌, Text, text_eq, text_eq_iff, ℤ, pos, negsuc, [], ◌∷◌, ◌++◌,
  Option, none, some, if◌then◌else◌, ◌==◌, length, arith, ◌⊎◌, inl, inr, Bool-cases,
}
use nexus_go_ccnf_ref.Value.Platform.{Platform}
use nexus_go_ccnf_ref.Ccnf.Numerals.{hex_decode, hex_encode, AreBytes, hex_decode-hex_encode}

-- `binary.BigEndian.PutUint64`
unfoldable pub put_uint64 : ℕ → Text
put_uint64 n =
    (n / 2 ^ 56 % 256)
    ∷ (n / 2 ^ 48 % 256)
    ∷ (n / 2 ^ 40 % 256)
    ∷ (n / 2 ^ 32 % 256)
    ∷ (n / 2 ^ 24 % 256)
    ∷ (n / 2 ^ 16 % 256)
    ∷ (n / 2 ^ 8 % 256)
    ∷ (n % 256)
    ∷ []

-- `uint64(n)`
unfoldable pub to_uint64 : ℤ → ℕ
to_uint64 (pos n) = n % 2 ^ 64
to_uint64 (negsuc n) = 2 ^ 64 - 1 - n % 2 ^ 64

pub put_uint64_injective :
    (n m : ℕ) (s t : Text)
    → n < 2 ^ 64
    → m < 2 ^ 64
    → put_uint64 n ++ s ≡ put_uint64 m ++ t
    → (n ≡ m) × (s ≡ t)
unfolding put_uint64
put_uint64_injective n m s t hn hm e = ground arith

unfoldable pub checked : Option Text → Option Text
checked none = none
checked (some raw) = if length raw == 32 then some raw else none

-- The decoding and the test that both callers of `hex.DecodeString` make; `none` is the panic.
unfoldable pub decode_digest : Text → Option Text
decode_digest s = checked (hex_decode s)

-- These two inputs differ and have one digest.
pub record Collision (p : Platform) (s t : Text) : Type 0 where
  pub differ : s ≢ t
  pub same : p.sum256 s ≡ p.sum256 t

-- What is documented of SHA-256: a digest is 32 bytes.
pub record IsSha256 (p : Platform) : Type 0 where
  pub bytes : (s : Text) → AreBytes (p.sum256 s)
  pub size : (s : Text) → length (p.sum256 s) ≡ 32

module _ (p : Platform) (sha : IsSha256 p) where
  -- A digest in hexadecimal is accepted.
  pub decode_digest-sum256 :
      (s : Text) → decode_digest (hex_encode (p.sum256 s)) ≡ some (p.sum256 s)
  unfolding decode_digest checked
  decode_digest-sum256 s = rw (hex_decode-hex_encode (p.sum256 s) (sha.bytes s), sha.size s)

  -- Two texts with one digest in hexadecimal are one, or the two are a collision.
  pub sum256_injective_or :
      (s t : Text) → hex_encode (p.sum256 s) ≡ hex_encode (p.sum256 t) → (s ≡ t) ⊎ Collision p s t
  sum256_injective_or s t e = elim (Bool-cases (text_eq s t)) [
    | inl same ↦ inl ((text_eq_iff s t).0 same)
    | inr differ ↦ inr (record {
      differ = λ h. cc ((text_eq_iff s t).1 h, differ);
      same = cc (
        hex_decode-hex_encode (p.sum256 s) (sha.bytes s),
        hex_decode-hex_encode (p.sum256 t) (sha.bytes t),
        e,
      );
    })
  ]
