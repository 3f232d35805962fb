-- ===== src/Vfs/Minix/Bytes.antt =====
-- Numbers of 16 and 32 bits as the bytes of a C object, in the machine's byte order: `big` is
-- whether the first byte is the highest.
use multikernel.Common.{
  ℕ, ◌+◌, ◌-◌, ◌*◌, ◌/◌, ◌%◌, ◌^◌, ◌<◌, ◌≡◌, Bool, true, false, ◌==◌, ltb, if◌then◌else◌, arith,
}
use multikernel.Vfs.Disk.{Data}

module _ (big : Bool) where
  -- The `uint16_t` at an offset
  abbrev pub half_at : Data → ℕ → ℕ
  half_at b x = if big then b x * 256 + b (x + 1) else b x + b (x + 1) * 256

  -- The `uint32_t` at an offset
  abbrev pub word_at : Data → ℕ → ℕ
  word_at b x =
      if big
      then half_at b x * 65536 + half_at b (x + 2)
      else half_at b x + half_at b (x + 2) * 65536

  -- Byte `k` of a `uint16_t`
  abbrev pub half_byte : ℕ → ℕ → ℕ
  half_byte v k =
      if k == 0
      then (if big then v / 256 % 256 else v % 256)
      else (if big then v % 256 else v / 256 % 256)

  -- Byte `k` of a `uint32_t`
  abbrev pub word_byte : ℕ → ℕ → ℕ
  word_byte v k =
      if ltb k 2
      then half_byte (if big then v / 65536 else v % 65536) k
      else half_byte (if big then v % 65536 else v / 65536) (k - 2)

  -- The object after a store of a `uint16_t` at an offset
  abbrev pub set_half : Data → ℕ → ℕ → Data
  set_half b x v k = if k == x then half_byte v 0 else if k == x + 1 then half_byte v 1 else b k

-- A number of 16 bits is read back from its bytes.
pub half-bytes :
    (big : Bool) (b : Data) (x v : ℕ)
    → v < 2 ^ 16
    → b x ≡ half_byte big v 0
    → b (x + 1) ≡ half_byte big v 1
    → half_at big b x ≡ v
half-bytes true b x v lt e0 e1 = rw (e0, e1) (omega arith)
half-bytes false b x v lt e0 e1 = rw (e0, e1) (omega arith)

-- A number of 32 bits is read back from its bytes.
pub word-bytes :
    (big : Bool) (b : Data) (x v : ℕ)
    → v < 2 ^ 32
    → b x ≡ word_byte big v 0
    → b (x + 1) ≡ word_byte big v 1
    → b (x + 2) ≡ word_byte big v 2
    → b (x + 2 + 1) ≡ word_byte big v 3
    → word_at big b x ≡ v
word-bytes big b x v lt e0 e1 e2 e3 =
    joined big (half-bytes big b x (if big then v / 65536 else v % 65536) (below big) e0 e1)
      (half-bytes big b (x + 2) (if big then v % 65536 else v / 65536) (below' big) e2 e3)
  where
    joined :
        (big : Bool)
        → half_at big b x ≡ (if big then v / 65536 else v % 65536)
        → half_at big b (x + 2) ≡ (if big then v % 65536 else v / 65536)
        → word_at big b x ≡ v
    joined true e e' = rw (e, e') (omega arith)
    joined false e e' = rw (e, e') (omega arith)

    below : (big : Bool) → (if big then v / 65536 else v % 65536) < 2 ^ 16
    below true = omega arith
    below false = omega arith

    below' : (big : Bool) → (if big then v % 65536 else v / 65536) < 2 ^ 16
    below' true = omega arith
    below' false = omega arith
