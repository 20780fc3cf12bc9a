-- ===== src/Base/Word.antt =====
-- Unsigned words in little-endian bytes, as the program reads and writes them through pointers.
use native.Mathlib.Nat.{pow-suc}
use dipp.Base.{
  ℕ, zero, suc, ◌+◌, ◌*◌, ◌/◌, ◌%◌, ◌^◌, ◌<◌, ◌≡◌, refl, ap, List, [], ◌∷◌, ◌++◌, Option, none,
  some, arith, length, take, drop, drop-append, take-append, ◌==◌, if◌then◌else◌,
}

-- The value of bytes, the lowest first.
abbrev pub le_value : List ℕ → ℕ
le_value [] = 0
le_value (b ∷ bs) = b + 256 * le_value bs

-- The lowest `k` bytes of a number.
abbrev pub le_bytes : ℕ → ℕ → List ℕ
le_bytes zero n = []
le_bytes (suc k) n = n % 256 ∷ le_bytes k (n / 256)

pub length-le_bytes : (k n : ℕ) → length (le_bytes k n) ≡ k
length-le_bytes zero n = refl
length-le_bytes (suc k) n = ap suc (length-le_bytes k (n / 256))

pub le_value-le_bytes : (k n : ℕ) → n < 256 ^ k → le_value (le_bytes k n) ≡ n
le_value-le_bytes zero n h = omega arith
le_value-le_bytes (suc k) n h =
    omega (arith, le_value-le_bytes k (n / 256) (omega (arith, pow-suc 256 k)))

-- `n` bytes at an address of a memory; `none` is a read past its end.
unfoldable pub read_bytes : List ℕ → ℕ → ℕ → Option (List ℕ)
read_bytes memory offset n =
    let bytes = take n (drop offset memory) in if length bytes == n then some bytes else none

-- `*(uint32_t *)(memory + offset)` on a little-endian machine.
unfoldable pub read_u32 : List ℕ → ℕ → Option ℕ
unfolding read_bytes
read_u32 memory offset = elim (read_bytes memory offset 4) [
  | none ↦ none
  | some bytes ↦ some (le_value bytes)
]

-- A block that stands in the middle of a memory is read back.
pub read_bytes-append :
    (before block after : List ℕ)
    → read_bytes (before ++ (block ++ after)) (length before) (length block) ≡ some block
unfolding read_bytes
read_bytes-append before block after =
    rw (drop-append before (block ++ after), take-append block after) (ground arith)

pub read_u32-append :
    (before after : List ℕ) (n : ℕ)
    → n < 2 ^ 32
    → read_u32 (before ++ (le_bytes 4 n ++ after)) (length before) ≡ some n
unfolding read_u32
read_u32-append before after n h =
    ground (arith, read_bytes-append before (le_bytes 4 n) after, le_value-le_bytes 4 n)

-- The same, at an offset and a size that are only equal to the block's.
pub read_bytes_at :
    (memory before block after : List ℕ) (offset n : ℕ)
    → memory ≡ before ++ (block ++ after)
    → offset ≡ length before
    → n ≡ length block
    → read_bytes memory offset n ≡ some block
read_bytes_at memory before block after offset n e o k =
    rw (e, o, k) (read_bytes-append before block after)

pub read_u32_at :
    (memory before after : List ℕ) (offset n : ℕ)
    → memory ≡ before ++ (le_bytes 4 n ++ after)
    → offset ≡ length before
    → n < 2 ^ 32
    → read_u32 memory offset ≡ some n
read_u32_at memory before after offset n e o h = rw (e, o) (read_u32-append before after n h)
