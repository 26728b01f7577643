-- ===== src/Tests/Bitmaps.antt =====
-- Bits of a null map that change places.
use pg_strom.Prelude.{ℕ, ◌≡◌, refl, ◌==◌, if◌then◌else◌, arith}
use pg_strom.Tcache.Bitmap.{bit_of, bitswap}
use pg_strom.Tcache.Bitmap.Swapped.{AreBytes, bitswap-bit_of}

-- The bits at 0, 2 and 9.
abbrev nulls : ℕ → ℕ
nulls i = if i == 0 then 5 else if i == 1 then 2 else 0

nulls-AreBytes : AreBytes nulls
nulls-AreBytes i = ground arith

in_two_bytes : (bitswap nulls 2 8 0 ≡ 1) × (bitswap nulls 2 8 1 ≡ 3)
unfolding bitswap
in_two_bytes = (refl, refl)

in_one_byte : bitswap nulls 2 1 0 ≡ 3
unfolding bitswap
in_one_byte = refl

bitswap-bit_of_example :
    ((j : ℕ)
      → bit_of (bitswap nulls 2 9) j ≡ bit_of nulls (if j == 2 then 9 else if j == 9 then 2 else j))
    × AreBytes (bitswap nulls 2 9)
bitswap-bit_of_example = bitswap-bit_of nulls 2 9 nulls-AreBytes
