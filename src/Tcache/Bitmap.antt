-- ===== src/Tcache/Bitmap.antt =====
-- `bitswap`: two bits of a null map change places. A bitmap is a function from indices to bytes.
pub mod Swapped
use pg_strom.Prelude.{ℕ, ◌-◌, ◌/◌, ◌%◌, ◌^◌, Bool, true, false, not, ◌==◌, update}
use Prim.Native.Nat.{bit_and, bit_or}

-- `(bitmap[x / BITS_PER_BYTE] & (1 << (x % BITS_PER_BYTE))) != 0`, of one byte and of a bitmap.
abbrev pub bit_of_byte : ℕ → ℕ → Bool
bit_of_byte byte k = not (bit_and byte (2 ^ k) == 0)

abbrev pub bit_of : (ℕ → ℕ) → ℕ → Bool
bit_of bitmap x = bit_of_byte (bitmap (x / 8)) (x % 8)

-- `|= 1 << k` and `&= ~(1 << k)` on a byte.
abbrev pub put_in_byte : Bool → ℕ → ℕ → ℕ
put_in_byte true byte k = bit_or byte (2 ^ k)
put_in_byte false byte k = bit_and byte (255 - 2 ^ k)

abbrev pub put_bit : Bool → (ℕ → ℕ) → ℕ → ℕ → ℕ
put_bit bit bitmap x = update bitmap (x / 8) (put_in_byte bit (bitmap (x / 8)) (x % 8))

unfoldable pub bitswap : (ℕ → ℕ) → ℕ → ℕ → ℕ → ℕ
bitswap bitmap x y =
    let temp = bit_of bitmap x in put_bit temp (put_bit (bit_of bitmap y) bitmap x) y
