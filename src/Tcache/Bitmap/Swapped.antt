-- ===== src/Tcache/Bitmap/Swapped.antt =====
-- Bits that change places, by tables over all bytes.
use pg_strom.Prelude.{
  ℕ, zero, suc, ◌/◌, ◌%◌, ◌≡◌, ◌<◌, Bool, true, false, ◌&&◌, ◌==◌, ltb, if◌then◌else◌, refl, arith,
  inl, inr, ◌∙◌, ap, Bool-cases, and-left, and-right, not, ltb→lt, ==_iff,
}
use pg_strom.Tcache.Bitmap.{bit_of_byte, bit_of, put_in_byte, put_bit, bitswap}

-- The test holds of every number below the bound.
holds_below : ℕ → (ℕ → Bool) → Bool
holds_below zero test = true
holds_below (suc bound) test = holds_below bound test && test bound

holds_below-at :
    (bound : ℕ) (test : ℕ → Bool) (k : ℕ)
    → k < bound
    → holds_below bound test ≡ true
    → test k ≡ true
unfolding holds_below
holds_below-at zero test k less every = absurd (omega arith)
holds_below-at (suc bound) test k less every =
    ground (arith, λ (before : k < bound). holds_below-at bound test k before)

abbrev same_bool : Bool → Bool → Bool
same_bool true b = b
same_bool false b = not b

same_bool-path : (a b : Bool) → same_bool a b ≡ true → a ≡ b
same_bool-path true true h = refl
same_bool-path true false h = absurd (cc)
same_bool-path false true h = absurd (cc)
same_bool-path false false h = refl

-- A byte stays a byte, and its bit `l` is the one that was put at `k`, or the old one.
abbrev is_put : Bool → ℕ → ℕ → ℕ → Bool
is_put bit byte k l =
    ltb (put_in_byte bit byte k) 256
    && same_bool (bit_of_byte (put_in_byte bit byte k) l)
        (if l == k then bit else bit_of_byte byte l)

abbrev put_table : Bool → Bool
put_table bit =
    holds_below 256 (λ byte. holds_below 8 (λ k. holds_below 8 (λ l. is_put bit byte k l)))

put_table-true : (bit : Bool) → put_table bit ≡ true
unfolding holds_below
put_table-true true = refl
put_table-true false = refl

is_put-true : (bit : Bool) (byte k l : ℕ) → byte < 256 → k < 8 → l < 8 → is_put bit byte k l ≡ true
is_put-true bit byte k l small at_k at_l = holds_below-at 8 (is_put bit byte k) l at_l (
    holds_below-at 8 (λ k. holds_below 8 (is_put bit byte k)) k at_k
      (holds_below-at 256 (λ byte. holds_below 8 (λ k. holds_below 8 (is_put bit byte k))) byte
        small (put_table-true bit)))

module _ (bit : Bool) (byte k l : ℕ) (small : byte < 256) (at_k : k < 8) (at_l : l < 8) where
  put_in_byte_small : put_in_byte bit byte k < 256
  put_in_byte_small =
      ltb→lt _ 256
        (and-left (ltb (put_in_byte bit byte k) 256) _ (is_put-true bit byte k l small at_k at_l))

  bit_of_byte-put_in_byte :
      bit_of_byte (put_in_byte bit byte k) l ≡ (if l == k then bit else bit_of_byte byte l)
  bit_of_byte-put_in_byte =
      same_bool-path _ _
        (and-right (ltb (put_in_byte bit byte k) 256) _ (is_put-true bit byte k l small at_k at_l))

abbrev pub AreBytes : (ℕ → ℕ) → Type 0
AreBytes bitmap = (i : ℕ) → bitmap i < 256

put_bit-AreBytes :
    (bit : Bool) (bitmap : ℕ → ℕ) (x : ℕ) → AreBytes bitmap → AreBytes (put_bit bit bitmap x)
put_bit-AreBytes bit bitmap x bytes i = elim (Bool-cases (i == (x / 8))) [
  | inl t ↦
      rw t (
        put_in_byte_small bit (bitmap (x / 8)) (x % 8) 0 (bytes (x / 8)) (omega arith)
          (omega arith))
  | inr f ↦ rw f (bytes i)
]

bit_of-put_bit :
    (bit : Bool) (bitmap : ℕ → ℕ) (x j : ℕ)
    → AreBytes bitmap
    → bit_of (put_bit bit bitmap x) j ≡ (if j == x then bit else bit_of bitmap j)
bit_of-put_bit bit bitmap x j bytes = elim (Bool-cases ((j / 8) == (x / 8))) [
  | inl t ↦
      let byte : j / 8 ≡ x / 8 = (==_iff (j / 8) (x / 8)).0 t in
      let same : ((j % 8) == (x % 8)) ≡ (j == x) = ground (arith, byte) in
      rw (t, byte, ← same)
        (bit_of_byte-put_in_byte bit (bitmap (x / 8)) (x % 8) (j % 8) (bytes (x / 8)) (omega arith)
          (omega arith))
  | inr f ↦ let other : (j == x) ≡ false = ground arith in rw (f, other) refl
]

exchanged :
    (f : ℕ → Bool) (x y j : ℕ)
    → (if j == y then f x else if j == x then f y else f j)
      ≡ f (if j == x then y else if j == y then x else j)
exchanged f x y j = elim (Bool-cases (j == x)) [
  | inl at_x ↦ elim (Bool-cases (j == y)) [
    | inl at_y ↦ let same : x ≡ y = ground arith in rw (at_x, at_y) (ap f same)
    | inr not_y ↦ rw (at_x, not_y) refl
  ]
  | inr not_x ↦ elim (Bool-cases (j == y)) [
    | inl at_y ↦ rw (not_x, at_y) refl
    | inr not_y ↦ rw (not_x, not_y) refl
  ]
]

-- In a bitmap of bytes, bitswap puts at each of the two places the bit that was at the other one, also
-- where both places are in one byte or are the same, changes no other bit, and leaves bytes.
pub bitswap-bit_of :
    (bitmap : ℕ → ℕ) (x y : ℕ)
    → AreBytes bitmap
    → ((j : ℕ)
        → bit_of (bitswap bitmap x y) j
          ≡ bit_of bitmap (if j == x then y else if j == y then x else j))
      × AreBytes (bitswap bitmap x y)
unfolding bitswap
bitswap-bit_of bitmap x y bytes =
    let first = put_bit-AreBytes (bit_of bitmap y) bitmap x bytes in
    (
      λ j.
          bit_of-put_bit (bit_of bitmap x) (put_bit (bit_of bitmap y) bitmap x) y j first
          ∙ ap (λ b. if j == y then bit_of bitmap x else b)
              (bit_of-put_bit (bit_of bitmap y) bitmap x j bytes)
          ∙ exchanged (bit_of bitmap) x y j,
      put_bit-AreBytes (bit_of bitmap x) (put_bit (bit_of bitmap y) bitmap x) y first,
    )
