-- ===== src/Datastore/Params.antt =====
-- Constants are read back from the parameter buffer.
use pg_strom.Prelude.{
  ℕ, zero, suc, ◌+◌, ◌-◌, ◌%◌, ◌^◌, ◌<◌, ◌≤◌, ◌≡◌, refl, Bool, true, false, ◌==◌, if◌then◌else◌,
  leb, ltb, lt→ltb, ◌||◌, update, Option, none, some, List, [], ◌∷◌, length, get_elem?, arith, ap,
  sym, ◌∙◌, subst,
}
use pg_strom.Prelude.Run.{Returns}
use pg_strom.Datastore.{
  ParamNode, const_node, Parambuf, stromalign, byte_at, put_bytes, set_poffset, pad, append_bytes,
  align_next, append_param, append_params, start_parambuf, create_kern_parambuf,
}

-- A Const: null or not, and the bytes of its value.
abbrev pub consts : List (Bool × List ℕ) → List ParamNode
consts [] = []
consts ((isnull, bytes) ∷ l) = const_node isnull bytes ∷ consts l

-- The state after a round for a Const.
abbrev pub const_round : Bool → List ℕ → Parambuf → Parambuf
const_round isnull bytes s =
    if isnull then pad (set_poffset 0 s) else pad (put_bytes bytes (set_poffset (s.len % 2 ^ 32) s))

abbrev pub const_rounds : List (Bool × List ℕ) → Parambuf → Parambuf
const_rounds [] s = s
const_rounds ((isnull, bytes) ∷ l) s = const_rounds l (const_round isnull bytes s)

-- What later rounds leave: the bytes so far and the offsets so far.
abbrev Keeps : Parambuf → Parambuf → Type 0
Keeps s r =
    (s.len ≤ r.len)
    × ((k : ℕ) → k < s.len → r.data_at k ≡ s.data_at k)
    × ((j : ℕ) → j < s.index → r.poffset j ≡ s.poffset j)
    × (stromalign s.len ≡ s.len → stromalign r.len ≡ r.len)

const_round-Keeps :
    (isnull : Bool) (bytes : List ℕ) (s : Parambuf) → Keeps s (const_round isnull bytes s)
const_round-Keeps true bytes s = (ground arith, λ k h. refl, λ j h. other j h, λ e. ground arith)
  where
    other : (j : ℕ) → j < s.index → update s.poffset s.index 0 j ≡ s.poffset j
    other j h = let e : (j == s.index) ≡ false = ground arith in rw e refl
const_round-Keeps false bytes s =
    (ground arith, λ k h. before k h, λ j h. other j h, λ e. ground arith)
  where
    before :
        (k : ℕ)
        → k < s.len
        → (if leb s.len k then byte_at bytes (k - s.len) (s.data_at k) else s.data_at k)
          ≡ s.data_at k
    before k h = let e : leb s.len k ≡ false = ground arith in rw e refl

    other : (j : ℕ) → j < s.index → update s.poffset s.index (s.len % 2 ^ 32) j ≡ s.poffset j
    other j h = let e : (j == s.index) ≡ false = ground arith in rw e refl

Keeps-trans : (s r t : Parambuf) → s.index ≤ r.index → Keeps s r → Keeps r t → Keeps s t
Keeps-trans s r t le (a, b, c, d) (a', b', c', d') = (
  omega arith,
  λ k h. b' k (omega arith) ∙ b k h,
  λ j h. c' j (omega arith) ∙ c j h,
  λ e. d' (d e),
)

const_round-index :
    (isnull : Bool) (bytes : List ℕ) (s : Parambuf)
    → (const_round isnull bytes s).index ≡ suc s.index
const_round-index true bytes s = refl
const_round-index false bytes s = refl

const_rounds-Keeps : (l : List (Bool × List ℕ)) (s : Parambuf) → Keeps s (const_rounds l s)
const_rounds-Keeps [] s = (omega arith, λ k h. refl, λ j h. refl, λ e. e)
const_rounds-Keeps ((isnull, bytes) ∷ l) s =
    let r = const_round isnull bytes s in
    Keeps-trans s r (const_rounds l r) (omega (arith, const_round-index isnull bytes s))
      (const_round-Keeps isnull bytes s) (const_rounds-Keeps l r)

align_next-pad :
    (limit : ℕ) (s : Parambuf) → (pad s).len < limit → align_next limit s ≡ some (pad s)
unfolding align_next
align_next-pad limit s small =
    let fits : ltb (stromalign s.len) limit ≡ true = lt→ltb (stromalign s.len) limit small in
    rw (fits, or_true (stromalign s.len == s.len)) refl
  where
    or_true : (b : Bool) → (b || true) ≡ true
    or_true true = refl
    or_true false = refl

append_param-const :
    (limit : ℕ) (isnull : Bool) (bytes : List ℕ) (s : Parambuf)
    → (const_round isnull bytes s).len < limit
    → append_param limit (const_node isnull bytes) s ≡ some (const_round isnull bytes s)
unfolding append_param append_bytes
append_param-const limit true bytes s small = align_next-pad limit (set_poffset 0 s) small
append_param-const limit false bytes s small =
    let fits : ltb (s.len + length bytes) limit ≡ true = ground arith in
    rw fits (align_next-pad limit (put_bytes bytes (set_poffset (s.len % 2 ^ 32) s)) small)

append_params-consts :
    (limit : ℕ) (l : List (Bool × List ℕ)) (s : Parambuf)
    → (const_rounds l s).len < limit
    → append_params limit (consts l) s ≡ some (const_rounds l s)
unfolding append_params
append_params-consts limit [] s small = refl
append_params-consts limit ((isnull, bytes) ∷ l) s small =
    let r = const_round isnull bytes s in
    rw
      (
        append_params,
        append_param-const limit isnull bytes s (omega (arith, (const_rounds-Keeps l r).0)),
      )
      (append_params-consts limit l r small)

-- What a reader finds of a Const at its number: no offset if it is null, and otherwise the place of
-- its bytes, within the buffer and aligned.
abbrev pub Reads : Parambuf → ℕ → Bool × List ℕ → Type 0
Reads r i (isnull, bytes) =
    if isnull
    then r.poffset i ≡ 0
    else ((0 < r.poffset i)
        × (r.poffset i + length bytes ≤ r.len)
        × (stromalign (r.poffset i) ≡ r.poffset i)
        × ((k : ℕ) → k < length bytes → get_elem? bytes k ≡ some (r.data_at (r.poffset i + k))))

get_elem-byte_at :
    (bytes : List ℕ) (k old : ℕ) → k < length bytes → get_elem? bytes k ≡ some (byte_at bytes k old)
get_elem-byte_at [] k old h = absurd (omega arith)
get_elem-byte_at (b ∷ bytes) zero old h = refl
get_elem-byte_at (b ∷ bytes) (suc k) old h =
    let back : suc k - 1 ≡ k = omega arith in
    let later : (suc k == 0) ≡ false = ground arith in
    rw (later, back) (get_elem-byte_at bytes k old (omega arith))

-- The bytes of a round, after all later ones.
const_round-Reads :
    (isnull : Bool) (bytes : List ℕ) (s r : Parambuf)
    → 0 < s.len
    → s.len < 2 ^ 32
    → stromalign s.len ≡ s.len
    → Keeps (const_round isnull bytes s) r
    → Reads r s.index (isnull, bytes)
const_round-Reads true bytes s r filled small aligned (a, b, c, d) =
    let here : (s.index == s.index) ≡ true = ground arith in c s.index (omega arith) ∙ rw here refl
const_round-Reads false bytes s r filled small aligned (a, b, c, d) =
    let here : (s.index == s.index) ≡ true = ground arith in
    let wrap : s.len % 2 ^ 32 ≡ s.len = ground arith in
    let at : r.poffset s.index ≡ s.len = c s.index (omega arith) ∙ rw (here, wrap) refl in
    rw at (
      filled,
      ground arith,
      aligned,
      λ k h. get_elem-byte_at bytes k (s.data_at (s.len + k)) h ∙ ap some (stored k h),
    )
  where
    stored :
        (k : ℕ) → k < length bytes → byte_at bytes k (s.data_at (s.len + k)) ≡ r.data_at (s.len + k)
    stored k h =
        let inside : leb s.len (s.len + k) ≡ true = ground arith in
        let back : s.len + k - s.len ≡ k = omega arith in
        sym (b (s.len + k) (ground arith) ∙ rw (inside, back) refl)

const_rounds-Reads :
    (l : List (Bool × List ℕ)) (s : Parambuf) (i : ℕ) (c : Bool × List ℕ)
    → 0 < s.len
    → stromalign s.len ≡ s.len
    → (const_rounds l s).len < 2 ^ 32
    → get_elem? l i ≡ some c
    → Reads (const_rounds l s) (s.index + i) c
const_rounds-Reads [] s i c filled aligned small e = cc
const_rounds-Reads ((isnull, bytes) ∷ l) s zero c filled aligned small e =
    let first : (isnull, bytes) ≡ c =
      ap (λ (o : Option (Bool × List ℕ)). elim o [ some x ↦ x | none ↦ (isnull, bytes) ]) e in
    let at_end : s.index ≡ s.index + 0 = omega arith in
    let r = const_round isnull bytes s in
    let longer = (const_round-Keeps isnull bytes s).0 in
    let kept = const_rounds-Keeps l r in
    subst (λ d. Reads (const_rounds l r) (s.index + 0) d) first
      (subst (λ j. Reads (const_rounds l r) j (isnull, bytes)) at_end
        (const_round-Reads isnull bytes s (const_rounds l r) filled
          (omega (arith, longer, kept.0, small)) aligned kept))
const_rounds-Reads ((isnull, bytes) ∷ l) s (suc i) c filled aligned small e =
    let r = const_round isnull bytes s in
    let (longer, same, offsets, still) = const_round-Keeps isnull bytes s in
    let next : suc s.index + i ≡ s.index + suc i = omega arith in
    subst (λ j. Reads (const_rounds l r) j c)
      (ap (λ j. j + i) (const_round-index isnull bytes s) ∙ next)
      (const_rounds-Reads l r i c (omega arith) (still aligned) small e)

-- A buffer that was made, with its length and number of parameters, in which all constants are found.
abbrev pub Created : List (Bool × List ℕ) → Option (Parambuf × ℕ × ℕ) → Type 0
Created l o =
    (r : Parambuf) × (o ≡ some (r, r.len, length (consts l)))
    × (stromalign r.len ≡ r.len)
    × ((i : ℕ) (c : Bool × List ℕ) → get_elem? l i ≡ some c → Reads r i c)

-- A buffer that is made of constants alone, and whose length stays below the limit of a StringInfo,
-- which is below 2 ^ 32, is made without an error
-- and without a failed assertion: its length is aligned, its number of parameters is that of the
-- constants, and every constant is found at its number, NULL as no offset and any other at an
-- aligned place within the buffer, with all of its bytes.
pub create_kern_parambuf-Reads :
    (limit : ℕ) (l : List (Bool × List ℕ)) (fresh : Parambuf)
    → limit < 2 ^ 32
    → (const_rounds l (start_parambuf (length (consts l)) fresh)).len < limit
    → Returns (Created l) (create_kern_parambuf limit (consts l) fresh)
unfolding create_kern_parambuf
create_kern_parambuf-Reads limit l fresh bounded small =
    let start = start_parambuf (length (consts l)) fresh in
    let r = const_rounds l start in
    let aligned : stromalign start.len ≡ start.len = ground arith in
    let filled : 0 < start.len = ground arith in
    let (longer, same, offsets, kept) = const_rounds-Keeps l start in
    let still = kept aligned in
    let passes : (stromalign r.len == r.len) ≡ true = ground (arith, still) in
    let fits : ltb start.len limit ≡ true = lt→ltb start.len limit (omega (arith, longer)) in
    let below : r.len < 2 ^ 32 = omega arith in
    rw (fits, append_params-consts limit l start small, passes)
      (
        r,
        refl,
        still,
        λ i c e.
            let at_i : 0 + i ≡ i = omega arith in
            subst (λ j. Reads r j c) at_i (const_rounds-Reads l start i c filled aligned below e),
      )
