-- ===== src/Device/Group/Statement.antt =====
-- The reduction of `gpuscan_writeback_statement_error`.
use native.Mathlib.Numerals.{add-one}
use Prim.Native.Nat.add
use native.Mathlib.Nat.{add-zero, le_trans, mul-le-mul_right, mul-mod_left}
use pg_strom.Prelude.{
  ℕ, zero, suc, ◌+◌, ◌-◌, ◌*◌, ◌/◌, ◌%◌, ◌^◌, ◌≤◌, ◌<◌, ◌≡◌, refl, sym, ap, ◌∙◌, inl, inr, true,
  false, not, ◌&&◌, Option, none, some, arith, ◌==◌, ltb, lt→ltb, ltb→lt, if◌then◌else◌, Bool-cases,
  two_pow_suc, two_pow_pos,
}
use pg_strom.Prelude.Int.{ℤ, eq_int}
use pg_strom.Device.Error.{success, is_significant}
use pg_strom.Device.Group.{ResultBuf, statement_round, statement_rounds, writeback_statement_error}

-- The first significant code of the `m` threads from `a` on.
unfoldable pub first_from : (ℕ → ℤ) → ℕ → ℕ → Option ℤ
first_from f a zero = none
first_from f a (suc m) =
    let rest = first_from f (a + 1) m in if is_significant (f a) then some (f a) else rest

abbrev pub or_else : Option ℤ → ℤ → ℤ
or_else none d = d
or_else (some e) d = e

abbrev join : Option ℤ → Option ℤ → Option ℤ
join none o = o
join (some e) o = some e

first_from-add :
    (f : ℕ → ℤ) (m l a : ℕ)
    → first_from f a (m + l) ≡ join (first_from f a m) (first_from f (a + m) l)
unfolding first_from
first_from-add f zero l a = rw (add.zero l, add-zero a)
first_from-add f (suc m) l a =
    let shift : a + suc m ≡ a + 1 + m = omega arith in
    rw (add.suc m l, shift)
      (elim (Bool-cases (is_significant (f a))) [
        | inl e ↦ rw (e, first_from)
        | inr e ↦ rw (e, first_from) (first_from-add f m l (a + 1))
      ])

-- Beyond the work-group stands success.
abbrev padded : ℕ → (ℕ → ℤ) → ℕ → ℤ
padded n f k = if ltb k n then f k else success

first_from-padded : (n : ℕ) (f : ℕ → ℤ) (m a : ℕ) → n ≤ a → first_from (padded n f) a m ≡ none
unfolding first_from
first_from-padded n f zero a h = refl
first_from-padded n f (suc m) a h = ground (arith, first_from-padded n f m (a + 1) (omega arith))

-- After `i` rounds a thread at a multiple of 2 ^ i holds the first significant code of its 2 ^ i
-- threads, or its own.
abbrev Reduced : ℕ → (ℕ → ℤ) → ℕ → (ℕ → ℤ) → Type 0
Reduced n f i temp =
    (q : ℕ)
    → q * 2 ^ i < n
    → temp (q * 2 ^ i) ≡ or_else (first_from (padded n f) (q * 2 ^ i) (2 ^ i)) (f (q * 2 ^ i))

first_significant_some :
    (f : ℕ → ℤ) (m a : ℕ) (e : ℤ) → first_from f a m ≡ some e → is_significant e ≡ true
unfolding first_from
first_significant_some f zero a e h = absurd (cc)
first_significant_some f (suc m) a e h = ground (arith, first_significant_some f m (a + 1) e)

first_own : (f : ℕ → ℤ) (m a : ℕ) → 0 < m → first_from f a m ≡ none → is_significant (f a) ≡ false
unfolding first_from
first_own f zero a h e = absurd (omega arith)
first_own f (suc m) a h e = ground arith

-- Two threads become one.
abbrev merged : ℤ → ℤ → ℤ
merged a b = if not (is_significant a) && is_significant b then b else a

-- What a thread holds stands for the codes `o` of its block, with `d` its own.
record Stands (o : Option ℤ) (d : ℤ) : Type 0 where
  significant : (e : ℤ) → o ≡ some e → is_significant e ≡ true
  own : o ≡ none → is_significant d ≡ false

merged-or_else :
    (o o' : Option ℤ) (d d' : ℤ)
    → Stands o d
    → Stands o' d'
    → merged (or_else o d) (or_else o' d') ≡ or_else (join o o') d
merged-or_else none none d d' s s' = rw (s.own refl, s'.own refl)
merged-or_else none (some e) d d' s s' = rw (s.own refl, s'.significant e refl)
merged-or_else (some e) o' d d' s s' = rw (s.significant e refl)

first_from-Stands :
    (n : ℕ) (f : ℕ → ℤ) (m a : ℕ) → 0 < m → a < n → Stands (first_from (padded n f) a m) (f a)
first_from-Stands n f m a h lt = record {
  significant = first_significant_some (padded n f) m a;
  own = λ e.
      let inside : padded n f a ≡ f a = rw (lt→ltb a n lt) in
      rw (← inside) (first_own (padded n f) m a h e);
}

statement_round-Reduced :
    (n : ℕ) (f : ℕ → ℤ) (i : ℕ) (temp : ℕ → ℤ)
    → Reduced n f i temp
    → Reduced n f (suc i) (statement_round n i temp)
unfolding statement_round
statement_round-Reduced n f i temp h q lt =
    let p = two_pow_pos i in
    let e : q * 2 ^ suc i ≡ (q + q) * 2 ^ i =
      omega (arith, ap (λ (t : ℕ). q * t) (two_pow_suc i)) in
    let up : (q + q) * 2 ^ i + 2 ^ i ≡ (q + q + 1) * 2 ^ i = omega arith in
    let low : (q + q) * 2 ^ i < n = omega arith in
    let multiple : (q * 2 ^ suc i % 2 ^ suc i == 0) ≡ true = rw (mul-mod_left q (2 ^ suc i)) in
    let k : ℕ = (q + q) * 2 ^ i in
    let s = first_from-Stands n f (2 ^ i) ((q + q) * 2 ^ i) p low in
    rw
      (
        add-one i,
        multiple,
        e,
        two_pow_suc i,
        first_from-add (padded n f) (2 ^ i) (2 ^ i) ((q + q) * 2 ^ i),
        h (q + q) low,
        up,
      )
      (elim (Bool-cases (ltb ((q + q + 1) * 2 ^ i) n)) [
        | inl both ↦
            rw (both, h (q + q + 1) (ltb→lt _ _ both))
              (merged-or_else _ _ _ _ s
                (first_from-Stands n f (2 ^ i) ((q + q + 1) * 2 ^ i) p (ltb→lt _ _ both)))
        | inr one ↦
            rw (one, first_from-padded n f (2 ^ i) ((q + q + 1) * 2 ^ i) (ground arith))
              (merged-or_else _ none _ success s
                (record { significant = λ e. cc; own = λ e. refl }))
      ])

one_block : (s n i : ℕ) → s ≡ 0 → n ≤ (s + 1) * 2 ^ i → n ≤ 2 ^ i
one_block s n i z c = omega (arith, ap (λ (t : ℕ). (t + 1) * 2 ^ i) z)

half_blocks : (s p : ℕ) → (s + 1) * p ≤ (s / 2 + 1) * (p + p)
half_blocks s p =
    le_trans (mul-le-mul_right p (let t : s + 1 ≤ (s / 2 + 1) + (s / 2 + 1) = omega arith in t))
      (omega arith)

or_else_single : (g : ℕ → ℤ) (a : ℕ) → or_else (first_from g a 1) (g a) ≡ g a
unfolding first_from
or_else_single g a = elim (Bool-cases (is_significant (g a))) [
  | inl e ↦ rw (e, first_from)
  | inr e ↦ rw (e, first_from)
]

join-none : (o : Option ℤ) → join o none ≡ o
join-none none = refl
join-none (some e) = refl

Reduced-none : (n : ℕ) (f : ℕ → ℤ) → Reduced n f 0 f
Reduced-none n f q lt =
    let inside : padded n f (q * 2 ^ 0) ≡ f (q * 2 ^ 0) = rw (lt→ltb (q * 2 ^ 0) n lt) in
    sym (
      ap (or_else (first_from (padded n f) (q * 2 ^ 0) 1)) (sym inside)
      ∙ or_else_single (padded n f) (q * 2 ^ 0)
      ∙ inside)

Reduced-first :
    (n : ℕ) (f : ℕ → ℤ) (i : ℕ) (temp : ℕ → ℤ)
    → 0 < n
    → Reduced n f i temp
    → n ≤ 2 ^ i
    → temp 0 ≡ or_else (first_from (padded n f) 0 n) (f 0)
Reduced-first n f i temp some_thread h le =
    let zero_at : 0 * 2 ^ i ≡ 0 = omega arith in
    let whole : 2 ^ i ≡ n + (2 ^ i - n) = omega arith in
    let first : first_from (padded n f) 0 (2 ^ i) ≡ first_from (padded n f) 0 n =
      ap (first_from (padded n f) 0) whole
      ∙ first_from-add (padded n f) n (2 ^ i - n) 0
      ∙ ap (join (first_from (padded n f) 0 n))
          (first_from-padded n f (2 ^ i - n) (0 + n) (omega arith))
      ∙ join-none (first_from (padded n f) 0 n) in
    let at : temp 0 ≡ or_else (first_from (padded n f) 0 (2 ^ i)) (f 0) =
      rw zero_at at (h 0 (omega arith)) in
    at ∙ ap (λ o. or_else o (f 0)) first

-- The loop goes on until the block of the first thread holds all threads.
statement_rounds-first :
    (n : ℕ) (f : ℕ → ℤ) (fuel i s : ℕ) (temp : ℕ → ℤ)
    → 0 < n
    → Reduced n f i temp
    → s < 2 ^ fuel
    → n ≤ (s + 1) * 2 ^ i
    → statement_rounds fuel n i s temp 0 ≡ or_else (first_from (padded n f) 0 n) (f 0)
unfolding statement_rounds
statement_rounds-first n f zero i s temp some_thread h fuel cover =
    Reduced-first n f i temp some_thread h (one_block s n i (omega arith) cover)
statement_rounds-first n f (suc m) i s temp some_thread h fuel cover = elim (Bool-cases (s == 0)) [
  | inl stop ↦
      rw (stop, statement_rounds)
        (Reduced-first n f i temp some_thread h (one_block s n i (ground arith) cover))
  | inr more ↦
      rw (more, statement_rounds, add-one i)
        (statement_rounds-first n f m (suc i) (s / 2) (statement_round n i temp) some_thread
          (statement_round-Reduced n f i temp h) (omega (arith, two_pow_suc m))
          (le_trans cover (rw (two_pow_suc i) (half_blocks s (2 ^ i)))))
]

first_from-inside :
    (n : ℕ) (f : ℕ → ℤ) (m a : ℕ) → a + m ≤ n → first_from (padded n f) a m ≡ first_from f a m
unfolding first_from
first_from-inside n f zero a h = refl
first_from-inside n f (suc m) a h = ground (arith, first_from-inside n f m (a + 1) (omega arith))

-- The code of a work-group of `n` threads, 0 < n ≤ 2 ^ 32, is that of its first thread with a
-- significant one: it goes to the buffer if that holds none yet. Where no thread has one, and where
-- the buffer holds one, the buffer stays as it is.
pub writeback_statement_error-first :
    (n : ℕ) (f : ℕ → ℤ) (buf : ResultBuf)
    → 0 < n
    → n ≤ 2 ^ 32
    → writeback_statement_error n f buf ≡ elim (first_from f 0 n) [
      | none ↦ buf
      | some e ↦ if eq_int buf.errcode success then record buf { errcode = e } else buf
    ]
unfolding writeback_statement_error
writeback_statement_error-first n f buf some_thread small =
    rw
      (statement_rounds-first n f 32 0 (n - 1) f some_thread (Reduced-none n f) (omega arith)
        (omega arith))
      (rw (first_from-inside n f n 0 (omega arith)) (
        written (first_from f 0 n) f (λ e h. first_significant_some f n 0 e h)
          (λ h. first_own f n 0 some_thread h)))
  where
    written :
        (o : Option ℤ) (f : ℕ → ℤ)
        → ((e : ℤ) → o ≡ some e → is_significant e ≡ true)
        → (o ≡ none → is_significant (f 0) ≡ false)
        → (if is_significant (or_else o (f 0)) && eq_int buf.errcode success
            then record buf { errcode = or_else o (f 0) }
            else buf)
          ≡ elim o [
            | none ↦ buf
            | some e ↦ if eq_int buf.errcode success then record buf { errcode = e } else buf
          ]
    written none f s own = rw (own refl)
    written (some e) f s own = rw (s e refl)
