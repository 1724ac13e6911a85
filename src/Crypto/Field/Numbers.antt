-- ===== src/Crypto/Field/Numbers.antt =====
-- Byte strings as little-endian numbers.
use cpp_onion.Base.{
  ℕ, zero, suc, ◌+◌, ◌*◌, ◌%◌, ◌^◌, ◌<◌, ◌≡◌, refl, sym, ap, ap₂, ◌∙◌, arith, List, [], ◌∷◌, ◌++◌,
  length, get_or, bit_and, bit_or, u64, ◌<<<◌, ◌>>>◌, IsBytes,
}
use native.Mathlib.Nat.{pow-suc}
use cpp_onion.Base.Digits.{bit_and-ones, bit_or-disjoint}
use cpp_onion.Crypto.Field.{load64, word_bytes}

abbrev pub le_value : List ℕ → ℕ
le_value [] = 0
le_value (b ∷ bs) = b + 256 * le_value bs

-- The number of the `n` bytes from `off`.
abbrev pub le_at : List ℕ → ℕ → ℕ → ℕ
le_at s off zero = 0
le_at s off (suc n) = get_or s off 0 + 256 * le_at s (off + 1) n

le_at_shift : (n off x : ℕ) (xs : List ℕ) → le_at (x ∷ xs) (suc off) n ≡ le_at xs off n
le_at_shift zero off x xs = refl
le_at_shift (suc n) off x xs =
    let e : suc off + 1 ≡ suc (off + 1) = omega arith in rw (e, le_at_shift n (off + 1) x xs)

le_at_whole : (s : List ℕ) → le_at s 0 (length s) ≡ le_value s
le_at_whole [] = refl
le_at_whole (x ∷ xs) = ap (λ (t : ℕ). x + 256 * t) (le_at_shift (length xs) 0 x xs ∙ le_at_whole xs)

pub le_value_32 : (s : List ℕ) → length s ≡ 32 → le_value s ≡ le_at s 0 32
le_value_32 s h = sym (le_at_whole s) ∙ ap (le_at s 0) h

pub le_value-injective :
    (xs ys : List ℕ)
    → IsBytes xs
    → IsBytes ys
    → length xs ≡ length ys
    → le_value xs ≡ le_value ys
    → xs ≡ ys
le_value-injective [] [] hx hy len e = refl
le_value-injective [] (y ∷ ys) hx hy len e = absurd (omega arith)
le_value-injective (x ∷ xs) [] hx hy len e = absurd (omega arith)
le_value-injective (x ∷ xs) (y ∷ ys) hx hy len e =
    ap₂ ◌∷◌ (omega (arith, hx.0, hy.0, e))
      (le_value-injective xs ys hx.1 hy.1 (omega arith) (omega (arith, hx.0, hy.0, e)))

pub get-IsByte : (xs : List ℕ) (i : ℕ) → IsBytes xs → get_or xs i 0 < 256
get-IsByte [] i h = omega arith
get-IsByte (x ∷ xs) zero h = h.0
get-IsByte (x ∷ xs) (suc i) h = get-IsByte xs i h.1

pub le_at_lt : (s : List ℕ) (off n : ℕ) → IsBytes s → le_at s off n < 256 ^ n
le_at_lt s off zero h = omega arith
le_at_lt s off (suc n) h =
    omega (arith, pow-suc 256 n, le_at_lt s (off + 1) n h, get-IsByte s off h)

-- One round of the loop of `load64`.
shift_in : (r b : ℕ) → r < 2 ^ 56 → b < 256 → bit_or (u64 (r <<< 8)) b ≡ r * 256 + b
shift_in r b hr hb = ground (arith, bit_or-disjoint 8 r b)

-- The eight bytes of a word are shifted in one after another, the highest first.
abbrev shift_all : ℕ → ℕ → ℕ → ℕ → ℕ → ℕ → ℕ → ℕ → ℕ
shift_all b0 b1 b2 b3 b4 b5 b6 b7 =
    let push = λ (r b : ℕ). bit_or (u64 (r <<< 8)) b in
    push (push (push (push (push (push (push (push 0 b7) b6) b5) b4) b3) b2) b1) b0

shift_all_lem :
    (b0 b1 b2 b3 b4 b5 b6 b7 : ℕ)
    → IsBytes (b0 ∷ b1 ∷ b2 ∷ b3 ∷ b4 ∷ b5 ∷ b6 ∷ b7 ∷ [])
    → shift_all b0 b1 b2 b3 b4 b5 b6 b7 ≡ le_value (b0 ∷ b1 ∷ b2 ∷ b3 ∷ b4 ∷ b5 ∷ b6 ∷ b7 ∷ [])
shift_all_lem b0 b1 b2 b3 b4 b5 b6 b7 h =
    rw
      (
        shift_in 0 b7 (omega arith) (omega arith),
        shift_in (0 * 256 + b7) b6 (omega arith) (omega arith),
        shift_in ((0 * 256 + b7) * 256 + b6) b5 (omega arith) (omega arith),
        shift_in (((0 * 256 + b7) * 256 + b6) * 256 + b5) b4 (omega arith) (omega arith),
        shift_in ((((0 * 256 + b7) * 256 + b6) * 256 + b5) * 256 + b4) b3 (omega arith)
            (omega arith),
        shift_in (((((0 * 256 + b7) * 256 + b6) * 256 + b5) * 256 + b4) * 256 + b3) b2 (omega arith)
            (omega arith),
        shift_in ((((((0 * 256 + b7) * 256 + b6) * 256 + b5) * 256 + b4) * 256 + b3) * 256 + b2) b1
            (omega arith) (omega arith),
        shift_in
            (((((((0 * 256 + b7) * 256 + b6) * 256 + b5) * 256 + b4) * 256 + b3) * 256 + b2) * 256
              + b1)
            b0 (omega arith) (omega arith),
      )
      (omega arith)

-- The four words of 32 bytes.
module _ (s : List ℕ) (h : IsBytes s) where
  abbrev byte : ℕ → ℕ
  byte i = get_or s i 0

  at_eight :
      (i : ℕ)
      → IsBytes (
          byte i
          ∷ byte (i + 1)
          ∷ byte (i + 2)
          ∷ byte (i + 3)
          ∷ byte (i + 4)
          ∷ byte (i + 5)
          ∷ byte (i + 6)
          ∷ byte (i + 7)
          ∷ [])
  at_eight i = (
    get-IsByte s i h,
    (
      get-IsByte s (i + 1) h,
      (
        get-IsByte s (i + 2) h,
        (
          get-IsByte s (i + 3) h,
          (
            get-IsByte s (i + 4) h,
            (get-IsByte s (i + 5) h, (get-IsByte s (i + 6) h, (get-IsByte s (i + 7) h, tt))),
          ),
        ),
      ),
    ),
  )

  pub load64-words :
      (load64 s 0 ≡ le_at s 0 8)
      × (load64 s 8 ≡ le_at s 8 8)
      × (load64 s 16 ≡ le_at s 16 8)
      × (load64 s 24 ≡ le_at s 24 8)
  unfolding load64
  load64-words = (
    shift_all_lem _ _ _ _ _ _ _ _ (at_eight 0),
    shift_all_lem _ _ _ _ _ _ _ _ (at_eight 8),
    shift_all_lem _ _ _ _ _ _ _ _ (at_eight 16),
    shift_all_lem _ _ _ _ _ _ _ _ (at_eight 24),
  )

  pub load64-bound :
      (load64 s 0 < 2 ^ 64)
      × (load64 s 8 < 2 ^ 64)
      × (load64 s 16 < 2 ^ 64)
      × (load64 s 24 < 2 ^ 64)
  load64-bound =
      let (w0, w1, w2, w3) = load64-words in
      (
        omega (arith, w0, at_eight 0),
        omega (arith, w1, at_eight 8),
        omega (arith, w2, at_eight 16),
        omega (arith, w3, at_eight 24),
      )

-- The eight bytes of a word.
mask_byte : (x : ℕ) → bit_and x 0xff ≡ x % 256
mask_byte x = bit_and-ones 8 x

pub word_bytes_lem : (x : ℕ) → (le_value (word_bytes 8 x) ≡ x % 2 ^ 64) × IsBytes (word_bytes 8 x)
unfolding word_bytes
word_bytes_lem x = (omega (arith, mask_byte), omega (arith, mask_byte))

pub length-word_bytes : (n x : ℕ) → length (word_bytes n x) ≡ n
unfolding word_bytes
length-word_bytes zero x = refl
length-word_bytes (suc n) x = ap suc (length-word_bytes n (x >>> 8))

le_value-append :
    (xs ys : List ℕ) → le_value (xs ++ ys) ≡ le_value xs + 256 ^ length xs * le_value ys
le_value-append [] ys = omega arith
le_value-append (x ∷ xs) ys =
    omega (arith, le_value-append xs ys, ap (λ (t : ℕ). t * le_value ys) (pow-suc 256 (length xs)))

pub le_value-append_8 :
    (xs ys : List ℕ) → length xs ≡ 8 → le_value (xs ++ ys) ≡ le_value xs + 2 ^ 64 * le_value ys
le_value-append_8 xs ys h =
    le_value-append xs ys ∙ ap (λ (n : ℕ). le_value xs + 256 ^ n * le_value ys) h
