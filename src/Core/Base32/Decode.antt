-- ===== src/Core/Base32/Decode.antt =====
-- `base32_decode` cuts the bits of its symbols into bytes.
use cpp_onion.Base.{
  ℕ, zero, suc, ◌+◌, ◌*◌, ◌/◌, ◌%◌, ◌^◌, ◌<◌, bit_and, bit_or, ◌≡◌, refl, sym, ap, ap₂, ◌∙◌, List,
  [], ◌∷◌, ◌++◌, foldl, map, append_assoc, append-nil, arith, length, u32, ◌<<<◌, ◌>>>◌, All, ◌==◌,
  if◌then◌else◌, Expected, ok, unexpected, Expected-cases, bind-eq-ok, inl, inr, ◌>>=◌, Bool, true,
  false, Option, some, none, get_or,
}
use cpp_onion.Base.Tables.{holds_below, holds_at}
use cpp_onion.Base.Digits.{bits, halve, bit_and-ones, bit_or-disjoint}
use cpp_onion.Core.Base32.{
  State, start, symbol, codes, alphabet, find, find_symbol, decode_symbol, decode_loop,
  decode_finish, base32_decode, invalid_char, nonzero_padding, invalid_length, Base32Error,
  valid_mod8,
}
use cpp_onion.Core.Base32.Groups.{symbol_bits, eights, leftover, all_zero, IsSymbol}

abbrev st : ℕ → ℕ → List ℕ → State
st a n o = record { acc = a; bits = n; out = o }

abbrev shifted : ℕ → ℕ → ℕ
shifted a i = bit_or (u32 (a <<< 5)) i

shifted_low : (a i : ℕ) → i < 32 → shifted a i % 4096 ≡ a % 128 * 32 + i
shifted_low a i h = ground (arith, bit_or-disjoint 5 (a % 2 ^ 27) i)

join :
    (n a i x : ℕ) (r : List ℕ)
    → n < 8
    → i < 32
    → x % 4096 ≡ a % 128 * 32 + i
    → bits n a ++ (bits 5 i ++ r) ≡ bits (n + 5) x ++ r
join zero a i x r hn hi e = ground arith
join (suc zero) a i x r hn hi e = ground arith
join (suc (suc zero)) a i x r hn hi e = ground arith
join (suc (suc (suc zero))) a i x r hn hi e = ground arith
join (suc (suc (suc (suc zero)))) a i x r hn hi e = ground arith
join (suc (suc (suc (suc (suc zero))))) a i x r hn hi e = ground arith
join (suc (suc (suc (suc (suc (suc zero)))))) a i x r hn hi e = ground arith
join (suc (suc (suc (suc (suc (suc (suc zero))))))) a i x r hn hi e = ground arith
join (suc (suc (suc (suc (suc (suc (suc (suc n)))))))) a i x r hn hi e = absurd (omega arith)

abbrev eight_more : ℕ → ℕ
eight_more k = suc (suc (suc (suc (suc (suc (suc (suc k)))))))

emit :
    (k x : ℕ) (r : List ℕ)
    → eights (bits (eight_more k) x ++ r) ≡ bit_and (x >>> k) 0xff ∷ eights (bits k x ++ r)
emit k x r =
    ap (λ (i : ℕ). i ∷ eights (bits k x ++ r))
      (omega (
        arith,
        bit_and-ones 8 (x / 2 ^ k),
        halve k x,
        halve (suc k) x,
        halve (suc (suc k)) x,
        halve (suc (suc (suc k))) x,
        halve (suc (suc (suc (suc k)))) x,
        halve (suc (suc (suc (suc (suc k))))) x,
        halve (suc (suc (suc (suc (suc (suc k)))))) x,
      ))

module _ (a i : ℕ) (o : List ℕ) (hi : i < 32) where
  abbrev pending : ℕ → ℕ → List ℕ → List ℕ
  pending n c r = bits n c ++ r

  abbrev Round : ℕ → Type 0
  Round n =
      (n' : ℕ) × (a' : ℕ) × (o' : List ℕ) × (decode_symbol (st a n o) i ≡ st a' n' (o ++ o'))
      × (n' < 8)
      × ((is : List ℕ)
          → (eights (bits n a ++ symbol_bits (i ∷ is))
              ≡ o' ++ eights (bits n' a' ++ symbol_bits is))
            × (leftover (bits n a ++ symbol_bits (i ∷ is))
                ≡ leftover (bits n' a' ++ symbol_bits is)))

  abbrev x : ℕ
  x = shifted a i

  joined :
      (n : ℕ) (is : List ℕ)
      → n < 8
      → bits n a ++ symbol_bits (i ∷ is) ≡ bits (n + 5) x ++ symbol_bits is
  joined n is hn = join n a i x (symbol_bits is) hn hi (shifted_low a i hi)

  -- With fewer than eight bits nothing is written.
  keeps : (n : ℕ) → n < 3 → Round n
  unfolding decode_symbol
  keeps n hn = (
    n + 5,
    x,
    [],
    ground (arith, append-nil o),
    omega arith,
    λ is. (ap eights (joined n is (omega arith)), ap leftover (joined n is (omega arith))),
  )

  -- With eight bits or more the first eight are written.
  writes : (n k : ℕ) → n < 8 → n + 5 ≡ eight_more k → Round n
  unfolding decode_symbol
  writes n k hn e = (
    k,
    x,
    bit_and (x >>> k) 0xff ∷ [],
    ground arith,
    omega arith,
    λ is. (
      ap eights (joined n is hn)
          ∙ ap (λ (m : ℕ). eights (bits m x ++ symbol_bits is)) e
          ∙ emit k x (symbol_bits is),
      ap leftover (joined n is hn) ∙ ap (λ (m : ℕ). leftover (bits m x ++ symbol_bits is)) e,
    ),
  )

  decode_symbol_lem : (n : ℕ) → n < 8 → Round n
  decode_symbol_lem zero hn = keeps 0 (omega arith)
  decode_symbol_lem (suc zero) hn = keeps 1 (omega arith)
  decode_symbol_lem (suc (suc zero)) hn = keeps 2 (omega arith)
  decode_symbol_lem (suc (suc (suc n))) hn = writes (suc (suc (suc n))) n hn (omega arith)

-- The bits that the padding check looks at.
decode_finish_lem :
    (n a : ℕ) (o : List ℕ)
    → n < 8
    → decode_finish (st a n o) ≡ (if all_zero (bits n a) then ok o else unexpected nonzero_padding)
unfolding decode_finish
decode_finish_lem zero a o hn = refl
decode_finish_lem (suc zero) a o hn = ground (arith, bit_and-ones 1 a)
decode_finish_lem (suc (suc zero)) a o hn = ground (arith, bit_and-ones 2 a)
decode_finish_lem (suc (suc (suc zero))) a o hn = ground (arith, bit_and-ones 3 a)
decode_finish_lem (suc (suc (suc (suc zero)))) a o hn = ground (arith, bit_and-ones 4 a)
decode_finish_lem (suc (suc (suc (suc (suc zero))))) a o hn = ground (arith, bit_and-ones 5 a)
decode_finish_lem (suc (suc (suc (suc (suc (suc zero)))))) a o hn = ground (arith, bit_and-ones 6 a)
decode_finish_lem (suc (suc (suc (suc (suc (suc (suc zero))))))) a o hn =
    ground (arith, bit_and-ones 7 a)
decode_finish_lem (suc (suc (suc (suc (suc (suc (suc (suc n)))))))) a o hn = absurd (omega arith)

-- What the decoder answers on the bits of its symbols.
abbrev pub Answer : Type 0
Answer = Expected Base32Error (List ℕ)

abbrev pub cut : List ℕ → List ℕ → Answer
cut o l = if all_zero (leftover l) then ok (o ++ eights l) else unexpected nonzero_padding

cut_short :
    (n a : ℕ) (o : List ℕ)
    → n < 8
    → cut o (bits n a ++ []) ≡ (if all_zero (bits n a) then ok o else unexpected nonzero_padding)
cut_short zero a o hn = ground (arith, append-nil o)
cut_short (suc zero) a o hn = ground (arith, append-nil o)
cut_short (suc (suc zero)) a o hn = ground (arith, append-nil o)
cut_short (suc (suc (suc zero))) a o hn = ground (arith, append-nil o)
cut_short (suc (suc (suc (suc zero)))) a o hn = ground (arith, append-nil o)
cut_short (suc (suc (suc (suc (suc zero))))) a o hn = ground (arith, append-nil o)
cut_short (suc (suc (suc (suc (suc (suc zero)))))) a o hn = ground (arith, append-nil o)
cut_short (suc (suc (suc (suc (suc (suc (suc zero))))))) a o hn = ground (arith, append-nil o)
cut_short (suc (suc (suc (suc (suc (suc (suc (suc n)))))))) a o hn = absurd (omega arith)

decode_run :
    (is : List ℕ) (n a : ℕ) (o : List ℕ)
    → n < 8
    → All IsSymbol is
    → decode_finish (foldl decode_symbol (st a n o) is) ≡ cut o (bits n a ++ symbol_bits is)
decode_run [] n a o hn h = decode_finish_lem n a o hn ∙ sym (cut_short n a o hn)
decode_run (i ∷ is) n a o hn (hi, his) =
    let (n', a', o', e, hn', p) = decode_symbol_lem a i o hi n hn in
    let (pe, pl) = p is in rw (e, pe, pl) (decode_run is n' a' (o ++ o') hn' his ∙ rw append_assoc)

-- The positions of all characters in the alphabet, or the error of the first that has none.
unfoldable pub positions : List ℕ → Expected Base32Error (List ℕ)
positions [] = ok []
positions (c ∷ cs) = do pos ← find_symbol c; rest ← positions cs; ok (pos ∷ rest)

bind_push :
    (r : Expected Base32Error (List ℕ)) (pos : ℕ) (s : State)
    → (r >>= λ is. ok (foldl decode_symbol (decode_symbol s pos) is))
      ≡ ((r >>= λ rest. ok (pos ∷ rest)) >>= λ is. ok (foldl decode_symbol s is))
bind_push (ok is) pos s = refl
bind_push (unexpected e) pos s = refl

decode_loop-positions :
    (cs : List ℕ) (s : State)
    → decode_loop s cs ≡ (positions cs >>= λ is. ok (foldl decode_symbol s is))
unfolding decode_loop positions
decode_loop-positions [] s = refl
decode_loop-positions (c ∷ cs) s = elim (Expected-cases (find_symbol c)) [
  | inl (pos, e) ↦
      rw e (rw (decode_loop-positions cs (decode_symbol s pos)) (bind_push (positions cs) pos s))
  | inr (x, e) ↦ rw e
]

find-bound : (xs : List ℕ) (c i : ℕ) → find xs c ≡ some i → (i < length xs) × (get_or xs i 0 ≡ c)
unfolding find
find-bound [] c i h = cc
find-bound (x ∷ xs) c zero h = ground arith
find-bound (x ∷ xs) c (suc i) h = ground (arith, find-bound xs c i)

answers : ℕ → Expected Base32Error ℕ → Bool
answers i (ok j) = j == i
answers i (unexpected e) = false

answers→ok : (i : ℕ) (r : Expected Base32Error ℕ) → answers i r ≡ true → r ≡ ok i
unfolding answers
answers→ok i (ok j) h = ground arith
answers→ok i (unexpected e) h = ground arith

symbol_table : holds_below 32 (λ i. answers i (find_symbol (symbol i))) ≡ true
unfolding holds_below answers find_symbol symbol
symbol_table = refl

pub find_symbol-symbol : (i : ℕ) → i < 32 → find_symbol (symbol i) ≡ ok i
find_symbol-symbol i h = answers→ok i _ (holds_at 32 _ i symbol_table h)

find_cases :
    (o : Option ℕ) (i : ℕ)
    → ◌≡◌ {A = Expected Base32Error ℕ}
        (elim o [ none ↦ unexpected invalid_char | some pos ↦ ok pos ])
        (ok i)
    → o ≡ some i
find_cases none i h = cc
find_cases (some j) i h = cc

pub symbol_of_find : (c i : ℕ) → find_symbol c ≡ ok i → IsSymbol i × (symbol i ≡ c)
symbol_of_find c i h =
    let found : find alphabet c ≡ some i =
      find_cases (find alphabet c) i (unfold find_symbol in h) in
    unfold symbol in find-bound alphabet c i found

pub positions-symbols : (is : List ℕ) → All IsSymbol is → positions (map symbol is) ≡ ok is
unfolding positions
positions-symbols [] h = refl
positions-symbols (i ∷ is) (hi, his) = rw (find_symbol-symbol i hi, positions-symbols is his)

pub symbols_of_positions :
    (cs is : List ℕ) → positions cs ≡ ok is → All IsSymbol is × (map symbol is ≡ cs)
unfolding positions
symbols_of_positions [] [] h = (tt, refl)
symbols_of_positions [] (i ∷ is) h = cc
symbols_of_positions (c ∷ cs) is h =
    let (pos, found, h') = bind-eq-ok (find_symbol c) _ h in
    let (rest, others, e) = bind-eq-ok (positions cs) _ h' in
    let (bound, same) = symbol_of_find c pos found in
    let (bounds, sames) = symbols_of_positions cs rest others in
    ok_case is pos rest e (bound, bounds) (ap₂ ◌∷◌ same sames)
  where
    ok_case :
        (is : List ℕ) (pos : ℕ) (rest : List ℕ)
        → ◌≡◌ {A = Answer} (ok (pos ∷ rest)) (ok is)
        → All IsSymbol (pos ∷ rest)
        → map symbol (pos ∷ rest) ≡ c ∷ cs
        → All IsSymbol is × (map symbol is ≡ c ∷ cs)
    ok_case is pos rest e bounds sames =
        let same : pos ∷ rest ≡ is = cc in rw (← same) (bounds, sames)

bind_finish :
    (r : Expected Base32Error (List ℕ))
    → ((is : List ℕ) → r ≡ ok is → All IsSymbol is)
    → ((r >>= λ is. ok (foldl decode_symbol start is)) >>= decode_finish)
      ≡ (r >>= λ is. cut [] (symbol_bits is))
bind_finish (ok is) h = decode_run is 0 0 [] (omega arith) (h is refl)
bind_finish (unexpected e) h = refl

-- The length is looked at first, then each character, then the padding.
pub base32_decode-cut :
    (s : List ℕ)
    → base32_decode s ≡ (
        if get_or valid_mod8 (length s % 8) false
        then (positions s >>= (λ is. cut [] (symbol_bits is)))
        else unexpected invalid_length)
base32_decode-cut s =
    let body : (decode_loop start s >>= decode_finish)
        ≡ (positions s >>= λ is. cut [] (symbol_bits is)) =
      rw (decode_loop-positions s start)
        (bind_finish (positions s) (λ is e. (symbols_of_positions s is e).0)) in
    unfold base32_decode in
    ap
      (λ (r : Answer).
        if get_or valid_mod8 (length s % 8) false then r else unexpected invalid_length)
      body

test_decode : base32_decode (codes "mzxw6ytb") ≡ ok (codes "fooba")
unfolding base32_decode
test_decode = refl

test_decode_padding : base32_decode (codes "mz") ≡ unexpected nonzero_padding
unfolding base32_decode
test_decode_padding = refl
