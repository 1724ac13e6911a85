-- ===== src/Core/Matcher/Compile.antt =====
-- What `compile_prefix` builds: the bits of the prefix and as many ones, each followed by zeros.
use cpp_onion.Base.{
  ℕ, zero, suc, ◌+◌, ◌-◌, ◌*◌, ◌/◌, ◌%◌, ◌^◌, ◌≤◌, ◌<◌, bit_and, ◌≡◌, ◌↔◌, refl, sym, ap, subst,
  ◌∙◌, List, [], ◌∷◌, ◌++◌, append_assoc, append-nil, foldl, arith, length, length-append,
  length-map, IsBytes, set, replicate, ◌>>>◌, ltb, Bool-cases, inl, inr, if◌then◌else◌, ◌==◌,
  Expected, ok, unexpected, ◌>>=◌, Option-cases,
}
use cpp_onion.Base.Digits.{bits, bit_and-ones}
use cpp_onion.Core.Base32.{symbol, Base32Error, find, alphabet, find_symbol}
use cpp_onion.Core.Base32.Groups.{byte_bits, symbol_bits, length-symbol_bits}
use cpp_onion.Core.Base32.Decode.{positions, symbols_of_positions}
use cpp_onion.Core.Matcher.{
  MatcherError, invalid_char, empty, too_long, max_prefix_len, CompiledPattern, Marks, no_marks,
  mark, mark_all, compile_loop, compile_prefix,
}
use cpp_onion.Core.Matcher.Bits.{or_at-bits}

-- `pre` is what the characters read so far say, and `room` the number of bits after it.
pub record Holds (pre : List ℕ) (room : ℕ) (s : Marks) : Type 0 where
  pub pattern : byte_bits s.bytes ≡ pre ++ replicate room 0
  pub ones : byte_bits s.mask ≡ replicate (length pre) 1 ++ replicate room 0
  pub counted : s.bit ≡ length pre
  pub bytes_ok : IsBytes s.bytes
  pub mask_ok : IsBytes s.mask

set-here :
    (pre : List ℕ) (room v : ℕ)
    → set (pre ++ replicate (suc room) 0) (length pre) v ≡ pre ++ (v ∷ replicate room 0)
set-here [] room v = refl
set-here (x ∷ pre) room v = ap (◌∷◌ x) (set-here pre room v)

set-after_ones :
    (n room : ℕ)
    → set {A = ℕ} (replicate n 1 ++ replicate (suc room) 0) n 1
      ≡ replicate (suc n) 1 ++ replicate room 0
set-after_ones zero room = refl
set-after_ones (suc n) room = ap (◌∷◌ 1) (set-after_ones n room)

ones_one_more : (pre : List ℕ) (v : ℕ) → length (pre ++ (v ∷ [])) ≡ suc (length pre)
ones_one_more pre v = omega (arith, length-append pre (v ∷ []))

-- One round of the inner loop takes one more bit of the symbol.
module _ (pre : List ℕ) (room pos k : ℕ) (s : Marks) (h : Holds pre (suc room) s) where
  abbrev digit : ℕ
  digit = pos / 2 ^ k % 2

  mark-pattern :
      (byte_bits (mark pos k s).bytes ≡ pre ++ (digit ∷ replicate room 0))
      × IsBytes (mark pos k s).bytes
  unfolding mark
  mark-pattern = elim (Bool-cases (bit_and (pos >>> k) 1 == 0)) [
    | inl clear ↦
        let zero_digit : digit ≡ 0 = ground (arith, bit_and-ones 1 (pos / 2 ^ k)) in
        rw (clear, zero_digit) (h.pattern, h.bytes_ok)
    | inr one ↦
        let one_digit : digit ≡ 1 = ground (arith, bit_and-ones 1 (pos / 2 ^ k)) in
        let (e, bytes) = or_at-bits s.bytes s.bit h.bytes_ok in
        rw (one, one_digit) (e ∙ rw (h.pattern, h.counted) (set-here pre room 1), bytes)
  ]

  mark-ones :
      (byte_bits (mark pos k s).mask ≡ replicate (suc (length pre)) 1 ++ replicate room 0)
      × IsBytes (mark pos k s).mask
  unfolding mark
  mark-ones =
      let (e, bytes) = or_at-bits s.mask s.bit h.mask_ok in
      (e ∙ rw (h.ones, h.counted) (set-after_ones (length pre) room), bytes)

  mark-Holds : Holds (pre ++ (digit ∷ [])) room (mark pos k s)
  mark-Holds = record {
    pattern = mark-pattern.0 ∙ sym (append_assoc pre (digit ∷ []) (replicate room 0));
    ones = rw (ones_one_more pre digit) mark-ones.0;
    counted = rw (ones_one_more pre digit) (unfold mark in omega (arith, h.counted));
    bytes_ok = mark-pattern.1;
    mask_ok = mark-ones.1;
  }

mark_all-Holds :
    (n : ℕ) (pre : List ℕ) (room pos : ℕ) (s : Marks)
    → Holds pre (n + room) s
    → Holds (pre ++ bits n pos) room (mark_all n pos s)
unfolding mark_all
mark_all-Holds zero pre room pos s h =
    rw append-nil (let e : 0 + room ≡ room = omega arith in rw e at h)
mark_all-Holds (suc n) pre room pos s h =
    let e : suc n + room ≡ suc (n + room) = omega arith in
    let next = mark-Holds pre (n + room) pos n s (rw e at h) in
    rw append_assoc at
      (mark_all-Holds n (pre ++ ((pos / 2 ^ n % 2) ∷ [])) room pos (mark pos n s) next)

abbrev mark_symbol : Marks → ℕ → Marks
mark_symbol s pos = mark_all 5 pos s

marks-Holds :
    (is : List ℕ) (pre : List ℕ) (room : ℕ) (s : Marks)
    → Holds pre (5 * length is + room) s
    → Holds (pre ++ symbol_bits is) room (foldl mark_symbol s is)
marks-Holds [] pre room s h = rw append-nil (let e : 0 + room ≡ room = omega arith in rw e at h)
marks-Holds (i ∷ is) pre room s h =
    let e : 5 * suc (length is) + room ≡ 5 + (5 * length is + room) = omega arith in
    let next = mark_all-Holds 5 pre (5 * length is + room) i s (rw e at h) in
    rw append_assoc at (marks-Holds is (pre ++ bits 5 i) room (mark_symbol s i) next)

-- The marks of all characters, or the error if one of them is not in the alphabet.
abbrev marks_of : Expected Base32Error (List ℕ) → Marks → Expected MatcherError Marks
marks_of (ok is) s = ok (foldl mark_symbol s is)
marks_of (unexpected e) s = unexpected invalid_char

compile_loop-positions : (cs : List ℕ) (s : Marks) → compile_loop cs s ≡ marks_of (positions cs) s
unfolding compile_loop positions find_symbol
compile_loop-positions [] s = refl
compile_loop-positions (c ∷ cs) s = elim (Option-cases (find alphabet c)) [
  | inl e ↦ rw (e, compile_loop, find_symbol)
  | inr (pos, e) ↦
      rw (e, compile_loop, find_symbol)
        (compile_loop-positions cs (mark_symbol s pos) ∙ pushed (positions cs) pos s)
]
  where
    pushed :
        (r : Expected Base32Error (List ℕ)) (pos : ℕ) (s : Marks)
        → marks_of r (mark_symbol s pos) ≡ marks_of (r >>= (λ is. ok (pos ∷ is))) s
    pushed (ok is) pos s = refl
    pushed (unexpected e) pos s = refl

abbrev pub IsAdmissible : List ℕ → Type 0
IsAdmissible p = (1 ≤ length p) × (length p ≤ max_prefix_len)

-- A compiled pattern says of `prefix` what its bits are.
pub record IsCompiled (p is : List ℕ) (c : CompiledPattern) : Type 0 where
  pub admissible : IsAdmissible p
  pub found : positions p ≡ ok is
  pub same_prefix : c.prefix ≡ p
  pub counted : c.nbytes ≡ (5 * length p + 7) / 8
  pub pattern : byte_bits c.bytes ≡ symbol_bits is ++ replicate (256 - 5 * length p) 0
  pub ones : byte_bits c.mask ≡ replicate (5 * length p) 1 ++ replicate (256 - 5 * length p) 0
  pub bytes_ok : IsBytes c.bytes
  pub mask_ok : IsBytes c.mask

abbrev pattern_of : List ℕ → Marks → CompiledPattern
pattern_of p s = record { bytes = s.bytes; mask = s.mask; nbytes = (s.bit + 7) / 8; prefix = p }

-- The tests on the length come first.
abbrev Answer : Type 0
Answer = Expected MatcherError CompiledPattern

abbrev checked : ℕ → Answer → Answer
checked n r =
    if n == 0 then unexpected empty else if ltb max_prefix_len n then unexpected too_long else r

abbrev answer : List ℕ → Expected Base32Error (List ℕ) → Answer
answer p r = marks_of r no_marks >>= (λ s. ok (pattern_of p s))

compile_prefix-checked :
    (p : List ℕ) → compile_prefix p ≡ checked (length p) (answer p (positions p))
compile_prefix-checked p =
    let body = compile_loop-positions p no_marks in
    unfold compile_prefix in
    ap (λ (r : Expected MatcherError Marks). checked (length p) (r >>= (λ s. ok (pattern_of p s))))
      body

no_marks-Holds : Holds [] 256 no_marks
no_marks-Holds = record {
  pattern = refl;
  ones = refl;
  counted = refl;
  bytes_ok = omega arith;
  mask_ok = omega arith;
}

length-positions : (p is : List ℕ) → positions p ≡ ok is → length is ≡ length p
length-positions p is e =
    let (small, same) = symbols_of_positions p is e in sym (length-map symbol is) ∙ ap length same

pattern_of-IsCompiled :
    (p is : List ℕ)
    → IsAdmissible p
    → positions p ≡ ok is
    → IsCompiled p is (pattern_of p (foldl mark_symbol no_marks is))
pattern_of-IsCompiled p is h found =
    let len = length-positions p is found in
    let start : Holds [] (5 * length is + (256 - 5 * length p)) no_marks =
      let e : 5 * length is + (256 - 5 * length p) ≡ 256 = omega (arith, len, h.1) in
      rw e no_marks-Holds in
    let done = marks-Holds is [] (256 - 5 * length p) no_marks start in
    let bits_read : length (symbol_bits is) ≡ 5 * length p =
      omega (arith, len, length-symbol_bits is) in
    record {
      admissible = h;
      found = found;
      same_prefix = refl;
      counted = rw (done.counted, bits_read) refl;
      pattern = done.pattern;
      ones = rw bits_read at done.ones;
      bytes_ok = done.bytes_ok;
      mask_ok = done.mask_ok;
    }

checked-ok :
    (n : ℕ) (r : Answer) (c : CompiledPattern)
    → checked n r ≡ ok c
    → ((1 ≤ n) × (n ≤ max_prefix_len)) × (r ≡ ok c)
checked-ok n r c h = ground arith

checked-admissible : (n : ℕ) (r : Answer) → 1 ≤ n → n ≤ max_prefix_len → checked n r ≡ r
checked-admissible n r lo hi = ground arith

answer-ok :
    (p : List ℕ) (c : CompiledPattern) (r : Expected Base32Error (List ℕ))
    → answer p r ≡ ok c
    → (is : List ℕ) × (r ≡ ok is) × (pattern_of p (foldl mark_symbol no_marks is) ≡ c)
answer-ok p c (ok is) h = (is, refl, same h)
  where
    same :
        ◌≡◌ {A = Answer} (ok (pattern_of p (foldl mark_symbol no_marks is))) (ok c)
        → pattern_of p (foldl mark_symbol no_marks is) ≡ c
    same e = cc
answer-ok p c (unexpected e) h = cc

-- What `compile_prefix` accepts, and what it answers.
pub compile_prefix-IsCompiled :
    (p : List ℕ) (c : CompiledPattern) → compile_prefix p ≡ ok c → (is : List ℕ) × IsCompiled p is c
compile_prefix-IsCompiled p c h =
    let (admissible, e) =
      checked-ok (length p) (answer p (positions p)) c (sym (compile_prefix-checked p) ∙ h) in
    let (is, found, same) = answer-ok p c (positions p) e in
    (is, subst (IsCompiled p is) same (pattern_of-IsCompiled p is admissible found))

-- `compile_prefix` succeeds exactly on 1 to 49 characters of the alphabet.
pub compile_prefix-ok_iff :
    (p : List ℕ)
    → ((c : CompiledPattern) × (compile_prefix p ≡ ok c))
      ↔ (IsAdmissible p × ((is : List ℕ) × (positions p ≡ ok is)))
compile_prefix-ok_iff p = (
  λ h. let (is, c) = compile_prefix-IsCompiled p h.0 h.1 in (c.admissible, (is, c.found)),
  λ h. (
    pattern_of p (foldl mark_symbol no_marks h.1.0),
    compile_prefix-checked p
        ∙ checked-admissible (length p) (answer p (positions p)) h.0.0 h.0.1
        ∙ ap (answer p) h.1.1,
  ),
)

checked_errors :
    (p : List ℕ) (n : ℕ) (r : Expected Base32Error (List ℕ))
    → ((checked n (answer p r) ≡ unexpected empty) ↔ (n ≡ 0))
      × ((checked n (answer p r) ≡ unexpected too_long) ↔ (max_prefix_len < n))
      × ((checked n (answer p r) ≡ unexpected invalid_char)
          ↔ (((1 ≤ n) × (n ≤ max_prefix_len)) × ((e : Base32Error) × (r ≡ unexpected e))))
checked_errors p n (ok is) = (
  (λ h. ground arith, λ h. ground arith),
  (λ h. ground arith, λ h. ground arith),
  (λ h. absurd (ground arith), λ h. cc h.1.1),
)
checked_errors p n (unexpected e) = (
  (λ h. ground arith, λ h. ground arith),
  (λ h. ground arith, λ h. ground arith),
  (λ h. ((ground arith, ground arith), (e, refl)), λ h. ground arith),
)

-- Which error is reported: the length is looked at first.
pub compile_prefix_errors :
    (p : List ℕ)
    → ((compile_prefix p ≡ unexpected empty) ↔ (length p ≡ 0))
      × ((compile_prefix p ≡ unexpected too_long) ↔ (max_prefix_len < length p))
      × ((compile_prefix p ≡ unexpected invalid_char)
          ↔ (IsAdmissible p × ((e : Base32Error) × (positions p ≡ unexpected e))))
compile_prefix_errors p = rw compile_prefix-checked (checked_errors p (length p) (positions p))
