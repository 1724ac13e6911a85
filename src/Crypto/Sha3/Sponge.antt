-- ===== src/Crypto/Sha3/Sponge.antt =====
-- The streaming object against the sponge construction: whatever the pieces in which the message
-- comes, its padded form is absorbed in blocks of 136 bytes.
use cpp_onion.Base.{
  ℕ, zero, suc, ◌+◌, ◌-◌, ◌*◌, ◌/◌, ◌%◌, ◌<◌, bit_or, ◌≡◌, refl, sym, ap, ◌∙◌, List, [], ◌∷◌, ◌++◌,
  append_assoc, ◌==◌, get_or, set, replicate, take, drop, length, length-append, length-set,
  set-append_right, length-replicate, length-take, take-append_eq, take-append-drop, length-drop,
  drop-append_eq, arith, Bool-cases, ==_iff, inl, inr, false, IsBytes, IsByte, All-append, ◌>>>◌,
}
use mathlib.Core.List.{foldl-append}
use cpp_onion.Base.Digits.{bit_and-ones}
use cpp_onion.Crypto.Sha3.{
  Sha3, rate, digest_size, init, lane_bytes, absorb_block, update_byte, update, clear_from,
  pad_block, squeeze, finalize, hash,
}

-- What follows the last `r` bytes of a message: 0x06, zeros, and 0x80 in the last byte of the block.
unfoldable pub padding : ℕ → List ℕ
padding r =
    let zeros = 0x06 ∷ replicate (rate - 1 - r) 0 in
    set zeros (rate - 1 - r) (bit_or (get_or zeros (rate - 1 - r) 0) 0x80)

-- FIPS 202: the padded message.
unfoldable pub padded : List ℕ → List ℕ
unfolding padding
padded m = m ++ padding (length m % rate)

-- `n` blocks of the message into the lanes.
unfoldable pub absorb_all : ℕ → List ℕ → List ℕ → List ℕ
absorb_all zero m state = state
absorb_all (suc n) m state = absorb_all n (drop rate m) (absorb_block (take rate m) state)

unfoldable pub sponge : List ℕ → List ℕ
unfolding padded absorb_all
sponge m = squeeze 4 0 (absorb_all (length m / rate + 1) (padded m) (replicate 25 0))

-- The bytes that wait in the buffer.
abbrev pending : Sha3 → List ℕ
pending s = take s.buf_len s.buf

pub record IsValid (s : Sha3) : Type 0 where
  pub room : s.buf_len < rate
  pub full_size : length s.buf ≡ rate

set-append_here : (xs ys : List ℕ) (y v : ℕ) → set (xs ++ (y ∷ ys)) (length xs) v ≡ xs ++ (v ∷ ys)
set-append_here [] ys y v = refl
set-append_here (x ∷ xs) ys y v = ap (◌∷◌ x) (set-append_here xs ys y v)

get-append_shift : (xs ys : List ℕ) (j : ℕ) → get_or (xs ++ ys) (length xs + j) 0 ≡ get_or ys j 0
get-append_shift [] ys j = ap (λ (i : ℕ). get_or ys i 0) (omega arith)
get-append_shift (x ∷ xs) ys j =
    let e : suc (length xs) + j ≡ suc (length xs + j) = omega arith in
    rw e (get-append_shift xs ys j)

take-set :
    (n : ℕ) (xs : List ℕ) (v : ℕ)
    → n < length xs
    → take (suc n) (set xs n v) ≡ take n xs ++ (v ∷ [])
take-set n [] v h = absurd (omega arith)
take-set zero (x ∷ xs) v h = refl
take-set (suc n) (x ∷ xs) v h = ap (◌∷◌ x) (take-set n xs v (omega arith))

take_all : (n : ℕ) (xs : List ℕ) → length xs ≡ n → take n xs ≡ xs
take_all zero [] h = refl
take_all zero (x ∷ xs) h = absurd (omega arith)
take_all (suc n) [] h = refl
take_all (suc n) (x ∷ xs) h = ap (◌∷◌ x) (take_all n xs (omega arith))

-- `clear_from` and the domain byte.
started :
    (q tail : List ℕ)
    → length q < rate
    → length q + length tail ≡ rate
    → set (clear_from (length q) (q ++ tail)) (length q) 0x06
      ≡ q ++ (0x06 ∷ replicate (rate - 1 - length q) 0)
unfolding clear_from
started q tail h e =
    let rest : length (q ++ tail) - length q ≡ suc (rate - 1 - length q) =
      omega (arith, length-append q tail) in
    rw (take-append_eq (length q) q tail refl, rest)
      (set-append_here q (replicate (rate - 1 - length q) 0) 0 0x06)

or_last :
    (q zeros : List ℕ) (k n : ℕ)
    → length q + k ≡ n
    → set (q ++ zeros) n (bit_or (get_or (q ++ zeros) n 0) 0x80)
      ≡ q ++ set zeros k (bit_or (get_or zeros k 0) 0x80)
or_last q zeros k n e = rw (← e, get-append_shift q zeros k) (set-append_right q zeros k _)

-- `finalize` fills the block up as the padding rule says.
pad_block_lem :
    (q tail : List ℕ)
    → length q < rate
    → length q + length tail ≡ rate
    → pad_block (length q) (q ++ tail) ≡ q ++ padding (length q)
unfolding pad_block padding
pad_block_lem q tail h e = rw (started q tail h e) (
    or_last q (0x06 ∷ replicate (rate - 1 - length q) 0) (rate - 1 - length q) (rate - 1)
      (omega arith))

pad_pending :
    (s : Sha3)
    → IsValid s
    → (pad_block s.buf_len s.buf ≡ pending s ++ padding s.buf_len)
      × (length (pending s) ≡ s.buf_len)
pad_pending s v =
    let len : length (pending s) ≡ s.buf_len =
      omega (arith, length-take s.buf_len s.buf, v.room, v.full_size) in
    let parts = take-append-drop s.buf_len s.buf in
    let total : length (pending s) + length (drop s.buf_len s.buf) ≡ rate =
      omega (arith, len, length-drop s.buf_len s.buf, v.room, v.full_size) in
    (
      rw (len, parts) at
          (pad_block_lem (pending s) (drop s.buf_len s.buf) (omega (arith, len, v.room)) total),
      len,
    )

length-padding : (r : ℕ) → r < rate → length (padding r) ≡ rate - r
unfolding padding
length-padding r h = omega (
  arith,
  length-set (0x06 ∷ replicate (rate - 1 - r) 0) (rate - 1 - r)
      (bit_or (get_or (0x06 ∷ replicate (rate - 1 - r) 0) (rate - 1 - r) 0) 0x80),
  length-replicate {A = ℕ} (rate - 1 - r) 0,
)

-- A whole block is absorbed.
absorb_all_block :
    (n : ℕ) (block m state : List ℕ)
    → length block ≡ rate
    → absorb_all (suc n) (block ++ m) state ≡ absorb_all n m (absorb_block block state)
unfolding absorb_all
absorb_all_block n block m state h =
    rw (take-append_eq rate block m h, drop-append_eq rate block m h)

abbrev answer : ℕ → List ℕ → List ℕ → List ℕ
answer n m state = squeeze 4 0 (absorb_all n m state)

absorb_one :
    (block state : List ℕ)
    → length block ≡ rate
    → absorb_all 1 block state ≡ absorb_block block state
unfolding absorb_all
absorb_one block state h = ap (λ (t : List ℕ). absorb_block t state) (take_all rate block h)

finalize_lem :
    (s : Sha3) → IsValid s → finalize s ≡ answer 1 (pending s ++ padding s.buf_len) s.state
unfolding finalize
finalize_lem s v =
    let (block, len) = pad_pending s v in
    let whole : length (pending s ++ padding s.buf_len) ≡ rate = omega (
      arith,
      length-append (pending s) (padding s.buf_len),
      len,
      length-padding s.buf_len v.room,
      v.room,
    ) in
    rw block (ap (squeeze 4 0) (sym (absorb_one _ s.state whole)))

abbrev next : Sha3 → ℕ → List ℕ
next s b = set s.buf s.buf_len b

take-next : (s : Sha3) (b : ℕ) → IsValid s → take (s.buf_len + 1) (next s b) ≡ pending s ++ (b ∷ [])
take-next s b v =
    let e : s.buf_len + 1 ≡ suc s.buf_len = omega arith in
    rw e (take-set s.buf_len s.buf b (omega (arith, v.room, v.full_size)))

length-next : (s : Sha3) (b : ℕ) → IsValid s → length (next s b) ≡ rate
length-next s b v = length-set s.buf s.buf_len b ∙ v.full_size

abbrev emptied : Sha3 → ℕ → Sha3
emptied s b = record { state = absorb_block (next s b) s.state; buf = next s b; buf_len = 0 }

abbrev longer : Sha3 → ℕ → Sha3
longer s b = record s { buf = next s b; buf_len = s.buf_len + 1 }

-- A byte that fills the buffer, and one that does not.
update_byte_full : (s : Sha3) (b : ℕ) → s.buf_len + 1 ≡ rate → update_byte s b ≡ emptied s b
unfolding update_byte
update_byte_full s b e = rw ((==_iff (s.buf_len + 1) rate).1 e)

update_byte_more :
    (s : Sha3) (b : ℕ) → (s.buf_len + 1 == rate) ≡ false → update_byte s b ≡ longer s b
unfolding update_byte
update_byte_more s b e = rw e

-- After a full buffer the message goes on with the next block.
after_full :
    (s : Sha3) (b : ℕ) (m : List ℕ)
    → IsValid s
    → s.buf_len + 1 ≡ rate
    → answer ((0 + length m) / rate + 1) (m ++ padding ((0 + length m) % rate)) (emptied s b).state
      ≡ answer
          ((s.buf_len + suc (length m)) / rate + 1)
          (pending s ++ ((b ∷ m) ++ padding ((s.buf_len + suc (length m)) % rate)))
          s.state
after_full s b m v e =
    let block : next s b ≡ pending s ++ (b ∷ []) =
      sym (take_all (s.buf_len + 1) (next s b) (length-next s b v ∙ sym e)) ∙ take-next s b v in
    let count : (s.buf_len + suc (length m)) / rate + 1 ≡ suc ((0 + length m) / rate + 1) =
      omega arith in
    let rest : (s.buf_len + suc (length m)) % rate ≡ (0 + length m) % rate = omega arith in
    rw
      (
        count,
        rest,
        ← append_assoc (pending s) (b ∷ []) (m ++ padding ((0 + length m) % rate)),
        ← block,
      )
      (ap (squeeze 4 0) (
        sym (
          absorb_all_block ((0 + length m) / rate + 1) (next s b)
            (m ++ padding ((0 + length m) % rate)) s.state (length-next s b v))))

finalize-update :
    (m : List ℕ) (s : Sha3)
    → IsValid s
    → finalize (update s m)
      ≡ answer
          ((s.buf_len + length m) / rate + 1)
          (pending s ++ (m ++ padding ((s.buf_len + length m) % rate)))
          s.state
unfolding update
finalize-update [] s v =
    let count : (s.buf_len + 0) / rate + 1 ≡ 1 = omega (arith, v.room) in
    let rest : (s.buf_len + 0) % rate ≡ s.buf_len = omega (arith, v.room) in
    rw (count, rest) (finalize_lem s v)
finalize-update (b ∷ m) s v = elim (Bool-cases (s.buf_len + 1 == rate)) [
  | inl full ↦
      let e : s.buf_len + 1 ≡ rate = (==_iff (s.buf_len + 1) rate).0 full in
      let v' : IsValid (emptied s b) = record {
        room = omega arith;
        full_size = length-next s b v;
      } in
      rw (update_byte_full s b e) (finalize-update m (emptied s b) v' ∙ after_full s b m v e)
  | inr more ↦
      let v' : IsValid (longer s b) = record {
        room = ground (arith, v.room);
        full_size = length-next s b v;
      } in
      let same : s.buf_len + 1 + length m ≡ s.buf_len + suc (length m) = omega arith in
      rw (update_byte_more s b more)
        (rw (take-next s b v, append_assoc, same) at (finalize-update m (longer s b) v'))
]

init-IsValid : IsValid init
init-IsValid = record { room = omega arith; full_size = refl }

-- `hash` is the sponge construction on the padded message.
pub hash-sponge : (m : List ℕ) → hash m ≡ sponge m
unfolding hash sponge
hash-sponge m =
    let e : 0 + length m ≡ length m = omega arith in rw e at (finalize-update m init init-IsValid)

-- The pieces in which a message is given do not matter.
pub update-append : (s : Sha3) (xs ys : List ℕ) → update (update s xs) ys ≡ update s (xs ++ ys)
unfolding update
update-append s xs ys = sym (foldl-append update_byte s xs ys)

lane_bytes-IsBytes : (n x : ℕ) → IsBytes (lane_bytes n x) × (length (lane_bytes n x) ≡ n)
unfolding lane_bytes
lane_bytes-IsBytes zero x = (tt, refl)
lane_bytes-IsBytes (suc n) x =
    let (bytes, len) = lane_bytes-IsBytes n (x >>> 8) in
    ((omega (arith, bit_and-ones 8 x), bytes), ap suc len)

squeeze-IsBytes :
    (n i : ℕ) (state : List ℕ) → IsBytes (squeeze n i state) × (length (squeeze n i state) ≡ 8 * n)
unfolding squeeze
squeeze-IsBytes zero i state = (tt, refl)
squeeze-IsBytes (suc n) i state =
    let (bytes, len) = lane_bytes-IsBytes 8 (get_or state i 0) in
    let (bytes', len') = squeeze-IsBytes n (i + 1) state in
    (
      All-append IsByte _ (squeeze n (i + 1) state) bytes bytes',
      omega (
        arith,
        length-append (lane_bytes 8 (get_or state i 0)) (squeeze n (i + 1) state),
        len,
        len',
      ),
    )

-- A digest is 32 bytes.
pub finalize-IsBytes : (s : Sha3) → IsBytes (finalize s) × (length (finalize s) ≡ digest_size)
unfolding finalize
finalize-IsBytes s = squeeze-IsBytes 4 0 (absorb_block (pad_block s.buf_len s.buf) s.state)
