-- ===== src/Cuda/Engine/Start.antt =====
-- The points that an epoch searches: thread `t` at step `j` is at the multiple a0 + 8 (t + j T), which
-- is the scalar that a hit of it is turned into.
use cpp_onion.Base.{
  ℕ, zero, suc, ◌+◌, ◌*◌, ◌^◌, ◌<◌, ◌≤◌, min, true, false, ◌≡◌, refl, sym, subst, ◌∙◌, arith,
  Bool-cases, inl, inr, List, length, IsBytes, ltb, ltb→lt, ◌==◌, ==_iff, if◌then◌else◌,
}
use cpp_onion.Crypto.Field.{Fe}
use cpp_onion.Crypto.Field.Numbers.{le_value}
use native.Mathlib.Nat.{mod-eq_of_lt}
use cpp_onion.Crypto.Point.{
  GeP3, identity, ge_basepoint, ge_to_cached, ge_double, ge_add, ge_madd, ge_scalarmult_base,
  ge_to_cached_affine,
}
use cpp_onion.Crypto.Point.Scalar.{ge_scalarmult_base-Represents}
use cpp_onion.Crypto.Incremental.{eight, scalar_add_8i}
use cpp_onion.Crypto.Incremental.Scalar.{scalar_add_8i_lem}
use cpp_onion.Cuda.Device.{DevicePoint, DeviceField, madd}
use cpp_onion.Cuda.Bridge.{to_device_p3, to_device_cached}
use cpp_onion.Cuda.Kernel.{HitSlot}
use cpp_onion.Cuda.Kernel.Walk.{point_at}
use cpp_onion.Cuda.Engine.{setup_points, store, hit_index}

-- `Represents p n`: the host's point is the multiple `n` of the base point, which the scalar
-- multiplication starts from and doubles, and to which it and the steps add. `Held d n`: so is the
-- device's point, for one of the device fields.
module _ (Represents : GeP3 → ℕ → Type 0) (zero_ok : Represents identity 0)
    (double_ok : (p : GeP3) (n : ℕ) → Represents p n → Represents (ge_double p) (n + n))
    (base_ok : (p : GeP3) (n : ℕ)
      → Represents p n
      → Represents (ge_add p (ge_to_cached ge_basepoint)) (n + 1))
    (madd_ok : (p b : GeP3) (n m : ℕ)
      → Represents p n
      → Represents b m
      → Represents (ge_madd p (ge_to_cached_affine b)) (n + m))
    {F : Type 0} (field : DeviceField F) (to_fe : Fe → F) (Held : DevicePoint F → ℕ → Type 0)
    (bridge_ok : (p : GeP3) (n : ℕ) → Represents p n → Held (to_device_p3 to_fe p) n)
    (step_ok : (d : DevicePoint F) (b : GeP3) (n m : ℕ)
      → Held d n
      → Represents b m
      → Held (madd field d (to_device_cached to_fe (ge_to_cached_affine b))) (n + m)) where
  -- The starts from `t` on are written, those before are kept, and the big step is a multiple.
  record AreStarts (t threads base : ℕ) (starts : ℕ → DevicePoint F)
      (r : (ℕ → DevicePoint F) × GeP3) : Type 0 where
    kept : (i : ℕ) → i < t → r.0 i ≡ starts i
    written : (i : ℕ) → t ≤ i → i < threads → Held (r.0 i) (base + 8 * i)
    big : Represents r.1 (8 * threads)

  setup_points-AreStarts :
      (left t threads base : ℕ) (b cur big : GeP3) (starts : ℕ → DevicePoint F)
      → t + left ≡ threads
      → Represents b 8
      → Represents cur (base + 8 * t)
      → Represents big (8 * min (t + 1) threads)
      → AreStarts t threads base starts
          (setup_points to_fe left t threads (ge_to_cached_affine b) cur big starts)
  unfolding setup_points
  setup_points-AreStarts zero t threads base b cur big starts e hb hc hbig = record {
    kept = λ i lt. refl;
    written = λ i ge lt. absurd (omega (arith, e, ge, lt));
    big =
        let same : 8 * min (t + 1) threads ≡ 8 * threads = omega (arith, e) in
        subst (Represents big) same hbig;
  }
  setup_points-AreStarts (suc left) t threads base b cur big starts e hb hc hbig =
      let q = ge_to_cached_affine b in
      let next_big = if ltb (t + 1) threads then ge_madd big q else big in
      let grown : Represents next_big (8 * min (t + 1 + 1) threads) =
        elim (Bool-cases (ltb (t + 1) threads)) [
          | inl more ↦
              let lt = ltb→lt (t + 1) threads more in
              let same : 8 * min (t + 1) threads + 8 ≡ 8 * min (t + 1 + 1) threads =
                omega (arith, lt) in
              rw more (subst (Represents (ge_madd big q)) same (madd_ok big b _ 8 hbig hb))
          | inr last ↦
              let same : 8 * min (t + 1) threads ≡ 8 * min (t + 1 + 1) threads =
                ground (arith, e) in
              rw last (subst (Represents big) same hbig)
        ] in
      let shift : base + 8 * t + 8 ≡ base + 8 * (t + 1) = omega arith in
      let here = store starts t (to_device_p3 to_fe cur) in
      let made = setup_points to_fe left (t + 1) threads q (ge_madd cur q) next_big here in
      let rest =
        setup_points-AreStarts left (t + 1) threads base b (ge_madd cur q) next_big here
          (omega (arith, e)) hb
          (subst (Represents (ge_madd cur q)) shift (madd_ok cur b (base + 8 * t) 8 hc hb)) grown in
      record {
        kept = λ i lt.
            let other : (i == t) ≡ false = ground (arith, lt) in
            rest.kept i (omega (arith, lt)) ∙ rw other refl;
        written = λ i ge lt. elim (Bool-cases (ltb t i)) [
          | inl above ↦ rest.written i (let k = ltb→lt t i above in omega (arith, k)) lt
          | inr not_above ↦
              let same : i ≡ t = ground (arith, ge) in
              let self : (t == t) ≡ true = (==_iff t t).1 refl in
              subst (λ (k : ℕ). Held (made.0 k) (base + 8 * k)) (sym same)
                (subst (λ (d : DevicePoint F). Held d (base + 8 * t))
                  (sym (rest.kept t (omega arith) ∙ rw self refl)) (bridge_ok cur _ hc))
        ];
        big = rest.big;
      }

  -- A step of a thread adds the big step.
  point_at-Held :
      (j n m : ℕ) (b : GeP3) (d : DevicePoint F)
      → Represents b m
      → Held d n
      → Held (point_at field (to_device_cached to_fe (ge_to_cached_affine b)) j d) (n + j * m)
  point_at-Held zero n m b d hb h = subst (Held d) (omega arith) h
  point_at-Held (suc j) n m b d hb h =
      let next = madd field d (to_device_cached to_fe (ge_to_cached_affine b)) in
      subst (Held (point_at field (to_device_cached to_fe (ge_to_cached_affine b)) j next))
        (omega arith) (point_at-Held j (n + m) m b next hb (step_ok d b n m h hb))

  -- The scalar multiplication of a scalar below 2^255.
  scalarmult_ok :
      (s : List ℕ)
      → IsBytes s
      → length s ≡ 32
      → le_value s < 2 ^ 255
      → Represents (ge_scalarmult_base s) (le_value s)
  scalarmult_ok s bytes len small =
      subst (Represents (ge_scalarmult_base s)) (mod-eq_of_lt small)
        (ge_scalarmult_base-Represents Represents double_ok base_ok zero_ok s bytes len)

  -- The multiple is that of the reconstructed scalar.
  index_scalar :
      (a0 : List ℕ) (threads : ℕ) (hit : HitSlot)
      → IsBytes a0
      → length a0 ≡ 32
      → le_value a0 < 2 ^ 255
      → hit.t + hit.j * threads < 2 ^ 61
      → le_value (scalar_add_8i a0 (hit_index threads hit))
        ≡ le_value a0 + 8 * hit.t + hit.j * (8 * threads)
  index_scalar a0 threads hit bytes len small room =
      let (e, _, _) = scalar_add_8i_lem a0 (hit_index threads hit) bytes len in
      omega (arith, e, small, room)

  -- If the host's doubling and additions double and add the multiples of the base point that points
  -- stand for, and if, for the device field in use, a bridged point stands for the same multiple and the device's mixed
  -- addition adds multiples, then thread `t` of an epoch stands at step `j` at the multiple by the
  -- scalar that a hit of it there is turned into, as long as the base scalar is below 2^255 and the
  -- index below 2^61.
  pub setup_points-scalar_add_8i :
      (a0 : List ℕ) (threads : ℕ) (starts : ℕ → DevicePoint F) (hit : HitSlot)
      → IsBytes a0
      → length a0 ≡ 32
      → le_value a0 < 2 ^ 255
      → hit.t < threads
      → hit.t + hit.j * threads < 2 ^ 61
      → let b = ge_scalarmult_base eight in
        let made =
          setup_points to_fe threads 0 threads
            (ge_to_cached_affine b)
            (ge_scalarmult_base a0)
            b
            starts in
        let bigstep = to_device_cached to_fe (ge_to_cached_affine made.1) in
        Held
          (point_at field bigstep hit.j (made.0 hit.t))
          (le_value (scalar_add_8i a0 (hit_index threads hit)))
  setup_points-scalar_add_8i a0 threads starts hit bytes len small inside room =
      let b = ge_scalarmult_base eight in
      let hb : Represents b 8 = scalarmult_ok eight (omega arith) refl (omega arith) in
      let made =
        setup_points to_fe threads 0 threads (ge_to_cached_affine b) (ge_scalarmult_base a0) b
          starts in
      let first : Represents (ge_scalarmult_base a0) (le_value a0 + 8 * 0) =
        subst (Represents (ge_scalarmult_base a0)) (omega arith)
          (scalarmult_ok a0 bytes len small) in
      let one : Represents b (8 * min (0 + 1) threads) =
        subst (Represents b) (omega (arith, inside)) hb in
      let all =
        setup_points-AreStarts threads 0 threads (le_value a0) b (ge_scalarmult_base a0) b starts
          (omega arith) hb first one in
      let bigstep = to_device_cached to_fe (ge_to_cached_affine made.1) in
      subst (Held (point_at field bigstep hit.j (made.0 hit.t)))
        (sym (index_scalar a0 threads hit bytes len small room))
        (point_at-Held hit.j (le_value a0 + 8 * hit.t) (8 * threads) made.1 (made.0 hit.t) all.big
          (all.written hit.t (omega arith) inside))
