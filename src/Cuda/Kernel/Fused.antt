-- ===== src/Cuda/Kernel/Fused.antt =====
-- The default kernel: one inversion for all the points of a thread.
use cpp_onion.Base.{
  ℕ, zero, suc, ◌-◌, ◌*◌, ◌%◌, ◌^◌, ◌<◌, ◌≤◌, ◌≡◌, refl, sym, ap, ◌∙◌, arith, List, get_or,
}
use native.Mathlib.Nat.{pow-suc}
use cpp_onion.Crypto.Field.Value.{prime, ◌≅◌, cong_mul}
use cpp_onion.Crypto.Incremental.Products.{
  inverse_unique, times_swap, times_assoc, inverse_of_product,
}
use cpp_onion.Cuda.Device.{DevicePoint, DeviceAddend, DeviceField, invert, one_bytes}
use cpp_onion.Cuda.Device.Power.{Laws, invert-power}
use cpp_onion.Cuda.Kernel.{
  Hits, DevPattern, Forward, match_patterns, match_and_record, forward, fused_back, search_thread,
}
use cpp_onion.Cuda.Kernel.Walk.{
  point_at, own_y, search_each, IsFinite, AllFinite, z_product, z_product-suc, IsFinite-at,
  z_product_fermat, forward-pe, forward_at,
}

module _ {F : Type 0} (field : DeviceField F) (laws : Laws field) (patterns : List DevPattern)
    (step : DeviceAddend F) where
  -- Equal bytes are matched alike.
  pub match_same :
      (a b : F) (t j : ℕ) (h : Hits)
      → laws.IsOk a
      → laws.IsOk b
      → laws.value_of a ≅ laws.value_of b
      → match_and_record field patterns a t j h ≡ match_and_record field patterns b t j h
  unfolding match_and_record
  match_same a b t j h ha hb e =
      ap (λ (enc : List ℕ). match_patterns enc t j 0 patterns h) (laws.bytes_law a b ha hb e)

  -- An inverse of Z, times Y, stands for the affine y.
  pub same_y :
      (p : DevicePoint F) (y : F) (inv : ℕ)
      → IsFinite field step laws p
      → laws.IsOk y
      → laws.value_of y ≅ laws.value_of p.y * inv
      → inv * laws.value_of p.z ≅ 1
      → (laws.value_of y ≅ laws.value_of (own_y field step p)) × laws.IsOk (own_y field step p)
  same_y p y inv fin ok e unit =
      let z = laws.value_of p.z in
      let (power, inv_ok) = invert-power field laws p.z fin.z_ok in
      let (e', ok') = laws.mul_law p.y (invert field p.z) fin.y_ok inv_ok in
      let own : laws.value_of (invert field p.z) * z ≅ 1 =
        cong_mul _ (z ^ (prime - 2)) z z power refl
        ∙ ap (λ (t : ℕ). t % prime) (sym (pow-suc z (prime - 2)))
        ∙ fin.fermat in
      (
        e
            ∙ cong_mul (laws.value_of p.y) (laws.value_of p.y) _ _ refl
                (inverse_unique inv (laws.value_of (invert field p.z)) z unit own)
            ∙ sym e',
        ok',
      )

  module _ (m : ℕ) (cur : DevicePoint F) (t : ℕ) (finite : AllFinite field step laws m cur) where
    abbrev walk : Forward F
    walk = forward field step m cur (field.from_bytes one_bytes)

    abbrev zp : ℕ → ℕ
    zp i = z_product field step laws i cur

    abbrev at : ℕ → DevicePoint F
    at i = point_at field step i cur

    at_index :
        (i : ℕ) (d : F)
        → i < m
        → (get_or walk.zs i d ≡ (at i).z)
          × (laws.value_of (get_or walk.combo i d) ≅ laws.value_of (at i).y * zp i)
          × laws.IsOk (get_or walk.combo i d)
    at_index i d h =
        let (one, ok) = laws.one_law in
        let (z, combo, ok') =
          forward_at field step laws m cur (field.from_bytes one_bytes) i d finite ok h in
        (
          z,
          combo
              ∙ cong_mul (laws.value_of (at i).y) _ _ _ refl
                  (cong_mul _ 1 (zp i) (zp i) one refl ∙ ap (λ (n : ℕ). n % prime) (omega arith)),
          ok',
        )

    -- A round with an inverse of the product so far.
    round :
        (i : ℕ) (run d : F) (h : Hits)
        → i < m
        → laws.IsOk run
        → laws.value_of run * zp (suc i) ≅ 1
        → match_and_record field patterns (field.mul run (get_or walk.combo i d)) t i h
          ≡ match_and_record field patterns (own_y field step (at i)) t i h
    round i run d h k ok unit =
        let (z, combo, ok_combo) = at_index i d k in
        let fin = IsFinite-at field step laws m cur i finite k in
        let (e, ok_y) = laws.mul_law run (get_or walk.combo i d) ok ok_combo in
        let r = laws.value_of run in
        let y = laws.value_of (at i).y in
        let (same, own_ok) =
          same_y (at i) (field.mul run (get_or walk.combo i d)) (r * zp i) fin ok_y
            (e ∙ cong_mul r r _ _ refl combo ∙ ap (λ (n : ℕ). n % prime) (omega arith))
            (ap (λ (n : ℕ). n % prime) (times_assoc r (zp i) (laws.value_of (at i).z))
              ∙ ap (λ (n : ℕ). r * n % prime) (sym (z_product-suc field step laws i cur))
              ∙ unit) in
        match_same _ _ t i h ok_y own_ok same

    back_lem :
        (i : ℕ) (run : F) (h : Hits)
        → i ≤ m
        → laws.IsOk run
        → laws.value_of run * zp i ≅ 1
        → fused_back field patterns walk.combo walk.zs t i run h
          ≡ search_each field step patterns t cur i h
    unfolding fused_back
    back_lem zero run h k ok unit = refl
    back_lem (suc zero) run h k ok unit = round 0 run run h k ok unit
    back_lem (suc (suc i)) run h k ok unit =
        let z = (at (suc i)).z in
        let (same_z, combo, ok_combo) = at_index (suc i) run k in
        let fin = IsFinite-at field step laws m cur (suc i) finite k in
        let (e, ok') = laws.mul_law run z ok fin.z_ok in
        let r = laws.value_of run in
        let unit' : laws.value_of (field.mul run z) * zp (suc i) ≅ 1 =
          cong_mul _ (r * laws.value_of z) (zp (suc i)) (zp (suc i)) e refl
          ∙ ap (λ (n : ℕ). n % prime) (times_swap r (laws.value_of z) (zp (suc i)))
          ∙ ap (λ (n : ℕ). r * n % prime) (sym (z_product-suc field step laws (suc i) cur))
          ∙ unit in
        ap
          (λ (w : F). fused_back field patterns walk.combo walk.zs t (suc i) (field.mul run w) (
            match_and_record field patterns (field.mul run (get_or walk.combo (suc i) run)) t
              (suc i) h))
          same_z
        ∙ back_lem (suc i) (field.mul run z) _ (omega arith) ok' unit'
        ∙ ap (search_each field step patterns t cur (suc i)) (round (suc i) run run h k ok unit)

  -- If every point of the walk has an invertible Z, a thread records what it would record if each point
  -- were inverted by itself, the last one first.
  pub search_thread-each :
      (m t : ℕ) (cur : DevicePoint F) (h : Hits)
      → AllFinite field step laws m cur
      → search_thread field patterns m t cur step h ≡ search_each field step patterns t cur m h
  unfolding search_thread
  search_thread-each m t cur h finite =
      let (one, ok) = laws.one_law in
      let w = forward field step m cur (field.from_bytes one_bytes) in
      let (e, ok_pe) = forward-pe field step laws m cur (field.from_bytes one_bytes) finite ok in
      let zp = z_product field step laws m cur in
      let same : laws.value_of w.pe ≅ zp =
        e ∙ cong_mul _ 1 zp zp one refl ∙ ap (λ (n : ℕ). n % prime) (omega arith) in
      let (power, inv_ok) = invert-power field laws w.pe ok_pe in
      back_lem m cur t finite m (invert field w.pe) h (omega arith) inv_ok (
        inverse_of_product (laws.value_of w.pe) zp (laws.value_of (invert field w.pe)) same power
          (z_product_fermat field step laws m cur finite))
