-- ===== src/Cuda/Kernel/Walk.antt =====
-- The points that a thread walks over, and the products of their Z.
use cpp_onion.Base.{ℕ, zero, suc, ◌-◌, ◌*◌, ◌%◌, ◌^◌, ◌<◌, ◌≡◌, refl, ap, ◌∙◌, arith, List, get_or}
use cpp_onion.Crypto.Field.Value.{prime, ◌≅◌, cong_mul}
use cpp_onion.Crypto.Incremental.Products.{pow_mul, one_pow, times_assoc}
use cpp_onion.Cuda.Device.{DevicePoint, DeviceAddend, DeviceField, invert, madd}
use cpp_onion.Cuda.Device.Power.{Laws}
use cpp_onion.Cuda.Kernel.{Hits, DevPattern, match_and_record, forward}

module _ {F : Type 0} (field : DeviceField F) (step : DeviceAddend F) where
  -- The point after `i` steps.
  abbrev pub point_at : ℕ → DevicePoint F → DevicePoint F
  point_at zero cur = cur
  point_at (suc i) cur = point_at i (madd field cur step)

  -- Its affine y, with an inversion of its own.
  abbrev pub own_y : DevicePoint F → F
  own_y p = field.mul p.y (invert field p.z)

  -- The points of a thread, the last one first, each with an inversion of its own.
  abbrev pub search_each : List DevPattern → ℕ → DevicePoint F → ℕ → Hits → Hits
  search_each patterns t cur zero h = h
  search_each patterns t cur (suc i) h =
      search_each patterns t cur i (match_and_record field patterns (own_y (point_at i cur)) t i h)

  module _ (laws : Laws field) where
    -- A point whose Z is invertible, by Fermat's little theorem at Z.
    pub record IsFinite (p : DevicePoint F) : Type 0 where
      pub y_ok : laws.IsOk p.y
      pub z_ok : laws.IsOk p.z
      pub fermat : laws.value_of p.z ^ (prime - 1) ≅ 1

    -- The first `n` points of a walk.
    abbrev pub AllFinite : ℕ → DevicePoint F → Type 0
    AllFinite zero cur = Unit {0}
    AllFinite (suc n) cur = IsFinite cur × AllFinite n (madd field cur step)

    -- The product of the first `n` Z.
    abbrev pub z_product : ℕ → DevicePoint F → ℕ
    z_product zero cur = 1
    z_product (suc n) cur = laws.value_of cur.z * z_product n (madd field cur step)

    pub z_product-suc :
        (n : ℕ) (cur : DevicePoint F)
        → z_product (suc n) cur ≡ z_product n cur * laws.value_of (point_at n cur).z
    z_product-suc zero cur = omega arith
    z_product-suc (suc n) cur =
        ap (λ (t : ℕ). laws.value_of cur.z * t) (z_product-suc n (madd field cur step))
        ∙ omega arith

    pub IsFinite-at :
        (n : ℕ) (cur : DevicePoint F) (i : ℕ) → AllFinite n cur → i < n → IsFinite (point_at i cur)
    IsFinite-at zero cur i h k = absurd (omega arith)
    IsFinite-at (suc n) cur zero h k = h.0
    IsFinite-at (suc n) cur (suc i) h k = IsFinite-at n (madd field cur step) i h.1 (omega arith)

    pub z_product_fermat :
        (n : ℕ) (cur : DevicePoint F) → AllFinite n cur → z_product n cur ^ (prime - 1) ≅ 1
    z_product_fermat zero cur h = ap (λ (t : ℕ). t % prime) (one_pow (prime - 1))
    z_product_fermat (suc n) cur h =
        ap (λ (t : ℕ). t % prime) (pow_mul (laws.value_of cur.z) _ (prime - 1))
        ∙ cong_mul _ 1 _ 1 (h.0.fermat) (z_product_fermat n (madd field cur step) h.1)

    -- The product that the forward loop ends with.
    pub forward-pe :
        (n : ℕ) (cur : DevicePoint F) (pe : F)
        → AllFinite n cur
        → laws.IsOk pe
        → let r = forward field step n cur pe in
          (laws.value_of r.pe ≅ laws.value_of pe * z_product n cur) × laws.IsOk r.pe
    unfolding forward
    forward-pe zero cur pe h ok = (ap (λ (t : ℕ). t % prime) (omega arith), ok)
    forward-pe (suc n) cur pe h ok =
        let (e, ok') = laws.mul_law pe cur.z ok h.0.z_ok in
        let (e', last) = forward-pe n (madd field cur step) (field.mul pe cur.z) h.1 ok' in
        (
          e'
              ∙ cong_mul _ (laws.value_of pe * laws.value_of cur.z) _ _ e refl
              ∙ ap (λ (t : ℕ). t % prime) (times_assoc (laws.value_of pe) _ _),
          last,
        )

    -- What the forward loop stores at index `i`.
    pub forward_at :
        (n : ℕ) (cur : DevicePoint F) (pe : F) (i : ℕ) (d : F)
        → AllFinite n cur
        → laws.IsOk pe
        → i < n
        → let r = forward field step n cur pe in
          (get_or r.zs i d ≡ (point_at i cur).z)
          × (laws.value_of (get_or r.combo i d)
              ≅ laws.value_of (point_at i cur).y * (laws.value_of pe * z_product i cur))
          × laws.IsOk (get_or r.combo i d)
    unfolding forward
    forward_at zero cur pe i d h ok k = absurd (omega arith)
    forward_at (suc n) cur pe zero d h ok k =
        let (e, ok') = laws.mul_law cur.y pe h.0.y_ok ok in
        (refl, e ∙ ap (λ (t : ℕ). t % prime) (omega arith), ok')
    forward_at (suc n) cur pe (suc i) d h ok k =
        let (e, ok') = laws.mul_law pe cur.z ok h.0.z_ok in
        let next = madd field cur step in
        let (same, e', last) = forward_at n next (field.mul pe cur.z) i d h.1 ok' (omega arith) in
        (
          same,
          e'
              ∙ cong_mul _ _ _ _ refl (
                  cong_mul _ (laws.value_of pe * laws.value_of cur.z) _ (z_product i next) e refl
                  ∙ ap (λ (t : ℕ). t % prime) (times_assoc (laws.value_of pe) _ _)),
          last,
        )
