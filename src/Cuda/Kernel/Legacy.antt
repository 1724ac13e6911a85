-- ===== src/Cuda/Kernel/Legacy.antt =====
-- The kernel of `ONION_CUDA_NO_FUSED_COMBO`: three arrays for the same inversion.
use cpp_onion.Base.{
  ℕ, zero, suc, ◌*◌, ◌%◌, ◌<◌, ◌≤◌, ◌≡◌, refl, sym, ap, ◌∙◌, arith, List, map, get_or,
}
use cpp_onion.Crypto.Field.Value.{prime, ◌≅◌, cong_mul}
use cpp_onion.Crypto.Incremental.Products.{times_swap, times_assoc, inverse_of_product}
use cpp_onion.Cuda.Device.{DevicePoint, DeviceAddend, DeviceField, madd, invert}
use cpp_onion.Cuda.Device.Power.{Laws, invert-power}
use cpp_onion.Cuda.Kernel.{
  Hits, DevPattern, match_and_record, walk_points, prefixes, prefix_array, legacy_back,
  legacy_thread, search_thread,
}
use cpp_onion.Cuda.Kernel.Walk.{
  point_at, own_y, search_each, AllFinite, z_product, z_product-suc, IsFinite-at, z_product_fermat,
}
use cpp_onion.Cuda.Kernel.Fused.{match_same, same_y, search_thread-each}

module _ {F : Type 0} (field : DeviceField F) (laws : Laws field) (patterns : List DevPattern)
    (step : DeviceAddend F) where
  abbrev zs_of : List (DevicePoint F) → List F
  zs_of = map (λ (p : DevicePoint F). p.z)

  abbrev ys_of : List (DevicePoint F) → List F
  ys_of = map (λ (p : DevicePoint F). p.y)

  points_at :
      (n : ℕ) (cur : DevicePoint F) (i : ℕ) (d : F)
      → i < n
      → (get_or (zs_of (walk_points field step n cur)) i d ≡ (point_at field step i cur).z)
        × (get_or (ys_of (walk_points field step n cur)) i d ≡ (point_at field step i cur).y)
  unfolding walk_points
  points_at zero cur i d h = absurd (omega arith)
  points_at (suc n) cur zero d h = (refl, refl)
  points_at (suc n) cur (suc i) d h = points_at n (madd field cur step) i d (omega arith)

  prefixes_at :
      (n : ℕ) (cur : DevicePoint F) (last : F) (i : ℕ) (d : F)
      → AllFinite field step laws n cur
      → laws.IsOk last
      → i < n
      → let x = get_or (prefixes field last (zs_of (walk_points field step n cur))) i d in
        (laws.value_of x ≅ laws.value_of last * z_product field step laws (suc i) cur) × laws.IsOk x
  unfolding walk_points prefixes
  prefixes_at zero cur last i d h ok k = absurd (omega arith)
  prefixes_at (suc n) cur last zero d h ok k =
      let (e, ok') = laws.mul_law last cur.z ok h.0.z_ok in
      (e ∙ ap (λ (t : ℕ). t % prime) (omega arith), ok')
  prefixes_at (suc n) cur last (suc i) d h ok k =
      let (e, ok') = laws.mul_law last cur.z ok h.0.z_ok in
      let (e', ok'') =
        prefixes_at n (madd field cur step) (field.mul last cur.z) i d h.1 ok' (omega arith) in
      (
        e'
            ∙ cong_mul _ (laws.value_of last * laws.value_of cur.z) _ _ e refl
            ∙ ap (λ (t : ℕ). t % prime) (times_assoc (laws.value_of last) _ _),
        ok'',
      )

  prefix_at :
      (n : ℕ) (cur : DevicePoint F) (i : ℕ) (d : F)
      → AllFinite field step laws n cur
      → i < n
      → let x = get_or (prefix_array field (zs_of (walk_points field step n cur))) i d in
        (laws.value_of x ≅ z_product field step laws (suc i) cur) × laws.IsOk x
  unfolding walk_points prefix_array
  prefix_at zero cur i d h k = absurd (omega arith)
  prefix_at (suc n) cur zero d h k = (ap (λ (t : ℕ). t % prime) (omega arith), h.0.z_ok)
  prefix_at (suc n) cur (suc i) d h k =
      prefixes_at n (madd field cur step) cur.z i d h.1 h.0.z_ok (omega arith)

  module _ (m : ℕ) (cur : DevicePoint F) (t : ℕ) (finite : AllFinite field step laws m cur) where
    abbrev ys : List F
    ys = ys_of (walk_points field step m cur)

    abbrev zs : List F
    zs = zs_of (walk_points field step m cur)

    abbrev prefix : List F
    prefix = prefix_array field zs

    abbrev zp : ℕ → ℕ
    zp i = z_product field step laws i cur

    abbrev at : ℕ → DevicePoint F
    at i = point_at field step i cur

    -- A round with an inverse of Z.
    round :
        (i : ℕ) (zinv d : F) (h : Hits)
        → i < m
        → laws.IsOk zinv
        → laws.value_of zinv * laws.value_of (at i).z ≅ 1
        → match_and_record field patterns (field.mul (get_or ys i d) zinv) t i h
          ≡ match_and_record field patterns (own_y field step (at i)) t i h
    round i zinv d h k ok unit =
        let fin = IsFinite-at field step laws m cur i finite k in
        let (e, ok_y) = laws.mul_law (at i).y zinv fin.y_ok ok in
        let (same, own_ok) =
          same_y field laws patterns step (at i) (field.mul (at i).y zinv) (laws.value_of zinv) fin
            ok_y e unit in
        ap (λ (y : F). match_and_record field patterns (field.mul y zinv) t i h)
          (points_at m cur i d k).1
        ∙ match_same field laws patterns step (field.mul (at i).y zinv) _ t i h ok_y own_ok same

    back_lem :
        (i : ℕ) (inv : F) (h : Hits)
        → i ≤ m
        → laws.IsOk inv
        → laws.value_of inv * zp i ≅ 1
        → legacy_back field patterns ys zs prefix t i inv h
          ≡ search_each field step patterns t cur i h
    unfolding legacy_back
    back_lem zero inv h k ok unit = refl
    back_lem (suc zero) inv h k ok unit =
        round 0 inv inv h k ok (ap (λ (n : ℕ). laws.value_of inv * n % prime) (omega arith) ∙ unit)
    back_lem (suc (suc i)) inv h k ok unit =
        let z = (at (suc i)).z in
        let fin = IsFinite-at field step laws m cur (suc i) finite k in
        let r = laws.value_of inv in
        let whole : r * (zp (suc i) * laws.value_of z) ≅ 1 =
          ap (λ (n : ℕ). r * n % prime) (sym (z_product-suc field step laws (suc i) cur)) ∙ unit in
        let (e, ok') = laws.mul_law inv z ok fin.z_ok in
        let (e_pre, ok_pre) = prefix_at m cur i inv finite (omega arith) in
        let (e_zinv, ok_zinv) = laws.mul_law inv (get_or prefix i inv) ok ok_pre in
        let next : laws.value_of (field.mul inv z) * zp (suc i) ≅ 1 =
          cong_mul _ (r * laws.value_of z) (zp (suc i)) (zp (suc i)) e refl
          ∙ ap (λ (n : ℕ). n % prime) (times_swap r (laws.value_of z) (zp (suc i)))
          ∙ whole in
        let unit' : laws.value_of (field.mul inv (get_or prefix i inv)) * laws.value_of z ≅ 1 =
          cong_mul _ (r * zp (suc i)) _ _ (e_zinv ∙ cong_mul r r _ _ refl e_pre) refl
          ∙ ap (λ (n : ℕ). n % prime) (times_assoc r (zp (suc i)) (laws.value_of z))
          ∙ whole in
        ap
          (λ (w : F). legacy_back field patterns ys zs prefix t (suc i) (field.mul inv w) (
            match_and_record field patterns
              (field.mul (get_or ys (suc i) inv) (field.mul inv (get_or prefix i inv))) t (suc i)
              h))
          (points_at m cur (suc i) inv k).0
        ∙ back_lem (suc i) (field.mul inv z) _ (omega arith) ok' next
        ∙ ap (search_each field step patterns t cur (suc i))
            (round (suc i) (field.mul inv (get_or prefix i inv)) inv h k ok_zinv unit')

  legacy_thread-each :
      (m t : ℕ) (cur : DevicePoint F) (h : Hits)
      → 0 < m
      → AllFinite field step laws m cur
      → legacy_thread field patterns m t cur step h ≡ search_each field step patterns t cur m h
  unfolding legacy_thread
  legacy_thread-each zero t cur h pos finite = absurd (omega arith)
  legacy_thread-each (suc n) t cur h pos finite =
      let last = get_or (prefix (suc n) cur t finite) n cur.z in
      let (e, ok) = prefix_at (suc n) cur n cur.z finite (omega arith) in
      let (power, inv_ok) = invert-power field laws last ok in
      let zp = z_product field step laws (suc n) cur in
      ap
        (λ (k : ℕ).
          legacy_back field patterns (ys (suc n) cur t finite) (zs (suc n) cur t finite)
            (prefix (suc n) cur t finite) t (suc n)
            (invert field (get_or (prefix (suc n) cur t finite) k cur.z)) h)
        (omega arith)
      ∙ back_lem (suc n) cur t finite (suc n) (invert field last) h (omega arith) inv_ok (
          inverse_of_product (laws.value_of last) zp (laws.value_of (invert field last)) e power
            (z_product_fermat field step laws (suc n) cur finite))

  -- If every point of the walk has an invertible Z, both kernels leave the same slots and the same
  -- count.
  pub search_thread-legacy_thread :
      (m t : ℕ) (cur : DevicePoint F) (h : Hits)
      → 0 < m
      → AllFinite field step laws m cur
      → search_thread field patterns m t cur step h ≡ legacy_thread field patterns m t cur step h
  search_thread-legacy_thread m t cur h pos finite =
      search_thread-each field laws patterns step m t cur h finite
      ∙ sym (legacy_thread-each m t cur h pos finite)
