-- ===== src/Cuda/Device.antt =====
-- What device_field.cuh and device_field32.cuh both offer to the kernels, which are compiled with
-- one of them; and `fed_invert` and `ged_madd`, which the two files spell with the same words.
pub mod Power
use cpp_onion.Base.{ℕ, zero, suc, List, ◌∷◌, replicate}

-- `GeP3`
pub record DevicePoint (F : Type 0) : Type 0 where
  pub x : F
  pub y : F
  pub z : F
  pub t : F

-- `GeCachedAffine`
pub record DeviceAddend (F : Type 0) : Type 0 where
  pub y_plus_x : F
  pub y_minus_x : F
  pub t2d : F

-- `one_bytes` of `search_kernel`.
abbrev pub one_bytes : List ℕ
one_bytes = 1 ∷ replicate 31 0

pub record DeviceField (F : Type 0) : Type 0 where
  pub from_bytes : List ℕ → F
  pub to_bytes : F → List ℕ
  pub add : F → F → F
  pub sub : F → F → F
  pub mul : F → F → F
  pub sq : F → F

module _ {F : Type 0} (field : DeviceField F) where
  -- `t = fed_sq(t)`, `n` times.
  unfoldable pub sq_times : ℕ → F → F
  sq_times zero t = t
  sq_times (suc n) t = sq_times n (field.sq t)

  -- `fed_invert`
  unfoldable pub invert : F → F
  unfolding sq_times
  invert z =
      let mul = field.mul in
      let z2 = field.sq z in
      let z9 = mul (sq_times 2 z2) z in
      let z11 = mul z9 z2 in
      let z2_5_0 = mul (field.sq z11) z9 in
      let z2_10_0 = mul (sq_times 5 z2_5_0) z2_5_0 in
      let z2_20_0 = mul (sq_times 10 z2_10_0) z2_10_0 in
      let z2_40_0 = mul (sq_times 20 z2_20_0) z2_20_0 in
      let z2_50_0 = mul (sq_times 10 z2_40_0) z2_10_0 in
      let z2_100_0 = mul (sq_times 50 z2_50_0) z2_50_0 in
      let z2_200_0 = mul (sq_times 100 z2_100_0) z2_100_0 in
      let z2_250_0 = mul (sq_times 50 z2_200_0) z2_50_0 in mul (sq_times 5 z2_250_0) z11

  -- `ged_madd`
  unfoldable pub madd : DevicePoint F → DeviceAddend F → DevicePoint F
  madd p q =
      let a = field.mul (field.sub p.y p.x) q.y_minus_x in
      let b = field.mul (field.add p.y p.x) q.y_plus_x in
      let c = field.mul q.t2d p.t in
      let d = field.add p.z p.z in
      let e = field.sub b a in
      let f = field.sub d c in
      let g = field.add d c in
      let h = field.add b a in
      record { x = field.mul e f; y = field.mul g h; z = field.mul f g; t = field.mul e h }
