-- ===== src/Avx2/Point.antt =====
-- src/crypto/ge25519x4.hpp and src/crypto/ge25519x4.cpp, one lane of four, and `fe4_invert` of
-- src/crypto/fe25519x4.cpp. `fe4_invert` and `ge_madd_x4` are spelled with the words of `fed_invert`
-- and `ged_madd`, over the operations of the lanes.
pub mod Laws
use cpp_onion.Base.{ℕ, List}
use cpp_onion.Crypto.Field.{Fe, fe_from_bytes, fe_to_bytes}
use cpp_onion.Crypto.Point.{GeP3, GeCachedAffine}
use cpp_onion.Cuda.Device.{DevicePoint, DeviceAddend, DeviceField, invert, madd}
use cpp_onion.Avx2.Lane.{Lane, lane_add, lane_sub, lane_mul, lane_sq}
use cpp_onion.Avx2.Store.{expand, contract}

-- The operations of a lane.
unfoldable pub lane_field : DeviceField Lane
lane_field = record {
  from_bytes = expand;
  to_bytes = contract;
  add = lane_add;
  sub = lane_sub;
  mul = lane_mul;
  sq = lane_sq;
}

-- `fe4_invert`
unfoldable pub lane_invert : Lane → Lane
lane_invert = invert lane_field

-- `ge_madd_x4`
unfoldable pub lane_madd : DevicePoint Lane → DeviceAddend Lane → DevicePoint Lane
lane_madd = madd lane_field

-- A coordinate goes into a lane, and out of it, as bytes.
unfoldable pub load_lane : Fe → Lane
load_lane f = expand (fe_to_bytes f)

unfoldable pub extract_lane : Lane → Fe
extract_lane f = fe_from_bytes (contract f)

unfoldable pub pack_lane : GeP3 → DevicePoint Lane
pack_lane p = record { x = load_lane p.x; y = load_lane p.y; z = load_lane p.z; t = load_lane p.t }

unfoldable pub broadcast_lane : GeCachedAffine → DeviceAddend Lane
broadcast_lane q = record {
  y_plus_x = load_lane q.y_plus_x;
  y_minus_x = load_lane q.y_minus_x;
  t2d = load_lane q.t2d;
}

unfoldable pub unpack_lane : DevicePoint Lane → GeP3
unpack_lane p = record {
  x = extract_lane p.x;
  y = extract_lane p.y;
  z = extract_lane p.z;
  t = extract_lane p.t;
}
