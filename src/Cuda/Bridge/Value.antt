-- ===== src/Cuda/Bridge/Value.antt =====
-- Bridged elements of 32-bit words.
use cpp_onion.Base.{◌%◌, ◌≡◌, refl, sym, ◌∙◌, arith}
use cpp_onion.Crypto.Field.{Fe, fe_to_bytes}
use cpp_onion.Crypto.Field.Value.{prime, value}
use cpp_onion.Crypto.Field.Carry.{IsWord}
use cpp_onion.Crypto.Field.Bytes.{fe_to_bytes_lem}
use cpp_onion.Cuda.Field32.{fed_from_bytes, fed_to_bytes}
use cpp_onion.Cuda.Field32.Loops.{word_value}
use cpp_onion.Cuda.Field32.Sums.{IsElement}
use cpp_onion.Cuda.Field32.Bytes.{fed_from_bytes-value, fed_to_bytes-value}
use cpp_onion.Crypto.Field.Numbers.{le_value-injective}
use cpp_onion.Cuda.Bridge.{to_device_fe32}

to_device_fe32_same : (f : Fe) → to_device_fe32 f ≡ fed_from_bytes (fe_to_bytes f)
unfolding to_device_fe32 fed_from_bytes
to_device_fe32_same f = refl

-- For limbs below 2^60, the words of a bridged element stand for the least residue of the host's
-- element, and the device writes the same bytes for it as the host.
pub fed_to_bytes-to_device_fe32 :
    (f : Fe)
    → IsWord f
    → (word_value (to_device_fe32 f) ≡ value f % prime)
      × IsElement (to_device_fe32 f)
      × (fed_to_bytes (to_device_fe32 f) ≡ fe_to_bytes f)
fed_to_bytes-to_device_fe32 f h =
    let (e, bytes, len) = fe_to_bytes_lem f h in
    let (e', element) = fed_from_bytes-value (fe_to_bytes f) bytes len in
    let (e'', bytes', len') = fed_to_bytes-value (fed_from_bytes (fe_to_bytes f)) element in
    let least : word_value (fed_from_bytes (fe_to_bytes f)) ≡ value f % prime =
      omega (arith, e, e') in
    rw (to_device_fe32_same f) (
      least,
      element,
      le_value-injective _ _ bytes' bytes (len' ∙ sym len) (omega (arith, e, e'', least)),
    )
