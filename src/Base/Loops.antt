-- ===== src/Base/Loops.antt =====
-- Counted loops.
use Prim.Native.Nat.{ℕ, zero, suc, ◌+◌}

-- `for (k = i; k < i + n * step; k += step) s = body k s`
unfoldable pub for_range {ℓ} : {S : Type ℓ} → ℕ → ℕ → ℕ → (ℕ → S → S) → S → S
for_range zero i step body s = s
for_range (suc n) i step body s = for_range n (i + step) step body (body i s)
