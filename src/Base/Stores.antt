-- ===== src/Base/Stores.antt =====
-- Byte memories: a byte for each address.
use Prim.Native.Nat.{ℕ, zero, suc, ◌+◌, ◌<◌}
use mathlib.Core.Path.{◌≡◌, refl, ap, ◌∙◌}
use native.Mathlib.Omega.{arith}
use fusee_os.Base.Lists.{length, get_or}
use fusee_os.Base.Tests.{◌==◌, if◌then◌else◌}
use mathlib.Core.List.{List, [], ◌∷◌}

abbrev pub Memory : Type 0
Memory = ℕ → ℕ

abbrev pub store {ℓ} : {A : Type ℓ} → (ℕ → A) → ℕ → A → ℕ → A
store m a v b = if b == a then v else m b

-- The `n` bytes from address `a` on.
pub bytes_at : Memory → ℕ → ℕ → List ℕ
bytes_at m a zero = []
bytes_at m a (suc n) = m a ∷ bytes_at m (a + 1) n

pub length-bytes_at : (m : Memory) (a n : ℕ) → length (bytes_at m a n) ≡ n
unfolding bytes_at
length-bytes_at m a zero = refl
length-bytes_at m a (suc n) = ap suc (length-bytes_at m (a + 1) n)

pub get_or-bytes_at : (m : Memory) (a n i : ℕ) → i < n → get_or (bytes_at m a n) i 0 ≡ m (a + i)
unfolding bytes_at
get_or-bytes_at m a zero i h = absurd (omega arith)
get_or-bytes_at m a (suc n) zero h = ap m (omega arith)
get_or-bytes_at m a (suc n) (suc i) h =
    get_or-bytes_at m (a + 1) n i (omega arith) ∙ ap m (omega arith)
