-- ===== src/Base/Bytes.antt =====
-- Consecutive bytes stored in a memory, and what they leave there.
use fusee_os.Base.{
  ℕ, zero, suc, ◌+◌, ◌≤◌, ◌<◌, ◌≡◌, refl, ◌∙◌, ap, ◌⊎◌, arith, List, [], ◌∷◌, length, get_or,
  Memory, store,
}

-- The bytes `bs` stored from address `a` on.
pub write_bytes : Memory → ℕ → List ℕ → Memory
write_bytes m a [] = m
write_bytes m a (b ∷ bs) = write_bytes (store m a b) (a + 1) bs

pub write_bytes_outside :
    (m : Memory) (a : ℕ) (bs : List ℕ) (k : ℕ)
    → (k < a) ⊎ (a + length bs ≤ k)
    → write_bytes m a bs k ≡ m k
unfolding write_bytes
write_bytes_outside m a [] k h = refl
write_bytes_outside m a (b ∷ bs) k h =
    write_bytes_outside (store m a b) (a + 1) bs k (omega arith) ∙ ground arith

pub write_bytes_inside :
    (m : Memory) (a : ℕ) (bs : List ℕ) (i : ℕ)
    → i < length bs
    → write_bytes m a bs (a + i) ≡ get_or bs i 0
unfolding write_bytes
write_bytes_inside m a [] i h = absurd (omega arith)
write_bytes_inside m a (b ∷ bs) zero h =
    write_bytes_outside (store m a b) (a + 1) bs (a + 0) (omega arith) ∙ ground arith
write_bytes_inside m a (b ∷ bs) (suc i) h =
    ap (write_bytes (store m a b) (a + 1) bs) (omega arith)
    ∙ write_bytes_inside (store m a b) (a + 1) bs i (omega arith)
