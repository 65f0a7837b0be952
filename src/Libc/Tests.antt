-- ===== src/Libc/Tests.antt =====
-- The string functions on small memories, and their theorems there.
use fusee_os.Base.{
  ℕ, ◌+◌, ◌<◌, ◌≡◌, refl, arith, ◌==◌, if◌then◌else◌, Memory, none, some, pos, sub_ℕ,
}
use fusee_os.Libc.{memcpy, memmove, memcmp, strcmp, copy_up, copy_down, compare_from, strcmp_from}
use fusee_os.Libc.Copy.{IsCopied, memmove-IsCopied}
use fusee_os.Libc.Compare.{memcmp_first_difference, strcmp_first_bytes}

-- "abc" at 16 and "abd" at 32.
abbrev memory : Memory
memory a =
    if a == 16
    then 97
    else if a == 17
    then 98
    else if a == 18
    then 99
    else if a == 32
    then 97
    else if a == 33
    then 98
    else if a == 34
    then 100
    else 0

memcpy_runs : (memcpy memory 64 16 3).0 66 ≡ 99
unfolding memcpy copy_up
memcpy_runs = refl

-- One up, over itself.
memmove_runs : (memmove memory 17 16 3).0 19 ≡ 99
unfolding memmove copy_down
memmove_runs = refl

memcmp_runs : memcmp memory 16 32 3 ≡ pos 1
unfolding memcmp compare_from
memcmp_runs = refl

strcmp_runs : strcmp 1000 memory 16 16 ≡ none
unfolding strcmp strcmp_from
strcmp_runs = refl

memmove-IsCopied_example :
    IsCopied memory 17 16 3 (memmove memory 17 16 3).0 × ((memmove memory 17 16 3).1 ≡ 17 + 3)
memmove-IsCopied_example = memmove-IsCopied memory 17 16 3

memcmp_first_difference_example : memcmp memory 16 32 3 ≡ sub_ℕ 100 99
memcmp_first_difference_example =
    memcmp_first_difference memory 16 32 3 2 (omega arith) (λ k h. same k h) (omega arith)
  where
    same : (k : ℕ) → k < 2 → memory (16 + k) ≡ memory (32 + k)
    same k h = ground arith

strcmp_first_bytes_example : strcmp 1000 memory 16 32 ≡ (
    if memory 16 == memory 32
    then (if memory 16 == 0 then some (pos 0) else none)
    else some (sub_ℕ 97 97))
strcmp_first_bytes_example = strcmp_first_bytes memory 16 32 999
