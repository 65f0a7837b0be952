-- ===== src/Libc.antt =====
-- The C library's string functions (src/libc/string) over a byte memory. Addresses do not wrap,
-- and a loop over a counter is given by the rounds that are left and the index.
pub mod Copy
mod Tests
pub mod Compare
use fusee_os.Base.{
  ℕ, zero, suc, ◌+◌, ◌-◌, Bool, ◌||◌, Option, none, some, ltb, leb, ◌==◌, if◌then◌else◌, u8, Memory,
  store, ℤ, pos, sub_ℕ,
}

-- `for (i ...; i < size; ++i) dst[i] = src[i]`, from index `i` with `n` rounds left.
pub copy_up : ℕ → ℕ → Memory → ℕ → ℕ → Memory
copy_up zero i m dst src = m
copy_up (suc n) i m dst src = copy_up n (i + 1) (store m (dst + i) (m (src + i))) dst src

-- The loop of `memmove` from the end: `size - i - 1` is the index that is copied.
pub copy_down : ℕ → ℕ → ℕ → Memory → ℕ → ℕ → Memory
copy_down zero i size m dst src = m
copy_down (suc n) i size m dst src =
    copy_down n (i + 1) size (store m (dst + (size - i - 1)) (m (src + (size - i - 1)))) dst src

-- The value returned is `dst + size`, beside the new memory.
pub memcpy : Memory → ℕ → ℕ → ℕ → Memory × ℕ
memcpy m dst src size = (copy_up size 0 m dst src, dst + size)

pub memmove : Memory → ℕ → ℕ → ℕ → Memory × ℕ
memmove m dst src size =
    if ltb dst src || leb (src + size) dst
    then (copy_up size 0 m dst src, dst + size)
    else (copy_down size 0 size m dst src, dst + size)

pub fill : ℕ → ℕ → Memory → ℕ → ℕ → Memory
fill zero i m dst c = m
fill (suc n) i m dst c = fill n (i + 1) (store m (dst + i) (u8 c)) dst c

pub memset : Memory → ℕ → ℕ → ℕ → Memory × ℕ
memset m dst c size = (fill size 0 m dst c, dst + size)

pub bzero : Memory → ℕ → ℕ → Memory
unfolding memset
bzero m dst size = (memset m dst 0 size).0

-- `memcmp` from index `i` with `n` rounds left.
unfoldable pub compare_from : ℕ → ℕ → Memory → ℕ → ℕ → ℤ
compare_from zero i m s1 s2 = pos 0
compare_from (suc n) i m s1 s2 =
    if m (s1 + i) == m (s2 + i)
    then compare_from n (i + 1) m s1 s2
    else sub_ℕ (m (s2 + i)) (m (s1 + i))

unfoldable pub memcmp : Memory → ℕ → ℕ → ℕ → ℤ
memcmp m s1 s2 n = compare_from n 0 m s1 s2

-- `strlen` from index `i`; `none` means that the fuel ran out.
pub strlen_from : ℕ → Memory → ℕ → ℕ → Option ℕ
strlen_from zero m str i = none
strlen_from (suc f) m str i = if m (str + i) == 0 then some i else strlen_from f m str (i + 1)

pub strlen : ℕ → Memory → ℕ → Option ℕ
strlen fuel m str = strlen_from fuel m str 0

-- `strcmp`'s loop. The source never changes `i`.
pub strcmp_from : ℕ → Memory → ℕ → ℕ → ℕ → Option ℤ
strcmp_from zero m s1 s2 i = none
strcmp_from (suc f) m s1 s2 i =
    let c1 = m (s1 + i) in
    let c2 = m (s2 + i) in
    let again = strcmp_from f m s1 s2 i in
    if c1 == c2 then (if c1 == 0 then some (pos 0) else again) else some (sub_ℕ c2 c1)

pub strcmp : ℕ → Memory → ℕ → ℕ → Option ℤ
strcmp fuel m s1 s2 = strcmp_from fuel m s1 s2 0
