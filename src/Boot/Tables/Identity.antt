-- ===== src/Boot/Tables/Identity.antt =====
-- The first 4 GiB after `memory_identity_map`.
use mathlib.Core.Path.{subst}
use fusee_os.Base.{
  ℕ, zero, suc, ◌+◌, ◌*◌, ◌/◌, ◌%◌, ◌≤◌, ◌<◌, ◌^◌, ◌≡◌, ◌≢◌, refl, sym, ap, ap₂, ◌∙◌, arith, some,
  ◌&&◌, ◌==◌, if◌then◌else◌,
}
use fusee_os.Paging.Physical.Entries.{frame, root_of, translate, resolve_2mb}
use fusee_os.Boot.{zero_page, alloc_page_hi, identity_entry}
use fusee_os.Boot.Tables.{Loader, identity_from, identity_dirs, take_hi, memory_identity_map}
use fusee_os.Boot.Tables.Directory.{
  fresh, fresh_entry, directory_of, directory_of-entry, identity_from-directory_of,
  identity_from-root, identity_entry-sum,
}

-- The first `i` directories of the identity map, in the pages behind the table `pdp`.
record Built (root pdp i : ℕ) (s : Loader) : Type 0 where
  root_page : s.cr3 ≡ root
  top : s.dirs s.cr3 0 ≡ pdp + 3
  tables : (m : ℕ) → m < i → s.dirs pdp m ≡ pdp + 4096 + m * 4096 + 3
  empty : (m : ℕ) → i ≤ m → m < 512 → s.dirs pdp m ≡ 0
  pages :
      (m x : ℕ) → m < i → x < 512 → s.dirs (pdp + 4096 + m * 4096) x ≡ (m * 512 + x) * 2 ^ 21 + 131
  next : s.page ≡ pdp + 4096 + i * 4096

directory_of-cr3 : (pdp i : ℕ) (s : Loader) → (directory_of pdp i s).cr3 ≡ s.cr3
unfolding directory_of fresh
directory_of-cr3 pdp i s = refl

directory_of-page : (pdp i : ℕ) (s : Loader) → (directory_of pdp i s).page ≡ s.page + 4096
unfolding directory_of fresh
directory_of-page pdp i s = refl

module _ (pdp root : ℕ) (aligned : pdp % 4096 ≡ 0) (below : pdp + 5 * 4096 ≤ root)
    (fits : root < 2 ^ 52) where
  Built-suc :
      (i : ℕ) (s : Loader)
      → i < 4
      → Built root pdp i s
      → (identity_from 512 0 i s ≡ directory_of pdp i s)
        × Built root pdp (i + 1) (directory_of pdp i s)
  Built-suc i s h t = (
    done,
    record {
      root_page = directory_of-cr3 pdp i s ∙ t.root_page;
      top =
          ap (λ c. (directory_of pdp i s).dirs c 0) (directory_of-cr3 pdp i s)
          ∙ entry s.cr3 0 (omega arith)
          ∙ ground (arith, t.top, t.next);
      tables = λ m lt. entry pdp m (omega arith) ∙ ground (arith, t.tables m, t.next);
      empty = λ m le lt. entry pdp m lt ∙ ground (arith, t.empty m, t.next);
      pages = λ m x lt hx.
          entry (pdp + 4096 + m * 4096) x hx
          ∙ ground (arith, t.pages m x, t.next, identity_entry-sum i x);
      next = omega (arith, t.next, directory_of-page pdp i s);
    },
  )
    where
      done : identity_from 512 0 i s ≡ directory_of pdp i s
      done =
          identity_from-directory_of pdp i s aligned (omega arith) (omega (arith, t.next))
            (omega (arith, t.next, t.root_page)) (omega (arith, t.next, t.root_page))
            (omega (arith, t.root_page)) (omega (arith, t.next)) (omega arith) t.top
            (t.empty i (omega arith) (omega arith))

      entry :
          (u x : ℕ)
          → x < 512
          → (directory_of pdp i s).dirs u x ≡ (
              if s.page == u
              then identity_entry i x
              else (if (pdp == u) && (i == x) then s.page + 3 else s.dirs u x))
      entry = directory_of-entry pdp i s

  identity_dirs-Built :
      (n i : ℕ) (s : Loader)
      → i + n ≤ 4
      → Built root pdp i s
      → Built root pdp (i + n) (identity_dirs n i s)
  unfolding identity_dirs
  identity_dirs-Built zero i s h t =
      let e : i ≡ i + 0 = omega arith in subst (λ k. Built root pdp k s) e t
  identity_dirs-Built (suc n) i s h t =
      let (e, next) = Built-suc i s (omega arith) t in
      let f : i + 1 + n ≡ i + suc n = omega arith in
      subst (λ k. Built root pdp k (identity_dirs n (i + 1) (identity_from 512 0 i s))) f
        (subst (λ x. Built root pdp (i + 1 + n) (identity_dirs n (i + 1) x)) (sym e)
          (identity_dirs-Built n (i + 1) (directory_of pdp i s) (omega arith) next))

  named : (b : ℕ) → b % 4096 ≡ 0 → b < 2 ^ 52 → frame (b + 3) ≡ b
  named b h lt = omega arith

  Built-translate :
      (s : Loader) (p : ℕ)
      → root % 4096 ≡ 0
      → Built root pdp 4 s
      → p < 2 ^ 32
      → translate s.dirs s.cr3 p ≡ some p
  unfolding translate
  Built-translate s p page t h =
      let i4 : p / 2 ^ 39 % 512 ≡ 0 = omega arith in
      let i3 : p / 2 ^ 30 % 512 ≡ p / 2 ^ 30 = omega arith in
      let q : (p / 2 ^ 30) * 512 + p / 2 ^ 21 % 512 ≡ p / 2 ^ 21 = omega arith in
      let at_root : root_of s.cr3 ≡ s.cr3 = omega (arith, t.root_page) in
      let e4 = ap₂ s.dirs at_root i4 ∙ t.top in
      let e3 =
        ap₂ s.dirs (ap frame e4 ∙ named pdp aligned (omega arith)) i3
        ∙ t.tables (p / 2 ^ 30) (omega arith) in
      let e2 =
        ap (λ b. s.dirs b (p / 2 ^ 21 % 512))
          (ap frame e3 ∙ named (pdp + 4096 + p / 2 ^ 30 * 4096) (omega arith) (omega arith))
        ∙ t.pages (p / 2 ^ 30) (p / 2 ^ 21 % 512) (omega arith) (omega arith) in
      resolve_2mb _ _ _ _ p p (omega (arith, e4)) (omega (arith, e3)) (omega (arith, e3))
        (omega arith) (omega (arith, e2, q)) refl

module _ (s : Loader) (aligned : s.page % 4096 ≡ 0) (below : s.page + 5 * 4096 ≤ s.cr3)
    (fits : s.cr3 < 2 ^ 52) (blank : s.dirs s.cr3 0 ≡ 0) where
  first :
      (u x : ℕ)
      → x < 512
      → (fresh s.cr3 0 s).dirs u x
        ≡ (if (s.cr3 == u) && (0 == x) then s.page + 3 else (if s.page == u then 0 else s.dirs u x))
  first = fresh_entry s.cr3 0 s

  Built-zero : Built s.cr3 s.page 0 (fresh s.cr3 0 s)
  unfolding fresh
  Built-zero = record {
    root_page = refl;
    top = first s.cr3 0 (omega arith) ∙ ground arith;
    tables = λ m lt. absurd (omega arith);
    empty = λ m le lt. first s.page m lt ∙ ground arith;
    pages = λ m x lt hx. absurd (omega arith);
    next = omega arith;
  }

  with_root : (n : ℕ) → identity_dirs (suc n) 0 s ≡ identity_dirs (suc n) 0 (fresh s.cr3 0 s)
  unfolding identity_dirs
  with_root n = ap (identity_dirs n 1) (identity_from-root 0 s aligned (omega arith) blank 511)

  built : Built s.cr3 s.page 4 (identity_dirs 4 0 s)
  built = subst (Built s.cr3 s.page 4) (sym (with_root 3)) (
      identity_dirs-Built s.page s.cr3 aligned below fits 4 0 (fresh s.cr3 0 s) (omega arith)
        Built-zero)

-- The state when the root is taken.
abbrev started : Loader → Loader
started s =
    let x = alloc_page_hi s.mem_free in
    record s { dirs = if x.0 == 0 then s.dirs else zero_page x.0 s.dirs; cr3 = x.0; mem_free = x.1 }

started-blank :
    (s : Loader) → (alloc_page_hi s.mem_free).0 ≢ 0 → (started s).dirs (started s).cr3 0 ≡ 0
unfolding zero_page
started-blank s h = ground arith

-- The root of the tables is the page of `alloc_page_hi`, and the walk through them translates every
-- address below 4 GiB to itself.
pub record IsIdentity (root : ℕ) (s : Loader) : Type 0 where
  pub root_page : s.cr3 ≡ root
  pub identity : (p : ℕ) → p < 2 ^ 32 → translate s.dirs s.cr3 p ≡ some p

-- The page of `alloc_page_hi` becomes the root of the tables, and the walk through them translates
-- every address below 4 GiB to itself. The page that `alloc_page_lo` hands out next begins at a
-- multiple of 4096, it and the four behind it lie below the root, and the root is a page
-- below 2^52.
pub memory_identity_map-IsIdentity :
    (s : Loader)
    → s.page % 4096 ≡ 0
    → s.page + 5 * 4096 ≤ (alloc_page_hi s.mem_free).0
    → (alloc_page_hi s.mem_free).0 < 2 ^ 52
    → (alloc_page_hi s.mem_free).0 % 4096 ≡ 0
    → IsIdentity ((alloc_page_hi s.mem_free).0) (memory_identity_map s)
unfolding memory_identity_map take_hi
memory_identity_map-IsIdentity s aligned below fits page =
    let t = built (started s) aligned below fits (started-blank s (omega arith)) in
    record {
      root_page = t.root_page;
      identity = λ p h.
          Built-translate s.page ((alloc_page_hi s.mem_free).0) aligned below fits _ p page t h;
    }
