-- ===== src/Boot/Tables/Directory.antt =====
-- One round of `memory_identity_map`: a page directory of 512 large pages.
use fusee_os.Base.{
  ℕ, zero, suc, ◌+◌, ◌*◌, ◌/◌, ◌%◌, ◌<◌, ◌^◌, ◌≡◌, ◌≢◌, refl, sym, ap, ◌∙◌, arith, true, false,
  ◌&&◌, bit_and, bit_or, ne→==, ◌==◌, if◌then◌else◌, u64,
}
use fusee_os.Base.Bits.{bit_or_fields, bit_and_high, bit_and_mask}
use fusee_os.Phys.{page_size}
use fusee_os.Paging.{Tables, set_entry}
use fusee_os.Paging.Physical.Filled.{fill, fill_at}
use fusee_os.Boot.{zero_page, alloc_page_lo, identity_entry}
use fusee_os.Boot.Tables.{Loader, take_lo, next_table, map_identity_2mib, identity_from}

masked : (q : ℕ) → q % 4096 ≡ 0 → q < 2 ^ 52 → bit_and (q + 3) 0xffff_ffff_ffff_f000 ≡ q
masked q h lt =
    let e : q + 3 ≡ q / 4096 * 2 ^ 12 + 3 = omega arith in
    ap (λ t. bit_and t 0xffff_ffff_ffff_f000) e
    ∙ bit_and_high 12 (q / 4096) 3 0xf_ffff_ffff_ffff (omega arith)
    ∙ omega (arith, bit_and_mask 52 (q / 4096))

with_flags : (q : ℕ) → q % 4096 ≡ 0 → bit_or q 3 ≡ q + 3
with_flags q h =
    let e : q ≡ q / 4096 * 2 ^ 12 = omega arith in
    ap (λ t. bit_or t 3) e ∙ bit_or_fields 12 (q / 4096) 3 (omega arith) ∙ omega arith

pub identity_entry-sum : (i j : ℕ) → identity_entry i j ≡ (i * 512 + j) * 2 ^ 21 + 131
unfolding identity_entry
identity_entry-sum i j = bit_or_fields 21 (i * 512 + j) 131 (omega arith)

-- `s` with a new table in the entry `i` of `t`.
unfoldable pub fresh : ℕ → ℕ → Loader → Loader
fresh t i s = record s {
  dirs = set_entry t i (s.page + 3) (zero_page s.page s.dirs);
  page = s.page + page_size;
}

next_here :
    (take : Loader → ℕ × Loader) (t i q : ℕ) (s : Loader)
    → q % 4096 ≡ 0
    → q < 2 ^ 52
    → s.dirs t i ≡ q + 3
    → next_table take t i s ≡ (q, s)
unfolding next_table
next_here take t i q s h lt e =
    let z : (s.dirs t i == 0) ≡ false = ne→== _ 0 (omega (arith, e)) in
    let f : bit_and (s.dirs t i) 0xffff_ffff_ffff_f000 ≡ q =
      ap (λ x. bit_and x 0xffff_ffff_ffff_f000) e ∙ masked q h lt in
    rw z (ap (λ x. (x, s)) f)

next_new :
    (t i : ℕ) (s : Loader)
    → s.page % 4096 ≡ 0
    → s.page + 4096 < 2 ^ 52
    → s.dirs t i ≡ 0
    → next_table take_lo t i s ≡ (s.page, fresh t i s)
unfolding next_table take_lo alloc_page_lo fresh
next_new t i s h lt e =
    let z : (s.dirs t i == 0) ≡ true = rw e refl in
    let f = with_flags s.page h in
    let g : bit_and (bit_or s.page 3) 0xffff_ffff_ffff_f000 ≡ s.page =
      ap (λ x. bit_and x 0xffff_ffff_ffff_f000) f ∙ masked s.page h (omega arith) in
    let p : u64 (s.page + page_size) ≡ s.page + page_size = omega arith in
    rw z (rw g (rw f (rw p refl)))

-- The state after the entry `j` of the directory `pd`.
wrote : ℕ → ℕ → ℕ → Loader → Loader
wrote pd i j s = record s { dirs = set_entry pd j (identity_entry i j) s.dirs }

map_here :
    (pdp pd i j : ℕ) (s : Loader)
    → pdp % 4096 ≡ 0
    → pdp < 2 ^ 52
    → pd % 4096 ≡ 0
    → pd < 2 ^ 52
    → s.dirs s.cr3 0 ≡ pdp + 3
    → s.dirs pdp i ≡ pd + 3
    → map_identity_2mib i j s ≡ wrote pd i j s
unfolding map_identity_2mib wrote
map_here pdp pd i j s a b c d top e =
    rw (next_here take_lo s.cr3 0 pdp s a b top) (rw (next_here take_lo pdp i pd s c d e) refl)

map_new :
    (pdp i j : ℕ) (s : Loader)
    → pdp % 4096 ≡ 0
    → pdp < 2 ^ 52
    → s.page % 4096 ≡ 0
    → s.page + 4096 < 2 ^ 52
    → s.dirs s.cr3 0 ≡ pdp + 3
    → s.dirs pdp i ≡ 0
    → map_identity_2mib i j s ≡ wrote s.page i j (fresh pdp i s)
unfolding map_identity_2mib wrote
map_new pdp i j s a b c d top e =
    rw (next_here take_lo s.cr3 0 pdp s a b top) (rw (next_new pdp i s c d e) refl)

set_entry-other : (t i e u x : ℕ) (dirs : Tables) → u ≢ t → set_entry t i e dirs u x ≡ dirs u x
unfolding set_entry
set_entry-other t i e u x dirs h = ground arith

identity_from_here :
    (n j pdp pd i : ℕ) (s : Loader)
    → pdp % 4096 ≡ 0
    → pdp < 2 ^ 52
    → pd % 4096 ≡ 0
    → pd < 2 ^ 52
    → s.cr3 ≢ pd
    → pdp ≢ pd
    → s.dirs s.cr3 0 ≡ pdp + 3
    → s.dirs pdp i ≡ pd + 3
    → identity_from n j i s ≡ record s { dirs = fill (identity_entry i) n j pd s.dirs }
unfolding identity_from fill wrote
identity_from_here zero j pdp pd i s a b c d root table top e = refl
identity_from_here (suc n) j pdp pd i s a b c d root table top e =
    rw (map_here pdp pd i j s a b c d top e) (
      identity_from_here n (j + 1) pdp pd i (wrote pd i j s) a b c d root table
        (wrote_other s.cr3 0 root ∙ top) (wrote_other pdp i table ∙ e)
      ∙ wrote_fill)
  where
    wrote_other : (u x : ℕ) → u ≢ pd → (wrote pd i j s).dirs u x ≡ s.dirs u x
    wrote_other u x h = unfold wrote in set_entry-other pd j (identity_entry i j) u x s.dirs h

    wrote_fill :
        Path Loader
          (record (wrote pd i j s) {
            dirs = fill (identity_entry i) n (j + 1) pd (wrote pd i j s).dirs;
          })
          (record s {
            dirs =
                fill (identity_entry i) n (j + 1) pd (set_entry pd j (identity_entry i j) s.dirs);
          })
    wrote_fill = unfold wrote in refl

-- A new directory `i` in the table `pdp`, in the page of `alloc_page_lo`.
unfoldable pub directory_of : ℕ → ℕ → Loader → Loader
directory_of pdp i s = record (fresh pdp i s) {
  dirs = fill (identity_entry i) 512 0 s.page (fresh pdp i s).dirs;
}

pub fresh_entry :
    (t i : ℕ) (s : Loader) (u x : ℕ)
    → x < 512
    → (fresh t i s).dirs u x
      ≡ (if (t == u) && (i == x) then s.page + 3 else (if s.page == u then 0 else s.dirs u x))
unfolding fresh set_entry zero_page
fresh_entry t i s u x h = ground arith

pub directory_of-entry :
    (pdp i : ℕ) (s : Loader) (u x : ℕ)
    → x < 512
    → (directory_of pdp i s).dirs u x ≡ (
        if s.page == u
        then identity_entry i x
        else (if (pdp == u) && (i == x) then s.page + 3 else s.dirs u x))
unfolding directory_of
directory_of-entry pdp i s u x h =
    fill_at (identity_entry i) 512 0 s.page (fresh pdp i s).dirs u x
    ∙ ground (arith, fresh_entry pdp i s u x h)

module _ (pdp i : ℕ) (s : Loader) (a : pdp % 4096 ≡ 0) (b : pdp < 2 ^ 52) (c : s.page % 4096 ≡ 0)
    (d : s.page + 4096 < 2 ^ 52) (root : s.cr3 ≢ s.page) (rootp : s.cr3 ≢ pdp)
    (table : pdp ≢ s.page) (lt : i < 512) (top : s.dirs s.cr3 0 ≡ pdp + 3)
    (e : s.dirs pdp i ≡ 0) where
  fresh_top : (fresh pdp i s).dirs s.cr3 0 ≡ pdp + 3
  fresh_top = fresh_entry pdp i s s.cr3 0 (omega arith) ∙ ground arith

  fresh_here : (fresh pdp i s).dirs pdp i ≡ s.page + 3
  fresh_here = fresh_entry pdp i s pdp i lt ∙ ground arith

  first_round : (j : ℕ) → map_identity_2mib i j s ≡ map_identity_2mib i j (fresh pdp i s)
  first_round j =
      map_new pdp i j s a b c d top e
      ∙ sym (
          map_here pdp s.page i j (fresh pdp i s) a b c (omega arith) (unfold fresh in fresh_top)
            fresh_here)

  identity_from_new :
      (n : ℕ)
      → identity_from (suc n) 0 i s ≡ record (fresh pdp i s) {
        dirs = fill (identity_entry i) (suc n) 0 s.page (fresh pdp i s).dirs;
      }
  unfolding identity_from
  identity_from_new n =
      ap (identity_from n 1 i) (first_round 0)
      ∙ identity_from_here (suc n) 0 pdp s.page i (fresh pdp i s) a b c (omega arith)
          (unfold fresh in root) table (unfold fresh in fresh_top) fresh_here

  pub identity_from-directory_of : identity_from 512 0 i s ≡ directory_of pdp i s
  unfolding directory_of
  identity_from-directory_of = identity_from_new 511

-- A round from a state whose root is empty is one from the state with the table there.
after_root : ℕ → ℕ → ℕ × Loader → Loader
after_root i j x =
    let (pd, s) = next_table take_lo x.0 i x.1 in
    record s { dirs = set_entry pd j (identity_entry i j) s.dirs }

map_identity_2mib-root :
    (i j : ℕ) (s : Loader) → map_identity_2mib i j s ≡ after_root i j (next_table take_lo s.cr3 0 s)
unfolding map_identity_2mib after_root
map_identity_2mib-root i j s = refl

pub identity_from-root :
    (i : ℕ) (s : Loader)
    → s.page % 4096 ≡ 0
    → s.page + 4096 < 2 ^ 52
    → s.dirs s.cr3 0 ≡ 0
    → (n : ℕ) → identity_from (suc n) 0 i s ≡ identity_from (suc n) 0 i (fresh s.cr3 0 s)
unfolding identity_from
identity_from-root i s h lt e n = ap (identity_from n 1 i) (
    map_identity_2mib-root i 0 s
    ∙ ap (after_root i 0) (next_new s.cr3 0 s h lt e ∙ sym again)
    ∙ sym (map_identity_2mib-root i 0 (fresh s.cr3 0 s)))
  where
    here : (fresh s.cr3 0 s).dirs s.cr3 0 ≡ s.page + 3
    here = fresh_entry s.cr3 0 s s.cr3 0 (omega arith) ∙ ground arith

    again : next_table take_lo (fresh s.cr3 0 s).cr3 0 (fresh s.cr3 0 s) ≡ (s.page, fresh s.cr3 0 s)
    again = unfold fresh in next_here take_lo s.cr3 0 s.page (fresh s.cr3 0 s) h (omega arith) here
