-- ===== src/Paging/Lowest.antt =====
-- A loop over the chunks whose body leaves the upper tables alone.
use fusee_os.Base.{
  ℕ, suc, ◌+◌, ◌*◌, ◌≤◌, ◌<◌, ◌≡◌, ◌≢◌, refl, sym, ◌∙◌, ap, arith, Option, none, some,
}
use mathlib.Core.Path.{subst}
use fusee_os.Paging.{Tables, Chunk, PageIterator, page_iter_next, page_iter_create, each_chunk}
use fusee_os.Paging.Walk.{level_index, pages, named, in_table, next0, next1, next2, next3, next4}

-- One round of the loop over the chunks, and its end.
module _ {ℓ} {S : Type ℓ} (dirs_of : S → Tables) (body : Chunk → S → Option S) (f : ℕ)
    (it : PageIterator) (s : S) where
  each_chunk-some :
      {c : Chunk} {s' : S}
      → (page_iter_next (dirs_of s) it).0 ≡ some c
      → body c s ≡ some s'
      → each_chunk dirs_of body (suc f) it s
        ≡ each_chunk dirs_of body f (page_iter_next (dirs_of s) it).1 s'
  unfolding each_chunk
  each_chunk-some e b = rw (e, b, each_chunk) refl

  each_chunk-none :
      (page_iter_next (dirs_of s) it).0 ≡ none → each_chunk dirs_of body (suc f) it s ≡ some s
  unfolding each_chunk
  each_chunk-none e = rw (e, each_chunk) refl

-- The lowest table that the walk reaches, and where the entries of a range end in it.
abbrev pub lowest : Tables → ℕ → ℕ → ℕ
lowest dirs cr3 addr =
    named dirs (named dirs (named dirs cr3 (level_index 3 addr)) (level_index 2 addr))
      (level_index 1 addr)

abbrev pub end_index : ℕ → ℕ → ℕ
end_index addr size = level_index 0 addr + in_table (pages size) (level_index 0 addr)

-- Within 512 pages the body runs once on the entries of the lowest table, and five rounds are
-- enough.
pub each_chunk-lowest {ℓ} :
    {S : Type ℓ}
    → (dirs_of : S → Tables) → (body : Chunk → S → Option S) → (f cr3 addr size : ℕ) (s s' : S)
    → 0 < size
    → size ≤ 512 * 4096
    → ((c : Chunk) → c.depth ≢ 0 → body c s ≡ some s)
    → body
        (record {
          depth = 0;
          table = lowest (dirs_of s) cr3 addr;
          start = level_index 0 addr;
          count = in_table (pages size) (level_index 0 addr);
        })
        s
      ≡ some s'
    → each_chunk dirs_of body (5 + f) (page_iter_create cr3 addr size) s ≡ some s'
each_chunk-lowest dirs_of body f cr3 addr size s s' some_bytes few idle last =
    let d = dirs_of s in
    let it0 = page_iter_create cr3 addr size in
    let o : ℕ → ℕ = λ l. level_index l addr in
    let n = pages size in
    let (c0, r1, s1, d3) = next0 d cr3 addr size some_bytes few in
    let it1 = (page_iter_next d it0).1 in
    let (c1, r2, s2, d2, i3, l2) = next1 d o n it1 r1 s1 in
    let it2 = (page_iter_next d it1).1 in
    let (c2, r3, s3, d1, i3', l2', i2, l1) = next2 d o n it2 r2 s2 i3 l2 in
    let it3 = (page_iter_next d it2).1 in
    let (c3, s4, i1', i2', i3'', e1, e2, e3) = next3 d o n it3 r3 s3 in
    let it4 = (page_iter_next d it3).1 in
    let table =
      ap (λ t. named d t (o 1))
        (d1 ∙ ap (λ t. named d t (o 2)) (d2 ∙ ap (λ t. named d t (o 3)) d3)) in
    let last' : body
          (record {
            depth = 0;
            table = named d (it3.dir 1) (o 1);
            start = o 0;
            count = in_table n (o 0);
          })
          s
        ≡ some s' =
      subst
        (λ t.
          body (record { depth = 0; table = t; start = o 0; count = in_table n (o 0) }) s ≡ some s')
        (sym table) last in
    let five : 5 + f ≡ suc (suc (suc (suc (suc f)))) = omega arith in
    ap (λ x. each_chunk dirs_of body x it0 s) five
    ∙ each_chunk-some dirs_of body (suc (suc (suc (suc f)))) it0 s c0 (idle _ (omega arith))
    ∙ each_chunk-some dirs_of body (suc (suc (suc f))) it1 s c1 (idle _ (omega arith))
    ∙ each_chunk-some dirs_of body (suc (suc f)) it2 s c2 (idle _ (omega arith))
    ∙ each_chunk-some dirs_of body (suc f) it3 s c3 last'
    ∙ each_chunk-none dirs_of body f it4 s'
        (next4 (dirs_of s') it4 s4 i1' (i2' ∙ i2) (i3'' ∙ i3') e1 e2 e3)
