-- ===== src/Volume/Agree.antt =====
-- A file whose inodes are the same in another memory.
use fusee_os.Base.{ℕ, ◌≤◌, ◌<◌, ◌≡◌, ◌≢◌, sym, ◌∙◌, inl, inr, arith, Memory}
use mathlib.Core.Path.{subst}
use fusee_os.Volume.Words.{at, word, word-agree}
use fusee_os.Volume.Slots.{
  idata, slot, Stored, direct, indirect, slot-Stored, slot-none, IsPage, Fresh, IsFile, locate,
  Stored-same,
}

module _ (m m' : Memory) (file : ℕ)
    (in_page : (x : ℕ) → 56 ≤ x → x < 192 → at m' file x ≡ at m file x)
    (in_idata : (x : ℕ)
      → x < 4096
      → idata m file ≢ 0
      → at m' (idata m file) x ≡ at m (idata m file) x) where
  pub idata-agree : idata m' file ≡ idata m file
  idata-agree = word-agree m' m file 184 (λ x lo hi. in_page x (omega arith) (omega arith))

  word_of : (j p o : ℕ) → j < 528 → Stored m file j p o → word m' p o ≡ word m p o
  word_of j p o h (direct _ _ a b c) =
      word-agree m' m p o (λ x lo hi.
        subst (λ q. at m' q x ≡ at m q x) (sym b) (in_page x (omega arith) (omega arith)))
  word_of j p o h (indirect _ _ a b has c) =
      word-agree m' m p o
        (λ x lo hi. subst (λ q. at m' q x ≡ at m q x) (sym b) (in_idata x (omega arith) has))

  pub slot-agree : (j : ℕ) → j < 528 → slot m' file j ≡ slot m file j
  slot-agree j h = elim (locate m file j) [
    | inl (many, lacks) ↦
        slot-none m' file j many (idata-agree ∙ lacks) ∙ sym (slot-none m file j many lacks)
    | inr (p, o, s) ↦
        slot-Stored m' file j p o (Stored-same m m' file j p o idata-agree s)
        ∙ word_of j p o h s
        ∙ sym (slot-Stored m file j p o s)
  ]

  pub IsFile-agree : (next : ℕ) → Fresh m' next → IsFile m next file → IsFile m' next file
  IsFile-agree next fresh f = record {
    fresh = fresh;
    page = f.page;
    idata_page = λ has.
        subst (λ p. IsPage next p) (sym idata-agree) (f.idata_page (λ z. has (idata-agree ∙ z)));
    idata_own = λ e. f.idata_own (sym idata-agree ∙ e);
    slot_page = λ j h has.
        subst (λ p. IsPage next p) (sym (slot-agree j h))
          (f.slot_page j h (λ z. has (slot-agree j h ∙ z)));
    slot_own = λ j h e. f.slot_own j h (sym (slot-agree j h) ∙ e);
    slot_data = λ j h has e.
        f.slot_data j h (λ z. has (slot-agree j h ∙ z)) (sym (slot-agree j h) ∙ e ∙ idata-agree);
    slot_apart = λ i j hi hj ne has e.
        f.slot_apart i j hi hj ne (λ z. has (slot-agree i hi ∙ z))
          (sym (slot-agree i hi) ∙ e ∙ slot-agree j hj);
  }
