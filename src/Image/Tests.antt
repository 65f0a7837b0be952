-- ===== src/Image/Tests.antt =====
-- An image of a short boot sector and a short volume, and the theorems there.
use fusee_os.Base.{ℕ, refl, arith, List, [], ◌∷◌}
use fusee_os.Image.{File, make_image}
use fusee_os.Image.Layout.{IsImage, make_image-IsImage}

abbrev empty : File
empty = record { bytes = λ k. 0; pos = 0 }

abbrev code : List ℕ
code = 0xeb ∷ 0xfe ∷ []

abbrev volume : List ℕ
volume = 1 ∷ 2 ∷ 3 ∷ []

make_image-IsImage_example : IsImage code volume (make_image code volume empty)
make_image-IsImage_example =
    make_image-IsImage code volume empty refl (omega arith) (omega arith) (omega arith)
