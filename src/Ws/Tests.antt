-- ===== src/Ws/Tests.antt =====
-- Runs of the frame headers and of the masking of microtun-ws/src.
use microtun.Prelude.{ℕ, ◌≡◌, refl, true, some, List, [], ◌∷◌, ◌++◌, arith}
use microtun.Ws.{encode_header, binary}
use microtun.Ws.Header.{Reads, encode_header-Reads}
use microtun.Ws.Mask.{apply, apply-append}

abbrev key : List ℕ
key = 1 ∷ 20 ∷ 3 ∷ 200 ∷ []

encode_header-Reads_example :
    Reads (encode_header true binary 300 (some key)) true binary 300 (some key)
encode_header-Reads_example = encode_header-Reads true binary 300 (some key) refl (omega arith)

apply-append_example : apply key 2 ((7 ∷ 8 ∷ 9 ∷ []) ++ (10 ∷ 11 ∷ [])) ≡ (
  (apply key 2 (7 ∷ 8 ∷ 9 ∷ [])).0 ++ (apply key (apply key 2 (7 ∷ 8 ∷ 9 ∷ [])).1 (10 ∷ 11 ∷ [])).0,
  (apply key (apply key 2 (7 ∷ 8 ∷ 9 ∷ [])).1 (10 ∷ 11 ∷ [])).1,
)
apply-append_example = apply-append key 2 (7 ∷ 8 ∷ 9 ∷ []) (10 ∷ 11 ∷ [])
