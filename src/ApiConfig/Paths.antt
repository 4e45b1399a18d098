-- ===== src/ApiConfig/Paths.antt =====
-- `join_paths` puts one slash between the base and the path.
use qdmi_on_iqm.Base.{◌≡◌, refl, false, true, [], ◌∷◌, ◌++◌, Bytes, arith, is_empty}
use mathlib.Core.List.{append_assoc}
use qdmi_on_iqm.ApiConfig.{ends_with_slash, strip_leading_slash, join_paths}

ends_with_slash-append : (base : Bytes) → ends_with_slash (base ++ b'/' ∷ []) ≡ true
unfolding ends_with_slash
ends_with_slash-append [] = refl
ends_with_slash-append (c ∷ []) = refl
ends_with_slash-append (c ∷ d ∷ base) = ends_with_slash-append (d ∷ base)

-- For a base that is not empty and does not end in a slash, and a path that does not begin with
-- one, the result is the two with one slash between, whether the base is given with a slash at its
-- end, the path with one at its front, both or neither. An empty base leaves the path as it is.
pub join_paths_one_slash :
    (base path : Bytes)
    → is_empty base ≡ false
    → ends_with_slash base ≡ false
    → strip_leading_slash path ≡ path
    → (join_paths base path ≡ base ++ b'/' ∷ path)
      × (join_paths (base ++ b'/' ∷ []) path ≡ base ++ b'/' ∷ path)
      × (join_paths base (b'/' ∷ path) ≡ base ++ b'/' ∷ path)
      × (join_paths (base ++ b'/' ∷ []) (b'/' ∷ path) ≡ base ++ b'/' ∷ path)
      × (join_paths [] path ≡ path)
unfolding join_paths
join_paths_one_slash [] path h e p = ground arith
join_paths_one_slash (c ∷ base) path h e p =
    let slash = ends_with_slash-append (c ∷ base) in
    (
      rw (e, p) (append_assoc (c ∷ base) (b'/' ∷ []) path),
      rw (slash, p) (append_assoc (c ∷ base) (b'/' ∷ []) path),
      rw e (append_assoc (c ∷ base) (b'/' ∷ []) path),
      rw slash (append_assoc (c ∷ base) (b'/' ∷ []) path),
      refl,
    )
