-- ===== src/Discovery/Probe/Bytes.antt =====
-- discovery/probe.rs: the search in bytes.
use raemote_server.Prelude.{
  ℕ, suc, Bool, ◌||◌, List, [], ◌∷◌, ◌==◌, nat_instance, list_instance, option_instance,
  if◌then◌else◌, length, take, Option, none, some, is_empty, ltb,
}
use raemote_server.Text.{eq_ignore_ascii_case}

-- `windows(n).position(test)`: a window at the end that is too short passes no test of equality
unfoldable pub position : (List ℕ → Bool) → ℕ → List ℕ → Option ℕ
position test i [] = none
position test i (b ∷ bytes) = if test (b ∷ bytes) then some i else position test (suc i) bytes

unfoldable pub find_slice : List ℕ → List ℕ → Option ℕ
find_slice haystack needle =
    if is_empty needle || ltb (length haystack) (length needle)
    then none
    else position (λ rest. take (length needle) rest == needle) 0 haystack

unfoldable pub find_ci : List ℕ → List ℕ → Option ℕ
find_ci haystack needle =
    if is_empty needle || ltb (length haystack) (length needle)
    then none
    else position (λ rest. eq_ignore_ascii_case (take (length needle) rest) needle) 0 haystack
