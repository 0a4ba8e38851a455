-- ===== src/Strings/Examples.antt =====
-- A pool of two strings, to which the first is added again.
use cri_archive_lib.Base.{◌≡◌, refl, arith, Bool, true, List, [], ◌∷◌, ◌++◌, Str, ok, some, ◌⊎◌}
use cri_archive_lib.Strings.{
  Entry, intern_string, find_value, same_str, get_string, utf8, parse_strings,
}
use cri_archive_lib.Strings.RoundTrip.{IsPlain, pool_of, intern_string-parse_strings}

abbrev id : Str
id = 0x49 ∷ 0x44 ∷ []

abbrev name : Str
name = 0x4e ∷ []

abbrev both : List Str
both = id ∷ name ∷ []

abbrev accept : Str → Bool
accept s = true

abbrev plain : Str → Str
plain s = s

id-IsPlain : IsPlain accept plain id
id-IsPlain = ((λ e. absurd (omega arith), (λ e. absurd (omega arith), tt)), refl)

name-IsPlain : IsPlain accept plain name
name-IsPlain = ((λ e. absurd (omega arith), tt), refl)

intern_string_example :
    (strings : List Entry) × (parse_strings accept plain utf8 (pool_of both).pool ≡ ok strings)
    × (get_string 3 strings ≡ some name)
    × ((pool_of both ≡ pool_of both) ⊎ (pool_of both ≡ pool_of (both ++ (name ∷ []))))
unfolding intern_string find_value same_str
intern_string_example =
    intern_string-parse_strings accept plain both name 3 (pool_of both)
      (id-IsPlain, (name-IsPlain, tt)) name-IsPlain refl
