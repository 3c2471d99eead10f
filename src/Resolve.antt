-- ===== src/Resolve.antt =====
-- ROS graph names: aioros/_utils/_resolve.py. The functions that read sys.argv and os.environ are
-- not modelled.
mod Parts
pub mod Canonical
pub mod Names
pub mod Valid
mod Examples
unfoldable pub use Parts.*
use aioros.Common.{
  ℕ, Bool, true, false, not, ◌&&◌, ◌||◌, List, [], ◌∷◌, ◌++◌, Str, str, str_eq, starts_with,
  ends_with, is_empty, leb, ◌==◌, drop, Result, ok, err, value_error, ◌>>=◌, ◌>>◌, if◌then◌else◌,
}

abbrev pub slash : ℕ
slash = b'/'

abbrev pub is_letter : ℕ → Bool
is_letter c = leb b'a' c && leb c b'z' || leb b'A' c && leb c b'Z'

-- `\w` under the flag `a`
abbrev pub is_word : ℕ → Bool
is_word c = is_letter c || leb b'0' c && leb c b'9' || c == b'_'

-- `\w*$`: `$` also matches before a newline at the end
unfoldable pub word_end : Str → Bool
word_end [] = true
word_end (c ∷ s) = let rest = word_end s in if is_word c then rest else c == 10 && is_empty s

-- VALID_NAME.match(part) is not None
unfoldable pub is_valid_name : Str → Bool
unfolding word_end
is_valid_name [] = false
is_valid_name (c ∷ s) = is_letter c && word_end s

-- `if not namespace.startswith("/"): namespace = "/" + namespace`
abbrev pub add_root : Str → Str
add_root s = if starts_with s (str "/") then s else str "/" ++ s

-- `if not namespace.endswith("/"): namespace += "/"`
abbrev pub add_end : Str → Str
add_end s = if ends_with s slash then s else s ++ str "/"

unfoldable pub normalize_namespace : Str → Result Str
normalize_namespace namespace =
    if starts_with namespace (str "~") then err value_error else ok (add_end (add_root namespace))

-- `_resolve_name`
unfoldable pub resolve_unchecked : Str → Str → Str → Str
resolve_unchecked name node_name namespace =
    let canonical_name = join (name ∷ []) in
    if is_empty name
    then namespace
    else if starts_with name (str "/")
    then str "/" ++ canonical_name
    else if starts_with canonical_name (str "~")
    then str "/" ++ join (namespace ∷ node_name ∷ drop 1 canonical_name ∷ [])
    else str "/" ++ join (namespace ∷ canonical_name ∷ [])

-- `for part in resolved.split("/"): if part and VALID_NAME.match(part) is None: raise`
unfoldable pub check_parts : List Str → Result (Unit {0})
check_parts [] = ok tt
check_parts (p ∷ ps) =
    let rest = check_parts ps in if is_valid_name p then rest else err value_error

unfoldable pub resolve_name : Str → Str → Str → Result Str
resolve_name name node_name namespace = do
  let resolved = resolve_unchecked name node_name namespace
  check_parts (split resolved)
  ok resolved
