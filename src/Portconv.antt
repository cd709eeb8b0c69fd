-- ===== src/Portconv.antt =====
-- internal/portconv/portconv.go: the uniform port expression and Aliyun's slash format.
use cloudhost_firewall_autou.Common.{
  ◌||◌, not, Option, none, some, List, [], ◌∷◌, ◌++◌, map, if◌then◌else◌, is_empty, select, nat_eq,
  list_eq,
}
use cloudhost_firewall_autou.Strings.{Text, codes, trim_space, equal_fold, split, cut}

-- The loop body keeps the trimmed items that are not empty.
unfoldable pub parse : Text → List Text
parse ports =
    let ports' = trim_space ports in
    if is_empty ports' || equal_fold ports' (codes "ALL")
    then codes "ALL" ∷ []
    else select (λ p. not (is_empty p)) (map trim_space (split b',' ports'))

-- `cut` at the first "-" is `Contains` with `SplitN(port, "-", 2)`.
abbrev slash_range : Text → Option (Text × Text) → Text
slash_range port none = port ++ b'/' ∷ port
slash_range port (some (first, last)) = first ++ b'/' ∷ last

unfoldable pub to_slash : Text → Text
to_slash port =
    if equal_fold port (codes "ALL") then codes "-1/-1" else slash_range port (cut b'-' port)
