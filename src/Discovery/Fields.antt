-- ===== src/Discovery/Fields.antt =====
-- The " key=value" fields of a line of src/discovery.cpp.
use hsa_snoop.Prelude.{Text, after, until, strtoull, ℕ, none, some, [], ◌∷◌, ◌++◌}

-- The needle `" " + key + "="`.
abbrev pub needle : Text → Text
needle key = 32 ∷ (key ++ (61 ∷ []))

unfoldable pub find_u64 : Text → Text → ℕ
find_u64 line key = elim (after (needle key) line) [ none ↦ 0 | some s ↦ strtoull 10 s ]

-- The lambda `get_u64`, which takes a base prefix.
unfoldable pub get_u64 : Text → Text → ℕ
get_u64 line key = elim (after (needle key) line) [ none ↦ 0 | some s ↦ strtoull 0 s ]

-- The lambda `get_str`.
unfoldable pub get_str : Text → Text → Text
get_str line key = elim (after (needle key) line) [ none ↦ [] | some s ↦ until 32 s ]
