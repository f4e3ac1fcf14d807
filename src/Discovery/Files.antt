-- ===== src/Discovery/Files.antt =====
-- The helpers of src/discovery.cpp that look for the libraries to probe, and for WSL2.
use hsa_snoop.Prelude.{
  take, Text, codes, contains, until, Bool, false, ◌||◌, Option, none, some, List, [], ◌∷◌,
  if◌then◌else◌,
}

-- `IsWsl2`, of the first line of /proc/version, `none` if it cannot be read.
unfoldable pub is_wsl2 : Option Text → Bool
is_wsl2 none = false
is_wsl2 (some line) = contains (codes "microsoft") line || contains (codes "Microsoft") line

-- The file system: realpath(), and whether a path is a regular file.
pub record Paths : Type 0 where
  pub realpath : Text → Option Text
  pub is_regular : Text → Bool

unfoldable pub real_path : Paths → Text → Text
real_path fs path = elim (fs.realpath path) [ none ↦ path | some real ↦ real ]

-- The first candidate whose real path is a regular file.
unfoldable pub first_file : Paths → List Text → Option Text
unfolding real_path
first_file fs [] = none
first_file fs (c ∷ cs) =
    let later = first_file fs cs in
    let real = real_path fs c in if fs.is_regular real then some real else later

-- The fallback: the first line that the subprocess `find` prints, of at most 510 characters, `none`
-- if it does not start or prints nothing.
unfoldable pub find_output : Option Text → Text
find_output none = []
find_output (some line) = until 10 (take 510 line)

abbrev pub found_or : Option Text → Option Text → Text
unfolding find_output
found_or none printed = find_output printed
found_or (some path) printed = path

unfoldable pub find_librocdxg : Paths → Option Text → Text
unfolding first_file
find_librocdxg fs printed =
    found_or
      (first_file fs (
        codes "/opt/rocm/lib/librocdxg.so"
        ∷ codes "/opt/rocm/lib/librocdxg.so.1"
        ∷ codes "/usr/local/src/librocdxg/build/librocdxg.so.1.2.0"
        ∷ []))
      printed

unfoldable pub find_libhsa : Paths → Option Text → Text
unfolding first_file
find_libhsa fs printed =
    found_or
      (first_file fs (
        codes "/opt/rocm/lib/libhsa-runtime64.so"
        ∷ codes "/opt/rocm/lib/libhsa-runtime64.so.1"
        ∷ []))
      printed
