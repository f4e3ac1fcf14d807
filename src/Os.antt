-- ===== src/Os.antt =====
-- What the program asks of the operating system and of the C++ runtime about a traced process: the
-- answers are parameters of the model. A value of `Process` gives the answers during one poll.
use hsa_snoop.Prelude.{Text, ℕ, Bool, Option, List}

-- One line of /proc/<pid>/maps as `sscanf` takes it apart.
pub record MapsLine : Type 0 where
  pub start : ℕ
  pub end : ℕ
  -- How many of the four conversions "%lx-%lx %7s %lx" succeed.
  pub conversions : ℕ
  -- Whether the first character of the permissions is 'r'.
  pub readable : Bool

pub record Process : Type 0 where
  -- The bytes that process_vm_readv transfers from an address, `none` for its error return.
  pub vm_readv : ℕ → ℕ → Option (List ℕ)
  -- Whether open() of /proc/<pid>/mem gives a descriptor.
  pub mem_open : Bool
  -- The bytes that pread() transfers from that descriptor, `none` for its error return.
  pub mem_pread : ℕ → ℕ → Option (List ℕ)
  -- The eight bytes that pread64() of /proc/<pid>/pagemap gives at an offset, as a number; `none` if
  -- the file cannot be opened or the read is short.
  pub pagemap : ℕ → Option ℕ
  -- The lines of /proc/<pid>/maps.
  pub maps : List MapsLine
  -- access() of /proc/<pid>.
  pub alive : Bool

pub record Os : Type 0 where
  -- sysconf(_SC_PAGESIZE).
  pub page_size : ℕ
  -- abi::__cxa_demangle, `none` where its status is not 0.
  pub cxa_demangle : Text → Option Text
  pub process : ℕ → Process
