-- ===== src/Discovery/RoundTrip.antt =====
-- The queue that `RunKprobe` of src/discovery.cpp reads of a line of the probe.
use native.Mathlib.Omega.{arith}
use hsa_snoop.Prelude.{
  All, text_eq, IsPlain, to_u32, IsU32, IsU64, Text, codes, ℕ, ◌≡◌, refl, ◌∙◌, Bool, true, not,
  ◌&&◌, List, [], ◌∷◌, ◌++◌, arith, ◌==◌,
}
use hsa_snoop.Model.{QueueInfo}
use hsa_snoop.Sdma.Defs.{Version}
use hsa_snoop.Discovery.Fields.{find_u64}
use hsa_snoop.Discovery.Kprobe.{kprobe_queue}
use hsa_snoop.Discovery.Printed.{words, fields, field, IsField, find_u64-printed}

-- The fields of the probe that `InstallKprobe` defines, in its order.
abbrev pub probe_fields : ℕ → ℕ → ℕ → ℕ → ℕ → ℕ → List (Text × ℕ)
probe_fields ring_base wptr rptr ring_size gpu_id qtype =
    (codes "ring_base", ring_base)
    ∷ (codes "wptr", wptr)
    ∷ (codes "rptr", rptr)
    ∷ (codes "ring_size", ring_size)
    ∷ (codes "gpu_id", gpu_id)
    ∷ (codes "qtype", qtype)
    ∷ []

unfoldable pub plain_test : Text → Bool
plain_test [] = true
plain_test (c ∷ s) = (not (c == 32) && not (c == 61)) && plain_test s

pub plain_test-IsPlain : (t : Text) → plain_test t ≡ true → IsPlain t
unfolding plain_test
plain_test-IsPlain [] h = tt
plain_test-IsPlain (c ∷ s) h = ((ground arith, ground arith), plain_test-IsPlain s (ground arith))

-- The record that the fields are read into.
abbrev probe_queue : ℕ → ℕ → Text → ℕ → ℕ → ℕ → ℕ → ℕ → ℕ → ℕ → QueueInfo
probe_queue now pid comm uid ring_base wptr rptr ring_size gpu_id qtype = record {
  pid = pid;
  comm = comm;
  ring_base = ring_base;
  wptr_addr = wptr;
  rptr_addr = rptr;
  ring_size = ring_size;
  gpu_id = gpu_id;
  qtype = qtype;
  sdma_version = Version.unknown;
  create_ts = now;
  ring_phys = 0;
  uid = uid;
}

read_fields :
    (now pid : ℕ) (comm : Text) (uid : ℕ) (line : Text) (b w r s g t : ℕ)
    → find_u64 line (codes "ring_base") ≡ b
    → find_u64 line (codes "wptr") ≡ w
    → find_u64 line (codes "rptr") ≡ r
    → find_u64 line (codes "ring_size") ≡ s
    → find_u64 line (codes "gpu_id") ≡ g
    → find_u64 line (codes "qtype") ≡ t
    → kprobe_queue now line pid comm uid
      ≡ probe_queue now pid comm uid b w r (to_u32 s) (to_u32 g) (to_u32 t)
unfolding kprobe_queue
read_fields now pid comm uid line b w r s g t e1 e2 e3 e4 e5 e6 = rw (e1, e2, e3, e4, e5, e6) refl

-- A line of the trace pipe that ends with the six fields of the probe in decimal, behind words that
-- hold no blanks and no equality signs, is read back: the queue has the six numbers, if the two
-- pointers and the ring address have 64 bits and the others have 32.
pub kprobe_queue_lem :
    (now pid uid : ℕ) (comm lead : Text) (ws : List Text) (b w r s g t : ℕ)
    → IsPlain lead
    → All IsPlain ws
    → All IsU64 (b ∷ w ∷ r ∷ [])
    → All IsU32 (s ∷ g ∷ t ∷ [])
    → kprobe_queue now (lead ++ (words ws ++ fields (probe_fields b w r s g t))) pid comm uid
      ≡ record {
        pid = pid;
        comm = comm;
        ring_base = b;
        wptr_addr = w;
        rptr_addr = r;
        ring_size = s;
        gpu_id = g;
        qtype = t;
        sdma_version = Version.unknown;
        create_ts = now;
        ring_phys = 0;
        uid = uid;
      }
unfolding field plain_test text_eq
kprobe_queue_lem now pid uid comm lead ws b w r s g t pl pw h64 h32 =
    let fs = probe_fields b w r s g t in
    let line = lead ++ (words ws ++ fields fs) in
    let plain = plain_test-IsPlain in
    let all : All IsField fs = (
      (plain (codes "ring_base") refl, h64.0),
      (
        (plain (codes "wptr") refl, h64.1.0),
        (
          (plain (codes "rptr") refl, h64.1.1.0),
          (
            (plain (codes "ring_size") refl, omega (arith, h32.0)),
            (
              (plain (codes "gpu_id") refl, omega (arith, h32.1.0)),
              ((plain (codes "qtype") refl, omega (arith, h32.1.1.0)), tt),
            ),
          ),
        ),
      ),
    ) in
    let at_key = λ (key : Text) (k : IsPlain key). find_u64-printed lead key ws fs pl k pw all in
    let low : (n : ℕ) → IsU32 n → to_u32 n ≡ n = λ n h. grind arith in
    read_fields now pid comm uid line b w r s g t
      (at_key (codes "ring_base") (plain (codes "ring_base") refl))
      (at_key (codes "wptr") (plain (codes "wptr") refl))
      (at_key (codes "rptr") (plain (codes "rptr") refl))
      (at_key (codes "ring_size") (plain (codes "ring_size") refl))
      (at_key (codes "gpu_id") (plain (codes "gpu_id") refl))
      (at_key (codes "qtype") (plain (codes "qtype") refl))
    ∙ rw (low s h32.0, low g h32.1.0, low t h32.1.1.0) refl
