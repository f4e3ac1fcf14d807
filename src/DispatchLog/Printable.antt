-- ===== src/DispatchLog/Printable.antt =====
-- No control character gets into a line of the dispatch log.
use hsa_snoop.Prelude.{
  All, All-append, to_dec, digits_loop, dec_digit, hex_digit, Text, codes, ℕ, zero, suc, ◌-◌, ◌/◌,
  ◌%◌, ◌^◌, ◌≤◌, ◌≡◌, refl, inl, inr, Bool, ◌&&◌, List, [], ◌∷◌, ◌++◌, arith, ltb, ◌==◌, Bool-cases,
}
use hsa_snoop.Model.{QueueInfo, Dim3, PacketRecord, SdmaRecord, copy_dir_name, is_copy}
use hsa_snoop.DispatchLog.Escape.{escape_char, escape_chars, append_escaped}
use hsa_snoop.DispatchLog.Lines.{
  Ctx, back, append_key, append_str, append_num, padded_dec, append_fixed, append_timestamp,
  queue_line, dims_text, append_duration, dispatch_line, append_copy, sdma_line, log_queue,
  log_dispatch, log_sdma,
}

-- A character that is not a control character of ASCII, as those are, too, that end a line.
abbrev pub IsPrintable : ℕ → Type 0
IsPrintable c = 32 ≤ c

abbrev AllPrintable : Text → Type 0
AllPrintable = All IsPrintable

both : (xs ys : Text) → AllPrintable xs → AllPrintable ys → AllPrintable (xs ++ ys)
both = All-append IsPrintable

hex_digit-IsPrintable : (d : ℕ) → IsPrintable (hex_digit d)
hex_digit-IsPrintable d = ground arith

escape_char-AllPrintable : (c : ℕ) → AllPrintable (escape_char c)
unfolding escape_char
escape_char-AllPrintable c = ground arith

escape_chars-AllPrintable : (s : Text) → AllPrintable (escape_chars s)
unfolding escape_chars
escape_chars-AllPrintable [] = tt
escape_chars-AllPrintable (c ∷ s) = elim (Bool-cases (c == 0)) [
  | inl e ↦ rw e tt
  | inr e ↦ rw e (
      both (escape_char c) (escape_chars s) (escape_char-AllPrintable c)
        (escape_chars-AllPrintable s))
]

append_escaped-AllPrintable :
    (out s : Text) → AllPrintable out → AllPrintable (append_escaped out s)
unfolding append_escaped
append_escaped-AllPrintable out s h =
    both out _ h
      (omega arith, both (escape_chars s) (34 ∷ []) (escape_chars-AllPrintable s) (omega arith, tt))

append_key-AllPrintable : (out key : Text) → AllPrintable out → AllPrintable (append_key out key)
unfolding append_key
append_key-AllPrintable out key h = elim (Bool-cases (back out == 123)) [
  | inl e ↦ rw e (
      both (append_escaped out key) (58 ∷ []) (append_escaped-AllPrintable out key h)
        (omega arith, tt))
  | inr e ↦ rw e (
      both (append_escaped (out ++ (44 ∷ [])) key) (58 ∷ [])
        (append_escaped-AllPrintable (out ++ (44 ∷ [])) key
          (both out (44 ∷ []) h (omega arith, tt)))
        (omega arith, tt))
]

append_str-AllPrintable :
    (out key val : Text) → AllPrintable out → AllPrintable (append_str out key val)
unfolding append_str
append_str-AllPrintable out key val h =
    append_escaped-AllPrintable (append_key out key) val (append_key-AllPrintable out key h)

digits_loop-AllPrintable :
    (digit : ℕ → ℕ) (base fuel n : ℕ) (acc : List ℕ)
    → ((d : ℕ) → IsPrintable (digit d))
    → AllPrintable acc
    → AllPrintable (digits_loop digit base fuel n acc)
unfolding digits_loop
digits_loop-AllPrintable digit base zero n acc hd h = h
digits_loop-AllPrintable digit base (suc fuel) n acc hd h = elim (Bool-cases (n / base == 0)) [
  | inl e ↦ rw e (hd (n % base), h)
  | inr e ↦ rw e (
      digits_loop-AllPrintable digit base fuel (n / base) (digit (n % base) ∷ acc) hd
        (hd (n % base), h))
]

to_dec-AllPrintable : (n : ℕ) → AllPrintable (to_dec n)
unfolding to_dec
to_dec-AllPrintable n = digits_loop-AllPrintable dec_digit 10 20 n [] (λ d. omega arith) tt

append_num-AllPrintable :
    (out key : Text) (val : ℕ) → AllPrintable out → AllPrintable (append_num out key val)
unfolding append_num
append_num-AllPrintable out key val h =
    both (append_key out key) (to_dec val) (append_key-AllPrintable out key h)
      (to_dec-AllPrintable val)

padded_dec-AllPrintable : (w n : ℕ) → AllPrintable (padded_dec w n)
unfolding padded_dec
padded_dec-AllPrintable zero n = tt
padded_dec-AllPrintable (suc w) n = (omega arith, padded_dec-AllPrintable w n)

append_fixed-AllPrintable :
    (out key : Text) (ns : ℕ) → AllPrintable out → AllPrintable (append_fixed out key ns)
unfolding append_fixed
append_fixed-AllPrintable out key ns h =
    both (append_key out key) _ (append_key-AllPrintable out key h) (
      both (to_dec (ns / 1000)) _ (to_dec-AllPrintable (ns / 1000))
        (omega arith, padded_dec-AllPrintable 3 (ns % 1000)))

append_timestamp-AllPrintable :
    (strftime : ℕ → Text) (out : Text) (ns : ℕ)
    → AllPrintable out
    → AllPrintable (append_timestamp strftime out ns)
unfolding append_timestamp
append_timestamp-AllPrintable strftime out ns h =
    append_escaped-AllPrintable (append_key out (codes "ts"))
      (strftime (ns / 10 ^ 9) ++ (46 ∷ (padded_dec 6 (ns % 10 ^ 9 / 1000) ++ (90 ∷ []))))
      (append_key-AllPrintable out (codes "ts") h)

dims_text-AllPrintable : (d : Dim3) → AllPrintable (dims_text d)
unfolding dims_text
dims_text-AllPrintable d = (
  omega arith,
  both (to_dec d.x) _ (to_dec-AllPrintable d.x) (
    omega arith,
    both (to_dec d.y) _ (to_dec-AllPrintable d.y)
        (omega arith, both (to_dec d.z) _ (to_dec-AllPrintable d.z) (omega arith, tt)),
  ),
)

append_duration-AllPrintable :
    (out : Text) (completed : Bool) (a b : ℕ)
    → AllPrintable out
    → AllPrintable (append_duration out completed a b)
unfolding append_duration
append_duration-AllPrintable out completed a b h = elim (Bool-cases (completed && ltb a b)) [
  | inl e ↦ rw e (append_fixed-AllPrintable out (codes "dur_us") (b - a) h)
  | inr e ↦ rw e h
]

append_copy-AllPrintable :
    (out : Text) (r : SdmaRecord) → AllPrintable out → AllPrintable (append_copy out r)
unfolding append_copy
append_copy-AllPrintable out r h = elim (Bool-cases (is_copy r)) [
  | inl e ↦ rw e (
      append_num-AllPrintable _ (codes "bytes") r.bytes
        (append_str-AllPrintable out (codes "dir") (copy_dir_name r.dir) h))
  | inr e ↦ rw e h
]

-- A text without control characters.
record IsClean (s : Text) : Type 0 where
  pub printable : AllPrintable s

module _ (out : Text) (h : IsClean out) where
  str-IsClean : (key val : Text) → IsClean (append_str out key val)
  str-IsClean key val = record { printable = append_str-AllPrintable out key val h.printable }

  num-IsClean : (key : Text) (val : ℕ) → IsClean (append_num out key val)
  num-IsClean key val = record { printable = append_num-AllPrintable out key val h.printable }

  dims-IsClean : (key : Text) (d : Dim3) → IsClean (append_key out key ++ dims_text d)
  dims-IsClean key d = record {
    printable =
        both (append_key out key) (dims_text d) (append_key-AllPrintable out key h.printable)
          (dims_text-AllPrintable d);
  }

  duration-IsClean : (completed : Bool) (a b : ℕ) → IsClean (append_duration out completed a b)
  duration-IsClean completed a b = record {
    printable = append_duration-AllPrintable out completed a b h.printable;
  }

  copy-IsClean : (r : SdmaRecord) → IsClean (append_copy out r)
  copy-IsClean r = record { printable = append_copy-AllPrintable out r h.printable }

  close-IsClean : IsClean (out ++ (125 ∷ []))
  close-IsClean = record { printable = both out (125 ∷ []) h.printable (omega arith, tt) }

start-IsClean : (strftime : ℕ → Text) (ns : ℕ) → IsClean (append_timestamp strftime (123 ∷ []) ns)
start-IsClean strftime ns = record {
  printable = append_timestamp-AllPrintable strftime (123 ∷ []) ns (omega arith, tt);
}

ruleset line_rules = (
  close-IsClean, str-IsClean, num-IsClean, dims-IsClean, duration-IsClean, copy-IsClean,
  start-IsClean,
)

queue_line-IsClean :
    (strftime : ℕ → Text) (offset : ℕ) (q : QueueInfo) (kind : Text)
    → IsClean (queue_line strftime offset q kind)
unfolding queue_line
queue_line-IsClean strftime offset q kind = search (line_rules) depth 14

dispatch_line-IsClean :
    (strftime : ℕ → Text) (offset : ℕ) (r : PacketRecord) (c : Ctx)
    → IsClean (dispatch_line strftime offset r c)
unfolding dispatch_line
dispatch_line-IsClean strftime offset r c = search (line_rules) depth 16

sdma_line-IsClean :
    (strftime : ℕ → Text) (offset : ℕ) (r : SdmaRecord) (c : Ctx)
    → IsClean (sdma_line strftime offset r c)
unfolding sdma_line
sdma_line-IsClean strftime offset r c = search (line_rules) depth 14

-- What is written for an event is one line: no control character stands in it, so neither does an
-- end of line, and one end of line follows.
abbrev pub IsOneLine : Text → Type 0
IsOneLine s = (line : Text) × (s ≡ line ++ (10 ∷ [])) × All IsPrintable line

-- Whatever the names of processes and kernels hold, each event of the log, a queue, a dispatch or an
-- SDMA packet, is written as one line: characters none of which is a control character, and then one
-- end of line. So a reader that splits the log at line ends gets each object whole.
pub log-IsOneLine :
    (strftime : ℕ → Text) (offset : ℕ) (q : QueueInfo) (kind : Text) (r : PacketRecord)
    (m : SdmaRecord) (c : Ctx)
    → IsOneLine (log_queue strftime offset q kind)
      × IsOneLine (log_dispatch strftime offset r c)
      × IsOneLine (log_sdma strftime offset m c)
unfolding log_queue log_dispatch log_sdma
log-IsOneLine strftime offset q kind r m c = (
  (_, refl, (queue_line-IsClean strftime offset q kind).printable),
  (_, refl, (dispatch_line-IsClean strftime offset r c).printable),
  (_, refl, (sdma_line-IsClean strftime offset m c).printable),
)
