-- ===== src/Main/Gains.antt =====
-- What the writer of a queue gains, told by the packets of that queue.
use native.Mathlib.Omega.{arith}
use mathlib.Core.List.{append-nil, append_assoc}
use hsa_snoop.Prelude.{
  lookup, ℕ, ◌≡◌, refl, sym, ap, ◌∙◌, inl, inr, Bool, true, false, not, ◌||◌, List, [], ◌∷◌, ◌++◌,
  arith, ◌==◌, if◌then◌else◌, Bool-cases,
}
use hsa_snoop.Model.{PacketRecord, SdmaRecord}
use hsa_snoop.TraceWriter.Writer.{Writer, add_packet, add_sdma, put}

-- Whether the writer of queue `uid` is told of a record of queue `j`: with --all of its own queue's
-- alone, else it is the one writer and told of all.
abbrev pub is_told : Bool → ℕ → ℕ → Bool
is_told all uid j = not all || (j == uid)

-- The packets that the writer of a queue is told of.
unfoldable pub packets_for : Bool → ℕ → List PacketRecord → List PacketRecord
packets_for all uid [] = []
packets_for all uid (r ∷ rs) =
    let rest = packets_for all uid rs in if is_told all uid r.queue_uid then r ∷ rest else rest

unfoldable pub sdma_for : Bool → ℕ → List SdmaRecord → List SdmaRecord
sdma_for all uid [] = []
sdma_for all uid (r ∷ rs) =
    let rest = sdma_for all uid rs in if is_told all uid r.queue_uid then r ∷ rest else rest

pub packets_for-append :
    (all : Bool) (uid : ℕ) (xs ys : List PacketRecord)
    → packets_for all uid (xs ++ ys) ≡ packets_for all uid xs ++ packets_for all uid ys
unfolding packets_for
packets_for-append all uid [] ys = refl
packets_for-append all uid (r ∷ rs) ys = elim (Bool-cases (is_told all uid r.queue_uid)) [
  | inl h ↦ rw (h, packets_for-append all uid rs ys) refl
  | inr h ↦ rw (h, packets_for-append all uid rs ys) refl
]

sdma_for-append :
    (all : Bool) (uid : ℕ) (xs ys : List SdmaRecord)
    → sdma_for all uid (xs ++ ys) ≡ sdma_for all uid xs ++ sdma_for all uid ys
unfolding sdma_for
sdma_for-append all uid [] ys = refl
sdma_for-append all uid (r ∷ rs) ys = elim (Bool-cases (is_told all uid r.queue_uid)) [
  | inl h ↦ rw (h, sdma_for-append all uid rs ys) refl
  | inr h ↦ rw (h, sdma_for-append all uid rs ys) refl
]

pub lookup-put {ℓ} :
    {A : Type ℓ} (k j : ℕ) (v : A) (m : List (ℕ × A))
    → (j == k) ≡ false
    → lookup k (put j v m) ≡ lookup k m
unfolding put
lookup-put k j v [] h = rw h refl
lookup-put k j v ((i, w) ∷ m) h = ground (arith, lookup-put k j v m h)

-- What a queue's writer has gained: of these packets and SDMA packets those it is told of, behind
-- what it had.
pub record Gains (all : Bool) (uid : ℕ) (ps : List PacketRecord) (ds : List SdmaRecord)
    (w w' : Writer) : Type 0 where
  pub packets : w'.records ≡ w.records ++ packets_for all uid ps
  pub sdma : w'.sdma_records ≡ w.sdma_records ++ sdma_for all uid ds

pub Gains-none :
    (all : Bool) (uid : ℕ) (w w' : Writer)
    → w'.records ≡ w.records
    → w'.sdma_records ≡ w.sdma_records
    → Gains all uid [] [] w w'
unfolding packets_for sdma_for
Gains-none all uid w w' h k = record {
  packets = h ∙ sym (append-nil w.records);
  sdma = k ∙ sym (append-nil w.sdma_records);
}

pub Gains-packet :
    (all : Bool) (uid : ℕ) (r : PacketRecord) (w : Writer)
    → is_told all uid r.queue_uid ≡ true
    → Gains all uid (r ∷ []) [] w (add_packet r w)
unfolding add_packet packets_for sdma_for
Gains-packet all uid r w h = record { packets = rw h refl; sdma = sym (append-nil w.sdma_records) }

pub Gains-sdma :
    (all : Bool) (uid : ℕ) (r : SdmaRecord) (w : Writer)
    → is_told all uid r.queue_uid ≡ true
    → Gains all uid [] (r ∷ []) w (add_sdma r w)
unfolding add_sdma packets_for sdma_for
Gains-sdma all uid r w h = record { packets = sym (append-nil w.records); sdma = rw h refl }

pub Gains-other_packet :
    (all : Bool) (uid : ℕ) (r : PacketRecord) (w : Writer)
    → is_told all uid r.queue_uid ≡ false
    → Gains all uid (r ∷ []) [] w w
unfolding packets_for sdma_for
Gains-other_packet all uid r w h = record {
  packets = rw h (sym (append-nil w.records));
  sdma = sym (append-nil w.sdma_records);
}

pub Gains-other_sdma :
    (all : Bool) (uid : ℕ) (r : SdmaRecord) (w : Writer)
    → is_told all uid r.queue_uid ≡ false
    → Gains all uid [] (r ∷ []) w w
unfolding packets_for sdma_for
Gains-other_sdma all uid r w h = record {
  packets = sym (append-nil w.records);
  sdma = rw h (sym (append-nil w.sdma_records));
}

pub Gains-trans :
    (all : Bool) (uid : ℕ) (ps qs : List PacketRecord) (ds es : List SdmaRecord) (u v w : Writer)
    → Gains all uid ps ds u v
    → Gains all uid qs es v w
    → Gains all uid (ps ++ qs) (ds ++ es) u w
Gains-trans all uid ps qs ds es u v w g h = record {
  packets =
      h.packets
      ∙ ap (λ x. x ++ packets_for all uid qs) g.packets
      ∙ append_assoc u.records (packets_for all uid ps) (packets_for all uid qs)
      ∙ ap (λ x. u.records ++ x) (sym (packets_for-append all uid ps qs));
  sdma =
      h.sdma
      ∙ ap (λ x. x ++ sdma_for all uid es) g.sdma
      ∙ append_assoc u.sdma_records (sdma_for all uid ds) (sdma_for all uid es)
      ∙ ap (λ x. u.sdma_records ++ x) (sym (sdma_for-append all uid ds es));
}
