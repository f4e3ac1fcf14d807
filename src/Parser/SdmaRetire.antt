-- ===== src/Parser/SdmaRetire.antt =====
-- Which SDMA packets in flight the end of a poll of src/parser.cpp hands to the sink.
use hsa_snoop.Prelude.{
  after, ℕ, ◌+◌, ◌≤◌, ◌<◌, ◌≡◌, refl, sym, ap, inl, inr, true, false, List, [], ◌∷◌, ◌++◌, arith,
  ltb, leb, if◌then◌else◌, ltb→lt, Bool-cases,
}
use hsa_snoop.Model.{SdmaRecord}
use hsa_snoop.Parser.State.{retire}
use hsa_snoop.Parser.PollSdma.{complete_sdma}
use hsa_snoop.Parser.Order.{Asc, AllEntries}
use hsa_snoop.Parser.SdmaOrder.{IsSdmaPending, seqs}

-- What the sink may be told at `now`.
pub record IsSdmaDelivered (now : ℕ) (r : SdmaRecord) : Type 0 where
  pub complete : r.completed ≡ true
  pub finished : r.complete_ts ≡ now
  pub started : r.submit_ts ≤ now

pub sdma_delivered :
    (rptr now : ℕ) (m : List (ℕ × SdmaRecord))
    → AllEntries (IsSdmaPending now) m
    → AllEntries (λ end r. ltb rptr end ≡ false → IsSdmaDelivered now (complete_sdma now r)) m
unfolding complete_sdma
sdma_delivered rptr now [] a = tt
sdma_delivered rptr now ((end, r) ∷ m) a = (
  λ h. record { complete = refl; finished = refl; started = a.0.stamped },
  sdma_delivered rptr now m a.1,
)

abbrev pub out_seqs : List SdmaRecord → List ℕ
out_seqs [] = []
out_seqs (r ∷ rs) = r.seq ∷ out_seqs rs

pub retire-seqs :
    (rptr now : ℕ) (m : List (ℕ × SdmaRecord))
    → out_seqs (retire (ltb rptr) (complete_sdma now) m).0
        ++ seqs (retire (ltb rptr) (complete_sdma now) m).1
      ≡ seqs m
unfolding retire complete_sdma
retire-seqs rptr now [] = refl
retire-seqs rptr now ((end, r) ∷ m) = elim (Bool-cases (ltb rptr end)) [
  | inl e ↦ rw e refl
  | inr e ↦ rw e (ap (◌∷◌ r.seq) (retire-seqs rptr now m))
]

-- The packets whose end the read pointer has reached, completed at `now`.
unfoldable pub reached : ℕ → ℕ → List (ℕ × SdmaRecord) → List SdmaRecord
reached rptr now [] = []
reached rptr now ((end, r) ∷ m) =
    let rest = reached rptr now m in
    if leb end rptr then record r { complete_ts = now; completed = true } ∷ rest else rest

-- The packets whose end it has not reached.
unfoldable pub ahead : ℕ → List (ℕ × SdmaRecord) → List (ℕ × SdmaRecord)
ahead rptr [] = []
ahead rptr ((end, r) ∷ m) =
    let rest = ahead rptr m in if leb end rptr then rest else (end, r) ∷ rest

-- The poll adds packets behind those in flight, and divides them all at the read pointer.
abbrev pub IsDivided :
    ℕ → ℕ → List (ℕ × SdmaRecord) → List (ℕ × SdmaRecord) → List SdmaRecord → Type 0
IsDivided rptr now before after out =
    (added : List (ℕ × SdmaRecord)) × (out ≡ reached rptr now (before ++ added))
    × (after ≡ ahead rptr (before ++ added))

all_ahead :
    (rptr now lo hi : ℕ) (m : List (ℕ × SdmaRecord))
    → rptr < lo
    → Asc lo hi m
    → (reached rptr now m ≡ []) × (ahead rptr m ≡ m)
unfolding reached ahead
all_ahead rptr now lo hi [] h a = (refl, refl)
all_ahead rptr now lo hi ((end, r) ∷ m) h a =
    let far : leb end rptr ≡ false = ground (arith, a.0) in
    let rest = all_ahead rptr now (end + 1) hi m (omega (arith, a.0)) a.2 in
    rw far (rest.0, ap (◌∷◌ (end, r)) rest.1)

-- The loop that stops at the first packet ahead of the read pointer leaves none behind it out.
pub retire_divides :
    (rptr now lo hi : ℕ) (m : List (ℕ × SdmaRecord))
    → Asc lo hi m
    → ((retire (ltb rptr) (complete_sdma now) m).0 ≡ reached rptr now m)
      × ((retire (ltb rptr) (complete_sdma now) m).1 ≡ ahead rptr m)
unfolding retire complete_sdma reached ahead
retire_divides rptr now lo hi [] a = (refl, refl)
retire_divides rptr now lo hi ((end, r) ∷ m) a = elim (Bool-cases (ltb rptr end)) [
  | inl e ↦
      let far : leb end rptr ≡ false = ground arith in
      let rest = all_ahead rptr now (end + 1) hi m (omega (arith, ltb→lt rptr end e)) a.2 in
      rw (e, far) (sym rest.0, ap (◌∷◌ (end, r)) (sym rest.1))
  | inr e ↦
      let near : leb end rptr ≡ true = ground arith in
      let rest = retire_divides rptr now (end + 1) hi m a.2 in
      rw (e, near) (ap (◌∷◌ (complete_sdma now r)) rest.0, rest.1)
]
