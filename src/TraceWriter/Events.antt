-- ===== src/TraceWriter/Events.antt =====
-- The begin and end events of `WritePerfetto` of src/trace_writer.cpp. The source repeats the same
-- code for packets, SDMA packets and AIS records; `R` is the type of any of them, and a time is a
-- whole number of nanoseconds.
use mathlib.Core.Path.{subst}
use hsa_snoop.Prelude.{
  ℕ, ◌+◌, ◌-◌, ◌≡◌, refl, sym, ◌∙◌, ◌≢◌, inl, inr, Bool, true, false, not, ◌&&◌, List, [], ◌∷◌,
  ◌++◌, arith, ltb, ◌==◌, if◌then◌else◌, Bool-cases,
}

-- `kMinDurSec`.
abbrev pub min_dur : ℕ
min_dur = 100

-- `Ev`.
pub record Ev {ℓ} (R : Type ℓ) : Type ℓ where
  pub ts : ℕ
  pub begin : Bool
  pub r : R

module _ {ℓ} {R : Type ℓ} (submit_ts complete_ts : R → ℕ) where
  unfoldable pub end_ts : R → ℕ
  end_ts r =
      if ltb (complete_ts r - submit_ts r) min_dur then submit_ts r + min_dur else complete_ts r

  abbrev pub begin_event : R → Ev R
  begin_event r = record { ts = submit_ts r; begin = true; r = r }

  abbrev pub end_event : R → Ev R
  end_event r = record { ts = end_ts r; begin = false; r = r }

  unfoldable pub events_of : List R → List (Ev R)
  events_of [] = []
  events_of (r ∷ rs) = begin_event r ∷ end_event r ∷ events_of rs

module _ {ℓ} {R : Type ℓ} where
  -- The order of the sort: an end stands before a begin of the same time.
  unfoldable pub before : Ev R → Ev R → Bool
  before a b = if not (a.ts == b.ts) then ltb a.ts b.ts else not a.begin && b.begin

  unfoldable pub insert : Ev R → List (Ev R) → List (Ev R)
  unfolding before
  insert e [] = e ∷ []
  insert e (x ∷ xs) = let rest = insert e xs in if before x e then x ∷ rest else e ∷ x ∷ xs

  -- `std::stable_sort` in that order: an event goes in front of those that came after it, except the
  -- ones that are before it in the order.
  unfoldable pub stable_sort : List (Ev R) → List (Ev R)
  unfolding insert
  stable_sort [] = []
  stable_sort (e ∷ es) = insert e (stable_sort es)

  -- No event stands in front of one that is before it.
  abbrev pub AllNotBefore : Ev R → List (Ev R) → Type 0
  AllNotBefore e [] = Unit {0}
  AllNotBefore e (x ∷ xs) = (before x e ≡ false) × AllNotBefore e xs

  abbrev pub Ordered : List (Ev R) → Type 0
  Ordered [] = Unit {0}
  Ordered (x ∷ xs) = AllNotBefore x xs × Ordered xs

  before_total : (a b : Ev R) → before a b ≡ true → before b a ≡ false
  unfolding before
  before_total a b h = ground arith

  before_trans : (a b c : Ev R) → before b a ≡ false → before c b ≡ false → before c a ≡ false
  unfolding before
  before_trans a b c h k = ground arith

  AllNotBefore-trans :
      (a b : Ev R) (xs : List (Ev R)) → before b a ≡ false → AllNotBefore b xs → AllNotBefore a xs
  AllNotBefore-trans a b [] h n = tt
  AllNotBefore-trans a b (x ∷ xs) h n = (before_trans a b x h n.0, AllNotBefore-trans a b xs h n.1)

  AllNotBefore-insert :
      (a e : Ev R) (xs : List (Ev R))
      → before e a ≡ false
      → AllNotBefore a xs
      → AllNotBefore a (insert e xs)
  unfolding insert
  AllNotBefore-insert a e [] h n = (h, tt)
  AllNotBefore-insert a e (x ∷ xs) h n = elim (Bool-cases (before x e)) [
    | inl c ↦ rw c (n.0, AllNotBefore-insert a e xs h n.1)
    | inr c ↦ rw c (h, n)
  ]

  Ordered-insert : (e : Ev R) (xs : List (Ev R)) → Ordered xs → Ordered (insert e xs)
  unfolding insert
  Ordered-insert e [] o = (tt, tt)
  Ordered-insert e (x ∷ xs) o = elim (Bool-cases (before x e)) [
    | inl c ↦ rw c (AllNotBefore-insert x e xs (before_total x e c) o.0, Ordered-insert e xs o.1)
    | inr c ↦ rw c ((c, AllNotBefore-trans e x xs c o.0), o)
  ]

  stable_sort-Ordered : (es : List (Ev R)) → Ordered (stable_sort es)
  unfolding stable_sort
  stable_sort-Ordered [] = tt
  stable_sort-Ordered (e ∷ es) = Ordered-insert e (stable_sort es) (stable_sort-Ordered es)

  -- How many events of a list a test accepts.
  unfoldable pub count : (Ev R → Bool) → List (Ev R) → ℕ
  count p [] = 0
  count p (x ∷ xs) = (if p x then 1 else 0) + count p xs

  count-insert :
      (p : Ev R → Bool) (e : Ev R) (xs : List (Ev R))
      → count p (insert e xs) ≡ (if p e then 1 else 0) + count p xs
  unfolding count insert
  count-insert p e [] = refl
  count-insert p e (x ∷ xs) = elim (Bool-cases (before x e)) [
    | inl c ↦ rw c (omega (arith, count-insert p e xs))
    | inr c ↦ rw c refl
  ]

  count-stable_sort : (p : Ev R → Bool) (es : List (Ev R)) → count p (stable_sort es) ≡ count p es
  unfolding count stable_sort
  count-stable_sort p [] = refl
  count-stable_sort p (e ∷ es) = rw (count-insert p e (stable_sort es), count-stable_sort p es) refl

  AllNotBefore-append :
      (a b : Ev R) (ys zs : List (Ev R)) → AllNotBefore a (ys ++ (b ∷ zs)) → before b a ≡ false
  AllNotBefore-append a b [] zs n = n.0
  AllNotBefore-append a b (y ∷ ys) zs n = AllNotBefore-append a b ys zs n.1

  Ordered-append :
      (xs ys zs : List (Ev R)) (a b : Ev R)
      → Ordered (xs ++ (a ∷ (ys ++ (b ∷ zs))))
      → before b a ≡ false
  Ordered-append [] ys zs a b o = AllNotBefore-append a b ys zs o.0
  Ordered-append (x ∷ xs) ys zs a b o = Ordered-append xs ys zs a b o.1

module _ {ℓ} {R : Type ℓ} (submit_ts complete_ts : R → ℕ) where
  Bool-apart : true ≢ false
  Bool-apart = cc

  begin-before-end :
      (r : R)
      → before (begin_event submit_ts complete_ts r) (end_event submit_ts complete_ts r) ≡ true
  unfolding before end_ts
  begin-before-end r = ground arith

  -- In the sorted events of any records, with any times, completions before submissions included, the
  -- end of a record's slice never stands in front of the begin of that slice.
  pub slice_order :
      (rs : List R) (xs ys zs : List (Ev R)) (r : R)
      → stable_sort (events_of submit_ts complete_ts rs)
        ≢ xs
          ++ (end_event submit_ts complete_ts r
              ∷ (ys ++ (begin_event submit_ts complete_ts r ∷ zs)))
  slice_order rs xs ys zs r h =
      let a = end_event submit_ts complete_ts r in
      let b = begin_event submit_ts complete_ts r in
      let es = events_of submit_ts complete_ts rs in
      let o = Ordered-append xs ys zs a b (subst Ordered h (stable_sort-Ordered es)) in
      Bool-apart (sym (begin-before-end r) ∙ o)

  -- In the sorted events of any records no event stands in front of one that is before it in the
  -- order of the sort; and the sort neither loses nor adds events: of every kind that a test can
  -- tell, there are as many as the records give.
  pub sorted_events :
      (rs : List R) (p : Ev R → Bool)
      → Ordered (stable_sort (events_of submit_ts complete_ts rs))
        × (count p (stable_sort (events_of submit_ts complete_ts rs))
            ≡ count p (events_of submit_ts complete_ts rs))
  sorted_events rs p =
      let es = events_of submit_ts complete_ts rs in
      (stable_sort-Ordered es, count-stable_sort p es)
