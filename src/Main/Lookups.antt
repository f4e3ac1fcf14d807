-- ===== src/Main/Lookups.antt =====
-- Which writer of a queue a change of the writers of src/main.cpp leaves or makes.
use native.Mathlib.Omega.{arith}
use hsa_snoop.Prelude.{
  lookup, lookup-assign, assign, ℕ, ◌≡◌, refl, sym, ap, ◌∙◌, ◌≢◌, inl, inr, false, none, some, List,
  arith, ◌==◌, Bool-cases, Option-cases,
}
use hsa_snoop.Model.{QueueInfo}
use hsa_snoop.TraceWriter.Writer.{Format, Writer, new_writer, put, register_queue}
use hsa_snoop.Main.Gains.{lookup-put}
use hsa_snoop.Main.Session.{ensure_writer}
use hsa_snoop.Main.Sinks.{change_writer}

change_writer-some :
    (j : ℕ) (f : Writer → Writer) (writers : List (ℕ × Writer)) (w : Writer)
    → lookup j writers ≡ some w
    → change_writer j f writers ≡ assign j (f w) writers
unfolding change_writer
change_writer-some j f writers w h = rw (change_writer, h) refl

change_writer-none :
    (j : ℕ) (f : Writer → Writer) (writers : List (ℕ × Writer))
    → lookup j writers ≡ none
    → change_writer j f writers ≡ writers
unfolding change_writer
change_writer-none j f writers h = rw (change_writer, h) refl

pub lookup-change_writer_same :
    (uid : ℕ) (f : Writer → Writer) (writers : List (ℕ × Writer)) (w : Writer)
    → lookup uid writers ≡ some w
    → lookup uid (change_writer uid f writers) ≡ some (f w)
lookup-change_writer_same uid f writers w h =
    ap (lookup uid) (change_writer-some uid f writers w h)
    ∙ lookup-assign uid uid (f w) writers
    ∙ ground arith

pub lookup-change_writer_other :
    (uid j : ℕ) (f : Writer → Writer) (writers : List (ℕ × Writer))
    → (j == uid) ≡ false
    → lookup uid (change_writer j f writers) ≡ lookup uid writers
lookup-change_writer_other uid j f writers h = elim (Option-cases (lookup j writers)) [
  | inl k ↦ ap (lookup uid) (change_writer-none j f writers k)
  | inr (w, k) ↦
      ap (lookup uid) (change_writer-some j f writers w k)
      ∙ lookup-assign j uid (f w) writers
      ∙ rw h refl
]

ensure_writer-some :
    (fmt : Format) (q : QueueInfo) (writers : List (ℕ × Writer)) (w : Writer)
    → lookup q.uid writers ≡ some w
    → ensure_writer fmt q writers ≡ writers
unfolding ensure_writer
ensure_writer-some fmt q writers w h = rw (ensure_writer, h) refl

ensure_writer-none :
    (fmt : Format) (q : QueueInfo) (writers : List (ℕ × Writer))
    → lookup q.uid writers ≡ none
    → ensure_writer fmt q writers ≡ put q.uid (register_queue q (new_writer fmt)) writers
unfolding ensure_writer
ensure_writer-none fmt q writers h = rw (ensure_writer, h) refl

none≢some : {w : Writer} → none ≢ some w
none≢some = cc

pub lookup-ensure_writer :
    (fmt : Format) (q : QueueInfo) (uid : ℕ) (writers : List (ℕ × Writer)) (w : Writer)
    → lookup uid writers ≡ some w
    → lookup uid (ensure_writer fmt q writers) ≡ some w
lookup-ensure_writer fmt q uid writers w h = elim (Option-cases (lookup q.uid writers)) [
  | inr (v, k) ↦ ap (lookup uid) (ensure_writer-some fmt q writers v k) ∙ h
  | inl k ↦ elim (Bool-cases (q.uid == uid)) [
    | inl same ↦
        let e : q.uid ≡ uid = ground arith in
        absurd (none≢some (sym k ∙ ap (λ i. lookup i writers) e ∙ h))
    | inr other ↦
        ap (lookup uid) (ensure_writer-none fmt q writers k)
        ∙ lookup-put uid q.uid (register_queue q (new_writer fmt)) writers other
        ∙ h
  ]
]
