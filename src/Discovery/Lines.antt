-- ===== src/Discovery/Lines.antt =====
-- The lines that the readers of src/discovery.cpp take from a pipe, and how the input is cut.
use mathlib.Core.List.{append-nil, append_assoc}
use hsa_snoop.Prelude.{
  Text, ℕ, ◌≡◌, refl, sym, ap, ◌∙◌, inl, inr, false, List, [], ◌∷◌, ◌++◌, ◌==◌, Bool-cases,
}
use hsa_snoop.Discovery.Reads.{push_front, split_lines, polled_lines}

abbrev pub concat : List Text → Text
concat [] = []
concat (t ∷ ts) = t ++ concat ts

-- The lines of a text that stands behind one that has been cut.
abbrev pub continue : List Text × Text → Text → List Text × Text
unfolding split_lines
continue p s = (p.0 ++ (split_lines (p.1 ++ s)).0, (split_lines (p.1 ++ s)).1)

continue-push_front :
    (c : ℕ) (p : List Text × Text) (s : Text)
    → (c == 10) ≡ false
    → continue (push_front c p) s ≡ push_front c (continue p s)
unfolding split_lines
continue-push_front c ([], rest) s h = rw h refl
continue-push_front c (l ∷ ls, rest) s h = refl

split_lines-newline :
    (s : Text) → split_lines (10 ∷ s) ≡ ([] ∷ (split_lines s).0, (split_lines s).1)
unfolding split_lines
split_lines-newline s = refl

split_lines-push_front :
    (c : ℕ) (s : Text) → (c == 10) ≡ false → split_lines (c ∷ s) ≡ push_front c (split_lines s)
unfolding split_lines
split_lines-push_front c s h = rw h refl

pub split_lines-append : (s t : Text) → split_lines (s ++ t) ≡ continue (split_lines s) t
unfolding split_lines
split_lines-append [] t = refl
split_lines-append (c ∷ s) t = elim (Bool-cases (c == 10)) [
  | inl h ↦ rw (h, split_lines-append s t) refl
  | inr h ↦
      split_lines-push_front c (s ++ t) h
      ∙ ap (push_front c) (split_lines-append s t)
      ∙ sym (continue-push_front c (split_lines s) t h)
      ∙ ap (λ p. continue p t) (sym (split_lines-push_front c s h))
]

-- A text without a line end.
abbrev pub Settled : Text → Type 0
Settled s = split_lines s ≡ ([], s)

Settled-push_front :
    (c : ℕ) (p : List Text × Text) → (c == 10) ≡ false → Settled p.1 → Settled (push_front c p).1
Settled-push_front c ([], rest) h k = split_lines-push_front c rest h ∙ ap (push_front c) k
Settled-push_front c (l ∷ ls, rest) h k = k

pub split_lines-Settled : (s : Text) → Settled (split_lines s).1
unfolding split_lines
split_lines-Settled [] = refl
split_lines-Settled (c ∷ s) = elim (Bool-cases (c == 10)) [
  | inl h ↦ rw h (split_lines-Settled s)
  | inr h ↦ rw h (Settled-push_front c (split_lines s) h (split_lines-Settled s))
]

polled_lines-Settled :
    (chunks : List Text) (buf : Text)
    → Settled buf
    → polled_lines buf chunks ≡ split_lines (buf ++ concat chunks)
unfolding polled_lines
polled_lines-Settled [] buf h = sym h ∙ ap split_lines (sym (append-nil buf))
polled_lines-Settled (chunk ∷ more) buf h =
    let p = split_lines (buf ++ chunk) in
    let e = polled_lines-Settled more p.1 (split_lines-Settled (buf ++ chunk)) in
    ap (λ (q : List Text × Text). (p.0 ++ q.0, q.1)) e
    ∙ sym (split_lines-append (buf ++ chunk) (concat more))
    ∙ ap split_lines (append_assoc buf chunk (concat more))

-- However the input of `RunKprobe` is cut into reads, the lines that it handles, in order, and what
-- it keeps for later are those of the whole input: a line is never lost, doubled or split by the
-- end of a read.
pub polled_lines_lem : (chunks : List Text) → polled_lines [] chunks ≡ split_lines (concat chunks)
unfolding split_lines
polled_lines_lem chunks = polled_lines-Settled chunks [] refl
