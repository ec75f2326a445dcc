-- ===== src/Http/Request/Words.antt =====
-- The words of a request line, and the lines of a text.
use wuduo.Prelude.{
  ℕ, suc, ◌≡◌, ◌≢◌, refl, sym, ap, ap₂, ◌∙◌, subst, true, inl, inr, Option, none, some, [], ◌∷◌,
  ◌++◌, ltb, length, take, drop, arith, Outcome, ok, abort, Option-cases, length-append,
  take_append, drop_append, append_assoc,
}
use wuduo.Buffer.{Bytes}
use wuduo.Http.Text.{codes, space, carriage_return, equal, find_char}
use wuduo.Http.Text.Find.{
  equal_iff, Lacks, find_char_append, find_char-none, find_char-some, find_char-Lacks,
}
use wuduo.Http.Request.{
  Method, Version, get, head, post, http10, http11, method_of, version_of, before_cr,
  split_at_space, and_then, method_text, version_text,
}

pub method_of-some :
    (s : Bytes) (m : Method) → method_of s ≡ some m → (method_text m ≡ s) × (m ≢ Method.unknown)
unfolding method_of
method_of-some s m e =
    ground
      (arith, equal_iff s (codes "GET"), equal_iff s (codes "HEAD"), equal_iff s (codes "POST"))

pub version_of-some :
    (s : Bytes) (v : Version) → version_of s ≡ some v → (version_text v ≡ s) × (v ≢ Version.unknown)
unfolding version_of
version_of-some s v e =
    ground (arith, equal_iff s (codes "HTTP/1.0"), equal_iff s (codes "HTTP/1.1"))

pub method_of-text : (m : Method) → m ≢ Method.unknown → method_of (method_text m) ≡ some m
unfolding method_of equal
method_of-text get h = refl
method_of-text head h = refl
method_of-text post h = refl
method_of-text Method.unknown h = absurd (h refl)

pub version_of-text : (v : Version) → v ≢ Version.unknown → version_of (version_text v) ≡ some v
unfolding version_of equal
version_of-text http10 h = refl
version_of-text http11 h = refl
version_of-text Version.unknown h = absurd (h refl)

-- A split gives back what was split, and the first part has no space.
pub split_at_space-some :
    (line before after : Bytes)
    → split_at_space line ≡ ok (some (before, after))
    → (line ≡ before ++ (space ∷ after)) × Lacks space before
unfolding split_at_space
split_at_space-some line before after e = elim (Option-cases (find_char space line)) [
  | inl absent ↦ absurd (ground arith)
  | inr (p, found) ↦
      let (free, cut) = find_char-some space p line found in
      let (b, a) = parts p found in
      (cut ∙ ap₂ (λ s t. s ++ (space ∷ t)) b a, subst (Lacks space) b free)
]
  where
    parts :
        (p : ℕ)
        → find_char space line ≡ some p
        → (take p line ≡ before) × (drop (suc p) line ≡ after)
    parts p found = ground arith

pub split_at_space_append :
    (before after : Bytes)
    → Lacks space before
    → after ≢ []
    → split_at_space (before ++ (space ∷ after)) ≡ ok (some (before, after))
unfolding split_at_space
split_at_space_append before [] h ne = absurd (ne refl)
split_at_space_append before (c ∷ after) h ne =
    rw (find_char_append space before (c ∷ after) h, split_at_space)
      (rw (room, cut_before, cut_after))
  where
    line : Bytes
    line = before ++ (space ∷ c ∷ after)

    room : ltb (suc (length before)) (length line) ≡ true
    room = ground (arith, length-append before (space ∷ c ∷ after))

    cut_before : take (length before) line ≡ before
    cut_before = take_append (length before) before (space ∷ c ∷ after) refl

    cut_after : drop (suc (length before)) line ≡ c ∷ after
    cut_after =
        ap (drop (suc (length before))) (sym (append_assoc before (space ∷ []) (c ∷ after)))
        ∙ drop_append (suc (length before)) (before ++ (space ∷ [])) (c ∷ after)
            (omega (arith, length-append before (space ∷ [])))

pub before_cr-Lacks : (line : Bytes) → Lacks carriage_return (before_cr line)
unfolding before_cr
before_cr-Lacks line = elim (Option-cases (find_char carriage_return line)) [
  | inl absent ↦ rw (absent, before_cr) (find_char-Lacks carriage_return line absent)
  | inr (p, found) ↦ rw (found, before_cr) (find_char-some carriage_return p line found).0
]

pub before_cr_append :
    (line rest : Bytes)
    → Lacks carriage_return line
    → before_cr (line ++ (carriage_return ∷ rest)) ≡ line
unfolding before_cr
before_cr_append line rest h =
    rw (find_char_append carriage_return line rest h, before_cr)
      (take_append (length line) line (carriage_return ∷ rest) refl)

pub before_cr_none : (line : Bytes) → Lacks carriage_return line → before_cr line ≡ line
unfolding before_cr
before_cr_none line h = rw (find_char-none carriage_return line h, before_cr)

pub and_then-some {ℓ κ} :
    {A : Type ℓ} {B : Type κ} (m : Outcome (Option A)) (f : A → Outcome (Option B)) {b : B}
    → and_then m f ≡ ok (some b)
    → (a : A) × (m ≡ ok (some a)) × (f a ≡ ok (some b))
and_then-some (ok none) f e = cc
and_then-some (ok (some a)) f e = (a, refl, e)
and_then-some (abort x) f e = cc

pub append-ne-nil : (xs : Bytes) (c : ℕ) (ys : Bytes) → xs ++ (c ∷ ys) ≢ []
append-ne-nil [] c ys e = cc
append-ne-nil (x ∷ xs) c ys e = cc
