-- ===== src/Http/Request/Line.antt =====
-- The request line: what `RequestLine::from` accepts is what `RequestLine::to_string` prints.
use wuduo.Prelude.{
  ◌≡◌, ◌≢◌, sym, ap, ◌∙◌, ◌↔◌, subst, inl, inr, some, [], ◌∷◌, ◌++◌, arith, ok, Option-cases,
}
use wuduo.Buffer.{Bytes}
use wuduo.Http.Text.{space, carriage_return}
use wuduo.Http.Text.Find.{Lacks, Lacks-of_append}
use wuduo.Http.Request.{
  Method, Version, get, head, post, http10, http11, RequestLine, method_of, version_of,
  path_and_query, from_parts, before_cr, split_at_space, and_then, from_line, method_text,
  version_text, to_string,
}
use wuduo.Http.Request.Words.{
  and_then-some, append-ne-nil, before_cr-Lacks, method_of-some, method_of-text,
  split_at_space-some, split_at_space_append, version_of-some, version_of-text,
}

-- A parsed request line.
pub record IsParsed (r : RequestLine) : Type 0 where
  pub method_known : r.method ≢ Method.unknown
  pub version_known : r.version ≢ Version.unknown
  pub one_word : Lacks space r.url
  pub one_line : Lacks carriage_return r.url
  pub target : path_and_query r.url ≡ ok (r.path, r.query)

-- What `from_parts` accepts it keeps, word by word.
from_parts-some :
    (m u v : Bytes) (r : RequestLine)
    → from_parts m u v ≡ ok (some r)
    → (method_text r.method ≡ m)
      × (r.method ≢ Method.unknown)
      × (r.url ≡ u)
      × (version_text r.version ≡ v)
      × (r.version ≢ Version.unknown)
      × (path_and_query u ≡ ok (r.path, r.query))
unfolding from_parts
from_parts-some m u v r e = elim (Option-cases (method_of m)) [
  | inl absent ↦ absurd (ground arith)
  | inr (k, ek) ↦ elim (Option-cases (version_of v)) [
    | inl absent ↦ absurd (ground arith)
    | inr (w, ew) ↦ ground (arith, method_of-some m k ek, version_of-some v w ew)
  ]
]

from_parts-text :
    (r : RequestLine)
    → IsParsed r
    → from_parts (method_text r.method) r.url (version_text r.version) ≡ ok (some r)
unfolding from_parts
from_parts-text r h = rw (
  method_of-text r.method h.method_known,
  h.target,
  version_of-text r.version h.version_known,
  from_parts,
)

pub method_text-Lacks :
    (m : Method) → Lacks space (method_text m) × Lacks carriage_return (method_text m)
method_text-Lacks get = ground arith
method_text-Lacks head = ground arith
method_text-Lacks post = ground arith
method_text-Lacks Method.unknown = ground arith

version_text-ne-nil : (v : Version) → version_text v ≢ []
version_text-ne-nil http10 e = cc
version_text-ne-nil http11 e = cc
version_text-ne-nil Version.unknown e = cc

from_line_of_text :
    (line : Bytes) (r : RequestLine)
    → IsParsed r
    → to_string r ≡ before_cr line
    → from_line line ≡ ok (some r)
unfolding from_line to_string
from_line_of_text line r h e =
    rw
      (
        ← e,
        split_at_space_append (method_text r.method) (r.url ++ (space ∷ version_text r.version))
            (method_text-Lacks r.method).0 (append-ne-nil r.url space (version_text r.version)),
        split_at_space_append r.url (version_text r.version) h.one_word
            (version_text-ne-nil r.version),
      )
      (from_parts-text r h)

text_of_words :
    (text m rest u v : Bytes) (r : RequestLine)
    → Lacks carriage_return text
    → split_at_space text ≡ ok (some (m, rest))
    → split_at_space rest ≡ ok (some (u, v))
    → from_parts m u v ≡ ok (some r)
    → IsParsed r × (to_string r ≡ text)
unfolding to_string
text_of_words text m rest u v r whole e₁ e₂ e₃ =
    let (cut₁, word₁) = split_at_space-some text m rest e₁ in
    let (cut₂, word₂) = split_at_space-some rest u v e₂ in
    let (em, known_m, eu, ev, known_v, target) = from_parts-some m u v r e₃ in
    let after_m =
      (Lacks-of_append carriage_return m (space ∷ rest)
        (subst (Lacks carriage_return) cut₁ whole)).1 in
    let in_u =
      (Lacks-of_append carriage_return u (space ∷ v)
        (subst (Lacks carriage_return) cut₂ after_m.1)).0 in
    (
      record {
        method_known = known_m;
        version_known = known_v;
        one_word = subst (Lacks space) (sym eu) word₂;
        one_line = subst (Lacks carriage_return) (sym eu) in_u;
        target = ap path_and_query eu ∙ target;
      },
      cc (em, eu, ev, cut₁, cut₂),
    )

text_of_from_line :
    (line : Bytes) (r : RequestLine)
    → from_line line ≡ ok (some r)
    → IsParsed r × (to_string r ≡ before_cr line)
unfolding from_line
text_of_from_line line r e =
    let (words, e₁, e') =
      and_then-some (split_at_space (before_cr line))
        (λ (m, rest). and_then (split_at_space rest) λ (u, v). from_parts m u v) e in
    let (more, e₂, e₃) =
      and_then-some (split_at_space words.1) (λ (u, v). from_parts words.0 u v) e' in
    text_of_words (before_cr line) words.0 words.1 more.0 more.1 r (before_cr-Lacks line) e₁ e₂ e₃

-- `RequestLine::from` accepts a line as `r` exactly when `RequestLine::to_string` prints `r` as the
-- line up to its first carriage return, where `r` is a known method and version around a url of one
-- word, cut into the path and the query that the url gives. So the parser accepts every printed
-- request line, and nothing else.
pub from_line_iff :
    (line : Bytes) (r : RequestLine)
    → (from_line line ≡ ok (some r)) ↔ (IsParsed r × (to_string r ≡ before_cr line))
from_line_iff line r = (text_of_from_line line r, λ h. from_line_of_text line r h.0 h.1)
