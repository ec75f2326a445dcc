-- ===== src/Http/Request/Aborts.antt =====
-- Request lines on which `RequestLine::from` ends the process.
use wuduo.Prelude.{
  suc, ◌≡◌, ◌≢◌, [], ◌∷◌, ◌++◌, false, ltb, length, arith, abort, assertion, length_error,
  length-append,
}
use wuduo.Buffer.{Bytes}
use wuduo.Http.Text.{space, carriage_return, equal, find_char}
use wuduo.Http.Text.Find.{Lacks, Lacks-append, find_char_append}
use wuduo.Http.Request.{
  Method, path_and_query, without_first, from_parts, split_at_space, from_line, method_text,
}
use wuduo.Http.Request.Line.{method_text-Lacks}
use wuduo.Http.Request.Words.{split_at_space_append, method_of-text, append-ne-nil, before_cr_none}

split_at_space_end :
    (word : Bytes) → Lacks space word → split_at_space (word ++ (space ∷ [])) ≡ abort assertion
unfolding split_at_space
split_at_space_end word h = rw (find_char_append space word [] h, split_at_space) (rw full)
  where
    full : ltb (suc (length word)) (length (word ++ (space ∷ []))) ≡ false
    full = ground (arith, length-append word (space ∷ []))

from_parts-nil :
    (m : Method) (version : Bytes)
    → m ≢ Method.unknown
    → from_parts (method_text m) [] version ≡ abort length_error
unfolding from_parts path_and_query without_first equal find_char
from_parts-nil m version known = rw (method_of-text m known, from_parts)

-- A line with nothing behind its first space, or behind its second, fails an assertion of
-- `RequestLine::from`; a known method before an empty url and a version ends in the `length_error`
-- that nothing catches.
pub from_line_aborts :
    (m : Method) (word version : Bytes)
    → Lacks space word
    → Lacks carriage_return word
    → Lacks carriage_return version
    → m ≢ Method.unknown
    → version ≢ []
    → (from_line (word ++ (space ∷ [])) ≡ abort assertion)
      × (from_line (method_text m ++ (space ∷ (word ++ (space ∷ [])))) ≡ abort assertion)
      × (from_line (method_text m ++ (space ∷ space ∷ version)) ≡ abort length_error)
unfolding from_line
from_line_aborts m word version w c cv known ne = (
  rw (before_cr_none (word ++ (space ∷ [])) closed, split_at_space_end word w),
  rw (
    before_cr_none (text ++ (space ∷ (word ++ (space ∷ []))))
        (Lacks-append carriage_return text _ free.1 (λ e. cc, closed)),
    split_at_space_append text (word ++ (space ∷ [])) free.0 (append-ne-nil word space []),
    split_at_space_end word w,
  ),
  rw
      (
        before_cr_none (text ++ (space ∷ space ∷ version))
            (Lacks-append carriage_return text _ free.1 (λ e. cc, (λ e. cc, cv))),
        split_at_space_append text (space ∷ version) free.0 (append-ne-nil [] space version),
        split_at_space_append [] version tt ne,
      )
      (from_parts-nil m version known),
)
  where
    text : Bytes
    text = method_text m

    free : Lacks space text × Lacks carriage_return text
    free = method_text-Lacks m

    closed : Lacks carriage_return (word ++ (space ∷ []))
    closed = Lacks-append carriage_return word (space ∷ []) c (λ e. cc, tt)
