-- ===== src/Buffer/Queue.antt =====
-- The queue of bytes that a `Buffer` stands for, oldest byte first: no indices and no storage.
use wuduo.Prelude.{
  List, [], ◌∷◌, ◌++◌, ◌-◌, length, take, drop, leb, if◌then◌else◌, Outcome, ok, abort, assertion,
  ◌>>=◌,
}
use wuduo.Buffer.{Bytes, Op, appends, retrieves, unwrites, clears}

abbrev pub step : Bytes → Op → Outcome Bytes
step xs (appends ys) = ok (xs ++ ys)
step xs (retrieves n) = if leb n (length xs) then ok (drop n xs) else abort assertion
step xs (unwrites n) = if leb n (length xs) then ok (take (length xs - n) xs) else abort assertion
step xs clears = ok []

unfoldable pub run : Bytes → List Op → Outcome Bytes
run xs [] = ok xs
run xs (op ∷ ops) = step xs op >>= λ ys. run ys ops
