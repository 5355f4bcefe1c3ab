-- ===== src/Framing/Ring/Fifo.antt =====
-- What `UartRingBuffer` of DelegateMQ/port/transport/stm32-uart/Stm32UartTransport.h promises: a queue
-- that holds one byte less than its size.
use async_duck_db.Common.{
  ℕ, ◌+◌, ◌<◌, ◌≡◌, subst, refl, sym, ap, Bool, true, false, List, [], ◌∷◌, ◌++◌, Option, none,
  some, ltb, length, if◌then◌else◌, Bool-cases, inl, inr,
}
use async_duck_db.Framing.Ring.{UartRingBuffer, new_ring, put, get, clear}
use async_duck_db.Framing.Ring.Places.{
  Holds, put-full, put-Holds, get-empty, get-Holds, clear-Holds, new_ring-Holds,
}

pub data Op : Type 0 where
  put_op : ℕ → Op
  get_op : Op
  clear_op : Op

-- what an operation returns
pub data Answer : Type 0 where
  accepted : Bool → Answer
  gotten : Option ℕ → Answer
  cleared : Answer

unfoldable pub perform : Op → UartRingBuffer → Answer × UartRingBuffer
perform (put_op b) r = (accepted (put b r).0, (put b r).1)
perform get_op r = (gotten (get r).0, (get r).1)
perform clear_op r = (cleared, clear r)

-- the queue of the specification, the oldest byte first
unfoldable pub serve : ℕ → Op → List ℕ → Answer × List ℕ
serve size (put_op b) q =
    if ltb (length q + 1) size then (accepted true, q ++ (b ∷ [])) else (accepted false, q)
serve size get_op [] = (gotten none, [])
serve size get_op (b ∷ q) = (gotten (some b), q)
serve size clear_op q = (cleared, [])

pub perform_all : List Op → UartRingBuffer → List Answer
perform_all [] r = []
perform_all (op ∷ ops) r = (perform op r).0 ∷ perform_all ops (perform op r).1

pub serve_all : ℕ → List Op → List ℕ → List Answer
serve_all size [] q = []
serve_all size (op ∷ ops) q = (serve size op q).0 ∷ serve_all size ops (serve size op q).1

perform-serve :
    (size : ℕ) (op : Op) (q : List ℕ) (r : UartRingBuffer)
    → Holds size q r
    → ((perform op r).0 ≡ (serve size op q).0) × Holds size (serve size op q).1 (perform op r).1
unfolding perform serve
perform-serve size (put_op b) q r h = elim (Bool-cases (ltb (length q + 1) size)) [
  | inl y ↦ let (e, k) = put-Holds size b q r h y in rw (y) (ap accepted e, k)
  | inr n ↦
      let e = put-full size b q r h n in
      rw (n) (ap (λ x. accepted x.0) e, subst (λ x. Holds size q x.1) (sym e) h)
]
perform-serve size get_op [] r h =
    let e = get-empty size r h in (ap (λ x. gotten x.0) e, subst (λ x. Holds size [] x.1) (sym e) h)
perform-serve size get_op (b ∷ q) r h = let (e, k) = get-Holds size b q r h in (ap gotten e, k)
perform-serve size clear_op q r h = (refl, clear-Holds size q r h)

runs-serve :
    (size : ℕ) (ops : List Op) (q : List ℕ) (r : UartRingBuffer)
    → Holds size q r
    → perform_all ops r ≡ serve_all size ops q
unfolding perform_all serve_all
runs-serve size [] q r h = refl
runs-serve size (op ∷ ops) q r h =
    let (e, k) = perform-serve size op q r h in
    cc (e, runs-serve size ops (serve size op q).1 (perform op r).1 k)

-- A ring of a size that is not 0 answers any sequence of `Put`, `Get` and `Clear` as a queue does that
-- refuses a byte when it holds one less than the size, and is empty at the start.
pub perform_all-serve_ring :
    (size : ℕ) (ops : List Op) → 0 < size → perform_all ops (new_ring size) ≡ serve_all size ops []
perform_all-serve_ring size ops p = runs-serve size ops [] (new_ring size) (new_ring-Holds size p)
