-- ===== src/LogBuffer/Ring.antt =====
-- log_buffer.rs: what the buffer keeps and what a snapshot shows.
use Prim.Native.Nat.{min}
use watercontroller.Base.{
  ap, ◌∙◌, ℕ, ◌≤◌, ◌≡◌, refl, List, [], ◌∷◌, ◌++◌, ◌==◌, arith, length, last_of, last_of-push_ring,
  length-push_ring, last_of-fits, last_of-last_of, append-nil, snoc-append, push_ring,
  length-append, false,
}
use watercontroller.LogBuffer.{LogRecord, LogBuffer, new, push, push_all, snapshot}

push_all-records :
    (recs : List LogRecord) (b : LogBuffer)
    → 1 ≤ b.capacity
    → length b.records ≤ b.capacity
    → (push_all recs b).records ≡ last_of b.capacity (b.records ++ recs)
unfolding push_all push
push_all-records [] b p u = rw (append-nil b.records, last_of-fits b.capacity b.records u) refl
push_all-records (rec ∷ recs) b p u =
    push_all-records recs (push rec b) p (length-push_ring b.capacity rec b.records p u)
    ∙ last_of-push_ring b.capacity rec recs b.records p u

-- From a new buffer with at least one place, after any records a snapshot of `n` shows the last ones
-- of them, in order: `n` of them, or as many as the buffer has places if these are fewer.
pub snapshot-push_all :
    (capacity n : ℕ) (recs : List LogRecord)
    → 1 ≤ capacity
    → snapshot n (push_all recs (new capacity)) ≡ last_of (min n capacity) recs
unfolding snapshot
snapshot-push_all capacity n recs p =
    ap (last_of n) (push_all-records recs (new capacity) p (omega arith))
    ∙ last_of-last_of n capacity recs

grows :
    (recs : List LogRecord) (b : LogBuffer)
    → b.capacity ≡ 0
    → 1 ≤ length b.records
    → (push_all recs b).records ≡ b.records ++ recs
unfolding push_all push
grows [] b z u = rw (append-nil b.records) refl
grows (rec ∷ recs) b z u =
    let open_ended : length b.records == b.capacity ≡ false = ground (arith, z, u) in
    let kept : push_ring b.capacity rec b.records ≡ b.records ++ rec ∷ [] = rw open_ended refl in
    grows recs (push rec b) z (ground (arith, kept, length-append b.records (rec ∷ [])))
    ∙ rw kept (snoc-append b.records rec recs)

-- A new buffer of capacity 0 keeps every record that is pushed, however many there are.
pub push_all-zero : (recs : List LogRecord) → (push_all recs (new 0)).records ≡ recs
unfolding push_all push
push_all-zero [] = refl
push_all-zero (rec ∷ recs) = grows recs (push rec (new 0)) refl (omega arith)
