-- ===== src/Encoding/Encoder/Zeroes.antt =====
-- The chunked loop of `Zeroes` against its plain meaning.
use go_hdb.Prelude.{
  ℕ, zero, suc, ◌+◌, ◌-◌, ◌≤◌, ◌≡◌, sym, ◌∙◌, ◌++◌, arith, leb, if◌then◌else◌, replicate,
  replicate-add, length, length-replicate, ap,
}
use go_hdb.Encoding.Encoder.{Encoder, zeroes_loop, zeroes, write_scratch_size, bytes}
use mathlib.Core.List.{append_assoc, append-nil}

-- What one round of the loop writes.
abbrev chunk : ℕ → ℕ
chunk left = if leb left write_scratch_size then left else write_scratch_size

chunk-le : (left : ℕ) → chunk left ≤ left
chunk-le left = ground arith

chunk_pos : (left : ℕ) → 1 ≤ chunk (suc left)
chunk_pos left = ground arith

join_zeroes :
    (e : Encoder) (j left : ℕ)
    → j ≤ left
    → (e ++ replicate j 0) ++ replicate (left - j) 0 ≡ e ++ replicate left 0
join_zeroes e j left h =
    rw
      (
        append_assoc e (replicate j 0) (replicate (left - j) 0),
        replicate-add {A = ℕ} j (left - j) 0,
      )
      (ap (λ (n : ℕ). e ++ replicate n 0) {x = j + (left - j)} {y = left} (omega arith))

zeroes_loop-replicate :
    (fuel left : ℕ) (e : Encoder) → left ≤ fuel → zeroes_loop fuel left e ≡ e ++ replicate left 0
unfolding zeroes_loop bytes
zeroes_loop-replicate zero zero e h = sym (append-nil e)
zeroes_loop-replicate zero (suc left) e h = absurd (omega arith)
zeroes_loop-replicate (suc fuel) zero e h = sym (append-nil e)
zeroes_loop-replicate (suc fuel) (suc left) e h =
    let j = chunk (suc left) in
    zeroes_loop-replicate fuel (suc left - j) (e ++ replicate j 0) (omega (arith, chunk_pos left))
    ∙ join_zeroes e j (suc left) (chunk-le (suc left))

-- `Zeroes` writes cnt zero bytes, however many times it fills its buffer.
pub zeroes-replicate : (cnt : ℕ) (e : Encoder) → zeroes cnt e ≡ e ++ replicate cnt 0
unfolding zeroes
zeroes-replicate cnt e = zeroes_loop-replicate cnt cnt e (omega arith)

pub length_zeroes : (n : ℕ) → length (replicate {A = ℕ} n 0) ≡ n
length_zeroes n = length-replicate n 0
