-- ===== src/Encoding/Decoder/Progress.antt =====
-- What every read of `Decoder` does to its counter, its input and its error.
use Prim.Native.Nat.{min}
use mathlib.Core.Path.{subst}
use go_hdb.Prelude.{
  ℕ, ◌+◌, ◌≤◌, ◌≡◌, ◌≢◌, refl, sym, ap, Bool, true, false, ◌&&◌, ◌||◌, if◌then◌else◌, Option, none,
  some, arith, length, length-drop, length-replicate, drop, drop_all, leb, ltb, Bytes, replicate,
  Bool-cases, Option-cases, ◌<◌, ◌∙◌, inl, inr,
}
use go_hdb.Encoding.Decoder.{
  IoError, Decoder, Decoding, ◌>>=◌, read_full_error, copy_n_error, read_reader, read_full,
  read_scratch_size, skip,
}

-- An error stands only at the end of the input.
pub record IsValid (d : Decoder) : Type 0 where
  pub at_end : d.err ≢ none → length d.rd ≡ 0

-- From `d` to `d'`: bytes leave the input exactly as the counter counts them, a valid decoder stays
-- valid, and it does not lose an error.
pub record Progress (d d' : Decoder) : Type 0 where
  pub counted : d'.cnt + length d'.rd ≡ d.cnt + length d.rd
  pub kept : IsValid d → IsValid d'
  pub sticky : IsValid d → d.err ≢ none → d'.err ≢ none

pub Progress-refl : (d : Decoder) → Progress d d
Progress-refl d = record { counted = refl; kept = λ v. v; sticky = λ v h. h }

pub Progress-trans : {d d' d'' : Decoder} → Progress d d' → Progress d' d'' → Progress d d''
Progress-trans p q = record {
  counted = q.counted ∙ p.counted;
  kept = λ v. q.kept (p.kept v);
  sticky = λ v h. q.sticky (p.kept v) (p.sticky v h);
}

-- A read that makes progress from every state.
abbrev pub Progresses {ℓ} : {A : Type ℓ} → Decoding A → Type 0
Progresses m = (d : Decoder) → Progress d (m d).1

pub >>=-Progress {ℓ κ} :
    {A : Type ℓ} {B : Type κ} (m : Decoding A) (f : A → Decoding B)
    → Progresses m
    → ((a : A) → Progresses (f a))
    → Progresses (m >>= f)
>>=-Progress m f p q d = Progress-trans (p d) (q (m d).0 (m d).1)

-- Reading n bytes of the input, n the lesser of what is wanted and what there is.
unfoldable pub advance : Decoder → ℕ → Option IoError → Decoder
advance d wanted e =
    let n = min wanted (length d.rd) in record d { rd = drop n d.rd; err = e; cnt = d.cnt + n }

advance-Progress :
    (d : Decoder) (wanted : ℕ) (e : Option IoError)
    → (e ≢ none → length d.rd ≤ wanted)
    → (length d.rd ≡ 0 → d.err ≢ none → e ≢ none)
    → Progress d (advance d wanted e)
unfolding advance
advance-Progress d wanted e short again = record {
  counted = omega (arith, length-drop (min wanted (length d.rd)) d.rd);
  kept = λ v. record {
    at_end = λ h. omega (arith, short h, length-drop (min wanted (length d.rd)) d.rd);
  };
  sticky = λ v h. again (v.at_end h) h;
}

read_full_error_some : (wanted n : ℕ) → n ≤ wanted → read_full_error wanted n ≢ none → n < wanted
unfolding read_full_error
read_full_error_some wanted n h = ground arith

read_full_error-none : (wanted n : ℕ) → read_full_error wanted n ≡ none → n ≡ wanted
unfolding read_full_error
read_full_error-none wanted n = ground arith

read_reader-Progress : (buf : Bytes) (d : Decoder) → d.err ≡ none → Progress d (read_reader buf d).1
unfolding read_reader advance
read_reader-Progress buf d e =
    let n = min (length buf) (length d.rd) in
    advance-Progress d (length buf) (read_full_error (length buf) n)
      (λ h. omega (arith, read_full_error_some (length buf) n (omega arith) h))
      (λ _ h. absurd (h e))

pub read_full-ok : (buf : Bytes) (d : Decoder) → d.err ≡ none → read_full buf d ≡ read_reader buf d
unfolding read_full
read_full-ok buf d e = ground arith

pub read_full-failed :
    (buf : Bytes) (d : Decoder) {x : IoError}
    → d.err ≡ some x
    → read_full buf d ≡ ((buf, some x), d)
unfolding read_full
read_full-failed buf d e = ground arith

pub read_full-Progress : (buf : Bytes) → Progresses (read_full buf)
read_full-Progress buf d = elim (Option-cases d.err) [
  | inl e ↦ simp (read_full-ok buf d e) (read_reader-Progress buf d e)
  | inr (x, e) ↦ simp (read_full-failed buf d e) (Progress-refl d)
]

copy_n_error_some : (wanted n : ℕ) → n ≤ wanted → copy_n_error wanted n ≢ none → n < wanted
unfolding copy_n_error
copy_n_error_some wanted n h = ground arith

copy_n_error_short : (wanted n : ℕ) → n < wanted → copy_n_error wanted n ≢ none
unfolding copy_n_error
copy_n_error_short wanted n h = ground arith

-- `Skip` beyond the scratch buffer.
abbrev skip_far : ℕ → Decoder → Decoder
skip_far cnt d = advance d cnt (copy_n_error cnt (min cnt (length d.rd)))

skip_far-Progress : (cnt : ℕ) (d : Decoder) → 0 < cnt → Progress d (skip_far cnt d)
skip_far-Progress cnt d h =
    advance-Progress d cnt (copy_n_error cnt (min cnt (length d.rd)))
      (λ k. omega (arith, copy_n_error_some cnt (min cnt (length d.rd)) (omega arith) k))
      (λ none_left _. copy_n_error_short cnt (min cnt (length d.rd)) (omega arith))

pub skip-Progress : (cnt : ℕ) → Progresses (skip cnt)
unfolding skip advance
skip-Progress cnt d = elim (Bool-cases (leb cnt read_scratch_size)) [
  | inl near ↦ rw near (read_full-Progress (replicate cnt 0) d)
  | inr far ↦ rw far (skip_far-Progress cnt d (ground arith))
]

abbrev pub is_none {ℓ} : {A : Type ℓ} → Option A → Bool
is_none none = true
is_none (some a) = false

-- Only a skip within the scratch buffer looks at the error.
abbrev pub reads : ℕ → Decoder → Bool
reads cnt d = is_none d.err || ltb read_scratch_size cnt

-- The state d' behind a skip from d, of which b tells whether it reads.
abbrev pub Skipped : ℕ → Bool → Decoder → Decoder → Type 0
Skipped cnt b d d' =
    (d'.rd ≡ (if b then drop cnt d.rd else d.rd))
    × (d'.cnt ≡ d.cnt + (if b then min cnt (length d.rd) else 0))
    × (is_none d'.err ≡ (b && leb cnt (length d.rd)))

drop-min : (n : ℕ) (xs : Bytes) → drop (min n (length xs)) xs ≡ drop n xs
drop-min n xs = elim (Bool-cases (leb n (length xs))) [
  | inl e ↦ ap (λ (k : ℕ). drop k xs) (ground (arith, e))
  | inr e ↦
      let h : length xs ≤ n = ground (arith, e) in
      ap (λ (k : ℕ). drop k xs) (omega (arith, h))
      ∙ drop_all (length xs) xs (omega arith)
      ∙ sym (drop_all n xs h)
]

read_full-error : (n len : ℕ) → is_none (read_full_error n (min n len)) ≡ leb n len
unfolding read_full_error
read_full-error n len = ground arith

copy_n-error : (n len : ℕ) → is_none (copy_n_error n (min n len)) ≡ leb n len
unfolding copy_n_error
copy_n-error n len = ground arith

or_true : (b : Bool) → (b || true) ≡ true
or_true true = refl
or_true false = refl

skip_near :
    (cnt : ℕ) (d : Decoder) → d.err ≡ none → Skipped cnt true d (read_full (replicate cnt 0) d).1
unfolding read_reader
skip_near cnt d e =
    rw (read_full-ok (replicate cnt 0) d e, length-replicate {A = ℕ} cnt 0)
      (drop-min cnt d.rd, refl, read_full-error cnt (length d.rd))

pub skip-drop : (cnt : ℕ) (d : Decoder) → Skipped cnt (reads cnt d) d (skip cnt d).1
unfolding skip
skip-drop cnt d = elim (Bool-cases (leb cnt read_scratch_size)) [
  | inl near ↦ elim (Option-cases d.err) [
    | inl e ↦
        let b : reads cnt d ≡ true = rw e refl in
        rw near (
          subst (λ (b : Bool). Skipped cnt b d (read_full (replicate cnt 0) d).1) (sym b)
            (skip_near cnt d e))
    | inr (x, e) ↦
        let b : reads cnt d ≡ false = rw e (ground (arith, near)) in
        let err : is_none d.err ≡ false = rw e refl in
        rw (near, read_full-failed (replicate cnt 0) d e)
          (subst (λ (b : Bool). Skipped cnt b d d) (sym b) (refl, omega arith, err))
  ]
  | inr far ↦
      let great : ltb read_scratch_size cnt ≡ true = ground (arith, far) in
      rw (far, great, or_true (is_none d.err))
        (drop-min cnt d.rd, refl, copy_n-error cnt (length d.rd))
]
